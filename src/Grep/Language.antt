-- ===== src/Grep/Language.antt =====
-- The language of a pattern of grep.c, and the matcher against it.
use sofinal_project.Prelude.{
  ℕ, ◌≡◌, ◌⊎◌, inl, inr, refl, sym, ap, ◌∙◌, fun_ext, ◌↔◌, Bool, true, false, ◌||◌, List, [], ◌∷◌,
  ◌++◌, arith, ◌==◌, if◌then◌else◌, eq→==, Bool-cases,
}
use mathlib.Core.Path.{subst}
use mathlib.Core.List.{append_assoc}
use sofinal_project.Grep.{
  dot, star, dollar, caret, is_end, matchstar, match_one, matchhere, match_loop, match_text,
}

-- What a pattern is made of.
pub data Item : Type 0 where
  one : ℕ → Item
  any : ℕ → Item
  end : Item

unfoldable pub items : List ℕ → List Item
items [] = []
items (c ∷ []) = if c == dollar then end ∷ [] else one c ∷ []
items (c ∷ d ∷ re) =
    let starred = any c ∷ items re in
    let single = one c ∷ items (d ∷ re) in if d == star then starred else single

-- The character `c` of a pattern stands for `t`.
abbrev pub Fits : ℕ → ℕ → Type 0
Fits c t = (c ≡ dot) ⊎ (c ≡ t)

abbrev pub AllFit : ℕ → List ℕ → Type 0
AllFit c [] = Unit
AllFit c (t ∷ ts) = Fits c t × AllFit c ts

-- A text that the items match, and what may follow it.
pub data Matches : List Item → List ℕ → List ℕ → Type 0 where
  nothing : (after : List ℕ) → Matches [] [] after
  single :
      (c t : ℕ) (is : List Item) (u after : List ℕ)
      → Fits c t
      → Matches is u after
      → Matches (one c ∷ is) (t ∷ u) after
  several :
      (c : ℕ) (w : List ℕ) (is : List Item) (u after : List ℕ)
      → AllFit c w
      → Matches is u after
      → Matches (any c ∷ is) (w ++ u) after
  last : (is : List Item) → Matches (end ∷ is) [] []

-- The matcher on items.
run : List Item → List ℕ → Bool
run [] text = true
run (one c ∷ is) text = match_one c (run is) text
run (any c ∷ is) text = matchstar c (run is) text
run (end ∷ is) text = is_end text

matchhere-items : (re text : List ℕ) → matchhere re text ≡ run (items re) text
unfolding matchhere items run
matchhere-items [] text = refl
matchhere-items (c ∷ []) text = elim (Bool-cases (c == dollar)) [
  | inl e ↦ rw e refl
  | inr e ↦ rw e refl
]
matchhere-items (c ∷ d ∷ re) text = elim (Bool-cases (d == star)) [
  | inl e ↦ rw e (ap (λ here. matchstar c here text) (fun_ext (λ t. matchhere-items re t)))
  | inr e ↦ rw e (ap (λ here. match_one c here text) (fun_ext (λ t. matchhere-items (d ∷ re) t)))
]

Fits-test : (c t : ℕ) → (c == dot || c == t) ≡ true → Fits c t
Fits-test c t h = ground (arith, h)

test-Fits : (c t : ℕ) → Fits c t → (c == dot || c == t) ≡ true
test-Fits c t (inl e) = rw (eq→== c dot e) refl
test-Fits c t (inr e) = elim (Bool-cases (c == dot)) [
  | inl d ↦ rw d refl
  | inr d ↦ rw (d, eq→== c t e) refl
]

star_test : (c t : ℕ) → Fits c t → (t == c || c == dot) ≡ true
star_test c t (inl e) = ground (arith, e)
star_test c t (inr e) = ground (arith, e)

test_star : (c t : ℕ) → (t == c || c == dot) ≡ true → Fits c t
test_star c t h = ground (arith, h)

second_true : (a b : Bool) → a ≡ false → (if a then true else b) ≡ true → b ≡ true
second_true a b h h' = ground (arith, h, h')

both_true : (a b : Bool) → (if a then b else false) ≡ true → (a ≡ true) × (b ≡ true)
both_true true b h = (refl, h)
both_true false b h = absurd (ground (arith, h))

-- A star takes some characters that fit, and leaves a text that the rest matches.
matchstar-splits :
    (c : ℕ) (here : List ℕ → Bool) (text : List ℕ)
    → matchstar c here text ≡ true
    → (w : List ℕ) × (after : List ℕ) × (text ≡ w ++ after) × AllFit c w × (here after ≡ true)
unfolding matchstar
matchstar-splits c here [] h = ([], [], refl, tt, h)
matchstar-splits c here (t ∷ text) h = elim (Bool-cases (here (t ∷ text))) [
  | inl now ↦ ([], t ∷ text, refl, tt, now)
  | inr later ↦
      let (fits, more) =
        both_true (t == c || c == dot) (matchstar c here text) (second_true _ _ later h) in
      let (w, after, e, all, found) = matchstar-splits c here text more in
      (t ∷ w, after, ap (λ ts. t ∷ ts) e, (test_star c t fits, all), found)
]

matchstar-joins :
    (c : ℕ) (here : List ℕ → Bool) (w after : List ℕ)
    → AllFit c w
    → here after ≡ true
    → matchstar c here (w ++ after) ≡ true
unfolding matchstar
matchstar-joins c here [] [] fits h = h
matchstar-joins c here [] (t ∷ after) fits h = rw h refl
matchstar-joins c here (t ∷ w) after (fit, fits) h =
    let more = matchstar-joins c here w after fits h in
    elim (Bool-cases (here (t ∷ (w ++ after)))) [
      | inl now ↦ rw now refl
      | inr later ↦ rw (later, star_test c t fit, more) refl
    ]

run-Matches :
    (is : List Item) (text : List ℕ)
    → run is text ≡ true
    → (u : List ℕ) × (after : List ℕ) × (text ≡ u ++ after) × Matches is u after
unfolding run
run-Matches [] text h = ([], text, refl, nothing text)
run-Matches (one c ∷ is) [] h = absurd (ground (arith, h))
run-Matches (one c ∷ is) (t ∷ text) h =
    let (fits, more) = both_true (c == dot || c == t) (run is text) h in
    let (u, after, e, m) = run-Matches is text more in
    (t ∷ u, after, ap (λ ts. t ∷ ts) e, single c t is u after (Fits-test c t fits) m)
run-Matches (any c ∷ is) text h =
    let (w, text', e, all, more) = matchstar-splits c (run is) text h in
    let (u, after, e', m) = run-Matches is text' more in
    (
      w ++ u,
      after,
      e ∙ ap (λ ts. w ++ ts) e' ∙ sym (append_assoc w u after),
      several c w is u after all m,
    )
run-Matches (end ∷ is) [] h = ([], [], refl, last is)
run-Matches (end ∷ is) (t ∷ text) h = absurd (ground (arith, h))

Matches-run : (is : List Item) (u after : List ℕ) → Matches is u after → run is (u ++ after) ≡ true
unfolding run
Matches-run _ _ _ (nothing after) = refl
Matches-run _ _ after (single c t is u _ fits m) =
    rw (test-Fits c t fits) (Matches-run is u after m)
Matches-run _ _ after (several c w is u _ all m) =
    rw (append_assoc w u after)
      (matchstar-joins c (run is) w (u ++ after) all (Matches-run is u after m))
Matches-run _ _ _ (last is) = refl

-- `matchhere` says whether the items of the pattern match a text from its start on.
matchhere-Matches :
    (re text : List ℕ)
    → matchhere re text ≡ true
    → (u : List ℕ) × (after : List ℕ) × (text ≡ u ++ after) × Matches (items re) u after
matchhere-Matches re text h = run-Matches (items re) text (sym (matchhere-items re text) ∙ h)

Matches-matchhere :
    (re u after : List ℕ) → Matches (items re) u after → matchhere re (u ++ after) ≡ true
Matches-matchhere re u after m = matchhere-items re (u ++ after) ∙ Matches-run (items re) u after m

-- The text before a place, up to which `match` has looked.
loop-some :
    (re text : List ℕ)
    → match_loop re text ≡ true
    → (before : List ℕ) × (here : List ℕ) × (text ≡ before ++ here) × (matchhere re here ≡ true)
unfolding match_loop
loop-some re [] h = ([], [], refl, h)
loop-some re (t ∷ text) h = elim (Bool-cases (matchhere re (t ∷ text))) [
  | inl now ↦ ([], t ∷ text, refl, now)
  | inr later ↦
      let (before, here, e, found) = loop-some re text (second_true _ _ later h) in
      (t ∷ before, here, ap (λ ts. t ∷ ts) e, found)
]

some-loop :
    (re before here : List ℕ) → matchhere re here ≡ true → match_loop re (before ++ here) ≡ true
unfolding match_loop
some-loop re [] [] h = h
some-loop re [] (t ∷ here) h = rw h refl
some-loop re (t ∷ before) here h = elim (Bool-cases (matchhere re (t ∷ (before ++ here)))) [
  | inl now ↦ rw now refl
  | inr later ↦ rw later (some-loop re before here h)
]

abbrev pub is_anchored : List ℕ → Bool
is_anchored [] = false
is_anchored (c ∷ re) = c == caret

-- The pattern without the caret in front.
abbrev pub body : List ℕ → List ℕ
body [] = []
body (c ∷ re) = if c == caret then re else c ∷ re

-- A part of the text that the pattern matches, at the start if there is a caret.
abbrev pub IsIn : List ℕ → List ℕ → Type 0
IsIn re text =
    (before : List ℕ) × (u : List ℕ) × (after : List ℕ) × (text ≡ before ++ (u ++ after))
    × (is_anchored re ≡ true → before ≡ [])
    × Matches (items (body re)) u after

found_here : (re text : List ℕ) → matchhere (body re) text ≡ true → IsIn re text
found_here re text h =
    let (u, after, e, m) = matchhere-Matches (body re) text h in ([], u, after, e, (λ a. refl), m)

found_later :
    (re text : List ℕ) → is_anchored re ≡ false → match_loop (body re) text ≡ true → IsIn re text
found_later re text free h =
    let (before, here, e, found) = loop-some (body re) text h in
    let (u, after, e', m) = matchhere-Matches (body re) here found in
    (before, u, after, e ∙ ap (λ ts. before ++ ts) e', (λ a. absurd (ground (arith, free, a))), m)

loop_finds : (re text : List ℕ) → IsIn re text → match_loop (body re) text ≡ true
loop_finds re text (before, u, after, e, start, m) =
    subst (λ ts. match_loop (body re) ts ≡ true) (sym e)
      (some-loop (body re) before (u ++ after) (Matches-matchhere (body re) u after m))

start_finds :
    (re text : List ℕ) → is_anchored re ≡ true → IsIn re text → matchhere (body re) text ≡ true
start_finds re text a (before, u, after, e, start, m) =
    subst (λ ts. matchhere (body re) ts ≡ true) (sym (e ∙ ap (λ ts. ts ++ (u ++ after)) (start a)))
      (Matches-matchhere (body re) u after m)

match_text-anchored :
    (c : ℕ) (re text : List ℕ)
    → (c == caret) ≡ true
    → match_text (c ∷ re) text ≡ matchhere (body (c ∷ re)) text
unfolding match_text
match_text-anchored c re text a = rw a refl

match_text-free :
    (c : ℕ) (re text : List ℕ)
    → (c == caret) ≡ false
    → match_text (c ∷ re) text ≡ match_loop (body (c ∷ re)) text
unfolding match_text
match_text-free c re text a = rw a refl

-- `match` finds the pattern in a text exactly when the text has a part that the pattern's items match one after
-- another: a character or a dot one character, a starred one any number of them, and a dollar sign
-- at the pattern's end the end of the text. With a caret in front the part is at the start of the text.
pub match_text_iff : (re text : List ℕ) → (match_text re text ≡ true) ↔ IsIn re text
unfolding match_text
match_text_iff [] text = (found_later [] text refl, loop_finds [] text)
match_text_iff (c ∷ re) text = elim (Bool-cases (c == caret)) [
  | inl a ↦
      let e = match_text-anchored c re text a in
      (λ h. found_here (c ∷ re) text (sym e ∙ h), λ m. e ∙ start_finds (c ∷ re) text a m)
  | inr free ↦
      let e = match_text-free c re text free in
      (λ h. found_later (c ∷ re) text free (sym e ∙ h), λ m. e ∙ loop_finds (c ∷ re) text m)
]
