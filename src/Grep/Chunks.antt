-- ===== src/Grep/Chunks.antt =====
-- `grep` on a file that it reads in pieces.
use mathlib.Core.List.{append_assoc, append-nil}
use sofinal_project.Prelude.{
  ℕ, ◌+◌, ◌≤◌, ◌<◌, ◌≡◌, ◌≢◌, ◌⊎◌, inl, inr, refl, sym, ap, ◌∙◌, Bool, true, false, List, [], ◌∷◌,
  ◌++◌, arith, length, length-append, ◌==◌, if◌then◌else◌, Bool-cases,
}
use sofinal_project.Grep.{match_text, grep_lines, grep_loop}

-- No null byte, and no end of a line.
abbrev pub IsPlain : List ℕ → Type 0
IsPlain [] = Unit
IsPlain (c ∷ s) = ((c == 0) ≡ false) × ((c == 10) ≡ false) × IsPlain s

abbrev pub IsText : List ℕ → Type 0
IsText [] = Unit
IsText (c ∷ s) = ((c == 0) ≡ false) × IsText s

-- A line ends in it.
abbrev pub HasLine : List ℕ → Type 0
HasLine [] = ⊥
HasLine (c ∷ s) = (c ≡ 10) ⊎ HasLine s

IsPlain-end :
    (line : List ℕ) (c : ℕ)
    → IsPlain line
    → (c == 0) ≡ false
    → (c == 10) ≡ false
    → IsPlain (line ++ c ∷ [])
IsPlain-end [] c h z n = (z, n, tt)
IsPlain-end (d ∷ line) c (z', n', h) z n = (z', n', IsPlain-end line c h z n)

-- What is left holds no whole line.
left-IsPlain :
    (pattern line s : List ℕ) → IsPlain line → IsText s → IsPlain (grep_lines pattern line s).1
unfolding grep_lines
left-IsPlain pattern line [] h t = h
left-IsPlain pattern line (c ∷ s) h (z, t) = elim (Bool-cases (c == 10)) [
  | inl n ↦ rw (z, n) (left-IsPlain pattern [] s tt t)
  | inr n ↦ rw (z, n) (left-IsPlain pattern (line ++ c ∷ []) s (IsPlain-end line c h z n) t)
]

-- A plain piece is passed over.
skip_plain :
    (pattern line r q : List ℕ)
    → IsPlain r
    → grep_lines pattern line (r ++ q) ≡ grep_lines pattern (line ++ r) q
unfolding grep_lines
skip_plain pattern line [] q h = ap (λ l. grep_lines pattern l q) (sym (append-nil line))
skip_plain pattern line (c ∷ r) q (z, n, h) =
    rw (z, n)
      (skip_plain pattern (line ++ c ∷ []) r q h
        ∙ ap (λ l. grep_lines pattern l q) (append_assoc line (c ∷ []) r))

written_line :
    (b : Bool) (line out more : List ℕ)
    → (if b then line ++ 10 ∷ (out ++ more) else out ++ more)
      ≡ (if b then line ++ 10 ∷ out else out) ++ more
written_line true line out more = sym (append_assoc line (10 ∷ out) more)
written_line false line out more = refl

-- One text behind another.
grep_lines_append :
    (pattern line s q : List ℕ)
    → IsText s
    → grep_lines pattern line (s ++ q) ≡ (
      (grep_lines pattern line s).0 ++ (grep_lines pattern (grep_lines pattern line s).1 q).0,
      (grep_lines pattern (grep_lines pattern line s).1 q).1,
    )
unfolding grep_lines
grep_lines_append pattern line [] q t = refl
grep_lines_append pattern line (c ∷ s) q (z, t) = elim (Bool-cases (c == 10)) [
  | inl n ↦
      rw (z, n, grep_lines_append pattern [] s q t)
        (ap (λ out. (out, (grep_lines pattern (grep_lines pattern [] s).1 q).1))
          (written_line (match_text pattern line) line (grep_lines pattern [] s).0
            (grep_lines pattern (grep_lines pattern [] s).1 q).0))
  | inr n ↦ rw (z, n) (grep_lines_append pattern (line ++ c ∷ []) s q t)
]

ne→== : (a b : ℕ) → a ≢ b → (a == b) ≡ false
ne→== a b h = ground (arith, h)

not_first : (c : ℕ) (s : List ℕ) → (c == 10) ≡ false → HasLine (c ∷ s) → HasLine s
not_first c s n (inl e) = absurd (ground (arith, n, e))
not_first c s n (inr h) = h

IsText-behind : (buf chunk : List ℕ) → IsPlain buf → IsText chunk → IsText (buf ++ chunk)
IsText-behind [] chunk h t = t
IsText-behind (c ∷ buf) chunk (z, n, h) t = (z, IsText-behind buf chunk h t)

line_behind : (buf chunk : List ℕ) → HasLine chunk → HasLine (buf ++ chunk)
line_behind [] chunk l = l
line_behind (c ∷ buf) chunk l = inr (line_behind buf chunk l)

left-length :
    (pattern line s : List ℕ) → length (grep_lines pattern line s).1 ≤ length line + length s
unfolding grep_lines
left-length pattern line [] = omega arith
left-length pattern line (c ∷ s) = elim (Bool-cases (c == 0)) [
  | inl z ↦ rw z (omega (arith, length-append line (c ∷ s)))
  | inr z ↦ elim (Bool-cases (c == 10)) [
    | inl n ↦ rw (z, n) (omega (arith, left-length pattern [] s))
    | inr n ↦
        rw (z, n)
          (omega (arith, left-length pattern (line ++ c ∷ []) s, length-append line (c ∷ [])))
  ]
]

left_shorter :
    (pattern line s : List ℕ)
    → IsText s
    → HasLine s
    → length (grep_lines pattern line s).1 < length line + length s
unfolding grep_lines
left_shorter pattern line [] t h = elim h [ ]
left_shorter pattern line (c ∷ s) (z, t) h = elim (Bool-cases (c == 10)) [
  | inl n ↦ rw (z, n) (omega (arith, left-length pattern [] s))
  | inr n ↦
      rw (z, n)
        (omega (
          arith,
          left_shorter pattern (line ++ c ∷ []) s t (not_first c s n h),
          length-append line (c ∷ []),
        ))
]

-- Every piece is a text in which a line ends.
abbrev pub ArePieces : List (List ℕ) → Type 0
ArePieces [] = Unit
ArePieces (chunk ∷ chunks) = IsText chunk × HasLine chunk × ArePieces chunks

abbrev pub joined : List (List ℕ) → List ℕ
joined [] = []
joined (chunk ∷ chunks) = chunk ++ joined chunks

grep_loop-from :
    (pattern buf : List ℕ) (chunks : List (List ℕ))
    → IsPlain buf
    → ArePieces chunks
    → grep_loop pattern buf chunks ≡ (grep_lines pattern [] (buf ++ joined chunks)).0
unfolding grep_loop grep_lines
grep_loop-from pattern buf [] h pieces = ap (λ r. r.0) (sym (skip_plain pattern [] buf [] h))
grep_loop-from pattern buf (chunk ∷ chunks) h (t, l, pieces) =
    let s = buf ++ chunk in
    let left = (grep_lines pattern [] s).1 in
    let text : IsText s = IsText-behind buf chunk h t in
    let some_left : (length left == length s) ≡ false =
      ne→== _ _ (λ e. omega (arith, e, left_shorter pattern [] s text (line_behind buf chunk l))) in
    rw some_left (
      ap (λ more. (grep_lines pattern [] s).0 ++ more)
        (grep_loop-from pattern left chunks (left-IsPlain pattern [] s tt text) pieces
          ∙ ap (λ r. r.0)
              (skip_plain pattern [] left (joined chunks) (left-IsPlain pattern [] s tt text)))
      ∙ ap (λ r. r.0) (sym (grep_lines_append pattern [] s (joined chunks) text))
      ∙ ap (λ u. (grep_lines pattern [] u).0) (append_assoc buf chunk (joined chunks)))

-- Reading a file in pieces makes no difference to what `grep` writes, if no piece has a null byte and a
-- line ends in every piece.
pub grep_loop-joined :
    (pattern : List ℕ) (chunks : List (List ℕ))
    → ArePieces chunks
    → grep_loop pattern [] chunks ≡ (grep_lines pattern [] (joined chunks)).0
grep_loop-joined pattern chunks pieces = grep_loop-from pattern [] chunks tt pieces
