-- ===== src/Sys/NameRounds.antt =====
-- The rounds of the loop of `namex`: each takes at least one character of the path.
use mathlib.Core.Path.{subst}
use sofinal_project.Prelude.{
  ℕ, zero, suc, ◌≤◌, ◌<◌, ◌≡◌, refl, ap, inl, inr, fun_ext, arith, Bool, true, ◌&&◌, not, Option,
  none, some, List, [], ◌∷◌, ◌==◌, length, Bool-cases, Option-cases,
}
use sofinal_project.Path.{slash, skip_slashes, split_elem, first_elem, skipelem}
use sofinal_project.Path.Elements.{skip_slashes-shorter}
use sofinal_project.Fs.Dirs.{t_dir}
use sofinal_project.Sys.{
  M, pure, ◌>>=◌, ◌>>◌, maybe, when, from_inode, ilock_at, iunlock_at, iunlockput_at,
}
use sofinal_project.Sys.Names.{Found, give_up, is_nil, dirlookup_at, namex_loop}

split_elem-shorter : (s : List ℕ) → length (split_elem s).1 ≤ length s
unfolding split_elem
split_elem-shorter [] = omega arith
split_elem-shorter (c ∷ s) = elim (Bool-cases (c == slash)) [
  | inl here ↦ rw here (omega arith)
  | inr further ↦ rw further (omega (arith, split_elem-shorter s))
]

skip_slashes-slash :
    (c : ℕ) (s : List ℕ) → (c == slash) ≡ true → skip_slashes (c ∷ s) ≡ skip_slashes s
unfolding skip_slashes
skip_slashes-slash c s h = rw h refl

after-shorter : (c : ℕ) (s : List ℕ) → length (skip_slashes (split_elem (c ∷ s)).1) ≤ length s
unfolding split_elem skip_slashes
after-shorter c s = elim (Bool-cases (c == slash)) [
  | inl here ↦ rw here (rw (skip_slashes-slash c s here) (skip_slashes-shorter s))
  | inr further ↦
      rw further (omega (arith, skip_slashes-shorter (split_elem s).1, split_elem-shorter s))
]

-- What is left of the path, if there is an element.
abbrev left_over : List ℕ → Option (List ℕ × List ℕ) → ℕ
left_over path none = length path
left_over path (some (rest, name)) = suc (length rest)

first_elem-left_over :
    (start name path : List ℕ)
    → length start ≤ length path
    → left_over path (first_elem start name) ≤ length path
first_elem-left_over [] name path h = omega arith
first_elem-left_over (c ∷ start) name path h = omega (arith, h, after-shorter c start)

skipelem-left_over : (path name : List ℕ) → left_over path (skipelem path name) ≤ length path
unfolding skipelem
skipelem-left_over path name =
    first_elem-left_over (skip_slashes path) name path (skip_slashes-shorter path)

-- A round behind `skipelem`, with what follows it.
abbrev round : Bool → ℕ → List ℕ × List ℕ → (ℕ → M Found) → M Found
round parent i elem rest = do
  ilock_at i
  type ← from_inode i (λ ip. ip.type)
  when (not (type == t_dir)) (give_up i) (
      when (parent && is_nil elem.0) (do iunlock_at i; pure (some (i, elem.1)))
        (do
          found ← dirlookup_at i elem.1
          maybe found (give_up i) (λ next. do iunlockput_at i; rest next.0)))

-- Any two bounds on the rounds of the loop of `namex` that are above the length of the path, such as the one that `namex`
-- takes, give the same result: the loop ends by itself.
pub namex_loop-enough :
    (f g : ℕ) (parent : Bool) (path name : List ℕ) (i : ℕ)
    → length path < f
    → length path < g
    → namex_loop f parent path name i ≡ namex_loop g parent path name i
unfolding namex_loop
namex_loop-enough zero g parent path name i h k = absurd (omega (arith, h))
namex_loop-enough (suc f) zero parent path name i h k = absurd (omega (arith, k))
namex_loop-enough (suc f) (suc g) parent path name i h k =
    elim (Option-cases (skipelem path name)) [
      | inl no_more ↦ rw no_more refl
      | inr (elem, more) ↦
          let left : suc (length elem.0) ≤ length path =
            subst (λ o. left_over path o ≤ length path) more (skipelem-left_over path name) in
          rw more (
            ap (round parent i elem) (
              fun_ext (λ j.
                namex_loop-enough f g parent elem.0 elem.1 j (omega (arith, h, left))
                  (omega (arith, k, left)))))
    ]
