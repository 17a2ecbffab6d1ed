-- ===== src/Pipe/Fifo.antt =====
-- The stream that passes through a pipe under any sequence of calls.
use sofinal_project.Prelude.{
  length-drop, ℕ, zero, suc, ◌-◌, ◌≤◌, ◌≡◌, refl, sym, ap, ◌∙◌, inl, inr, Bool, ◌&&◌, List, [], ◌∷◌,
  ◌++◌, arith, leb, length, take, drop, Bool-cases, take-append-drop,
}
use mathlib.Core.List.{append-nil, append_assoc}
use sofinal_project.Pipe.{
  Pipe, is_drained, Wrote, finished, refused, sleeping, pipewrite, Read, got, piperead,
}
use sofinal_project.Pipe.Queue.{count, IsPipe, contents, outcome}
use sofinal_project.Pipe.Stream.{stops, pipewrite_lem, piperead-got}

-- Calls on a pipe, in the order in which they take effect.
pub data Op : Type 0 where
  write : (killed : Bool) → List ℕ → Op
  read : (killed : Bool) → ℕ → Op

abbrev left : Wrote → List ℕ
left finished = []
left (refused bs) = bs
left (sleeping bs) = bs

-- The bytes of a write that were accepted.
abbrev pub accepted : List ℕ → Wrote → List ℕ
accepted bs w = take (length bs - length (left w)) bs

abbrev pub received : Read → List ℕ
received (got bs) = bs
received _ = []

-- What a sequence of calls accepted, what it returned, and the pipe after it.
pub record Traffic : Type 0 where
  pub sent : List ℕ
  pub delivered : List ℕ
  pub pipe : Pipe

pub run : List Op → Pipe → Traffic
run [] p = record { sent = []; delivered = []; pipe = p }
run (write killed bs ∷ ops) p =
    let (w, wakes, p') = pipewrite killed bs p in
    let later = run ops p' in record later { sent = accepted bs w ++ later.sent }
run (read killed n ∷ ops) p =
    let (r, wakes, p') = piperead killed n p in
    let later = run ops p' in record later { delivered = received r ++ later.delivered }

take_all : (n m : ℕ) (bs : List ℕ) → length bs ≤ n → length bs ≤ m → take n bs ≡ take m bs
take_all zero zero [] h k = refl
take_all zero (suc m) [] h k = refl
take_all (suc n) zero [] h k = refl
take_all (suc n) (suc m) [] h k = refl
take_all zero m (b ∷ bs) h k = absurd (omega arith)
take_all (suc n) zero (b ∷ bs) h k = absurd (omega arith)
take_all (suc n) (suc m) (b ∷ bs) h k =
    ap (λ l. b ∷ l) (take_all n m bs (omega arith) (omega arith))

accepted-outcome :
    (stop : Bool) (bs : List ℕ) (room : ℕ) → accepted bs (outcome stop bs room) ≡ take room bs
accepted-outcome stop bs room = elim (Bool-cases (leb (length bs) room)) [
  | inl fits ↦ rw fits (take_all (length bs - 0) room bs (omega arith) (ground arith))
  | inr over ↦
      let e : length bs - length (drop room bs) ≡ room = ground (arith, length-drop room bs) in
      rw over (elim (Bool-cases stop) [
        | inl s ↦ rw s (ap (λ n. take n bs) e)
        | inr s ↦ rw s (ap (λ n. take n bs) e)
      ])
]

-- A read returns the front of the queue and leaves the rest.
read-split :
    (killed : Bool) (n : ℕ) (p : Pipe)
    → IsPipe p
    → (contents p ≡ received (piperead killed n p).0 ++ contents (piperead killed n p).2)
      × IsPipe (piperead killed n p).2
unfolding piperead
read-split killed n p ok = elim (Bool-cases (is_drained p && p.writeopen)) [
  | inr ready ↦
      let (bytes, wakes, ok', rest) = piperead-got killed n p ok (ground arith) in
      (
        sym (take-append-drop n (contents p))
            ∙ ap (λ l. l ++ drop n (contents p)) (sym (ap received bytes))
            ∙ ap (λ l. received (piperead killed n p).0 ++ l) (sym rest),
        ok',
      )
  | inl quiet ↦ elim (Bool-cases killed) [
    | inl k ↦ rw (quiet, k) (refl, ok)
    | inr k ↦ rw (quiet, k) (refl, ok)
  ]
]

-- However writes and reads are interleaved, however far each gets: what was in the pipe followed by
-- what was accepted is what was delivered followed by what is still in the pipe. No byte is lost,
-- repeated or overtaken, and the pipe stays well formed.
pub run-fifo :
    (ops : List Op) (p : Pipe)
    → IsPipe p
    → (contents p ++ (run ops p).sent ≡ (run ops p).delivered ++ contents (run ops p).pipe)
      × IsPipe (run ops p).pipe
unfolding run
run-fifo [] p ok = (append-nil (contents p), ok)
run-fifo (write killed bs ∷ ops) p ok =
    let (result, wakes, ok', same) = pipewrite_lem killed bs p ok in
    let p' = (pipewrite killed bs p).2 in
    let (rest, last) = run-fifo ops p' ok' in
    let taken : accepted bs (pipewrite killed bs p).0 ≡ take (512 - count p) bs =
      ap (accepted bs) result ∙ accepted-outcome (stops killed p) bs (512 - count p) in
    (
      ap (λ l. contents p ++ (l ++ (run ops p').sent)) taken
          ∙ sym (append_assoc (contents p) (take (512 - count p) bs) (run ops p').sent)
          ∙ ap (λ l. l ++ (run ops p').sent) (sym same)
          ∙ rest,
      last,
    )
run-fifo (read killed n ∷ ops) p ok =
    let (split, ok') = read-split killed n p ok in
    let p' = (piperead killed n p).2 in
    let front = received (piperead killed n p).0 in
    let (rest, last) = run-fifo ops p' ok' in
    (
      ap (λ l. l ++ (run ops p').sent) split
          ∙ append_assoc front (contents p') (run ops p').sent
          ∙ ap (λ l. front ++ l) rest
          ∙ sym (append_assoc front (run ops p').delivered (contents (run ops p').pipe)),
      last,
    )
