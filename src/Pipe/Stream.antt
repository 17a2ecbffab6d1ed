-- ===== src/Pipe/Stream.antt =====
-- `pipewrite` and `piperead` as operations on the queue, and the stream that passes through.
use sofinal_project.Prelude.{
  ℕ, zero, suc, ◌-◌, ◌<◌, ◌≡◌, ◌⊎◌, refl, sym, ap, ◌∙◌, inl, inr, Bool, true, false, ◌&&◌, ◌||◌,
  not, List, [], ◌∷◌, ◌++◌, arith, if◌then◌else◌, take, drop, Bool-cases, take-nil,
}
use mathlib.Core.List.{append-nil, append_assoc}
use sofinal_project.Pipe.{
  Pipe, is_full, is_drained, put_byte, next_byte, skip_byte, write_loop, write_wakes, pipewrite,
  got, interrupted, waiting, read_loop, piperead, on_write,
}
use sofinal_project.Pipe.Queue.{
  count, IsPipe, contents, not_full, put_byte-IsPipe, contents-put_byte, count-put_byte,
  skip_byte-IsPipe, contents-skip_byte, contents-drained, outcome, take-suc, outcome-cons,
}

abbrev pub stops : Bool → Pipe → Bool
stops killed p = not p.readopen || killed

-- The loops of `pipewrite` append as many bytes as there is room for, keep the pipe well formed and
-- leave the reading end alone; they finish exactly if all bytes fit.
pub write_loop_lem :
    (killed : Bool) (bs : List ℕ) (p : Pipe)
    → IsPipe p
    → ((write_loop killed bs p).0 ≡ outcome (stops killed p) bs (512 - count p))
      × IsPipe (write_loop killed bs p).1
      × (contents (write_loop killed bs p).1 ≡ contents p ++ take (512 - count p) bs)
      × ((write_loop killed bs p).1.readopen ≡ p.readopen)
      × ((write_loop killed bs p).1.writeopen ≡ p.writeopen)
unfolding write_loop
write_loop_lem killed [] p ok =
    (ground arith, ok, sym (rw (take-nil (512 - count p)) (append-nil (contents p))), refl, refl)
write_loop_lem killed (b ∷ bs) p ok = elim (Bool-cases (is_full p)) [
  | inl full ↦
      let none_left : 512 - count p ≡ 0 = ground arith in
      rw (full, none_left)
        (elim (Bool-cases (stops killed p)) [
          | inl stop ↦ rw stop (ground arith, ok, sym (append-nil (contents p)), refl, refl)
          | inr go ↦ rw go (ground arith, ok, sym (append-nil (contents p)), refl, refl)
        ])
  | inr room ↦
      let lt = not_full p ok room in
      let (result, ok', same, reads, writes) =
        write_loop_lem killed bs (put_byte b p) (put_byte-IsPipe b p ok lt) in
      let less : 512 - count (put_byte b p) ≡ 512 - count p - 1 =
        omega (arith, count-put_byte b p ok lt) in
      let pos : 0 < 512 - count p = omega arith in
      rw room (
        result
            ∙ ap (outcome (stops killed p) bs) less
            ∙ outcome-cons (stops killed p) b bs (512 - count p) pos,
        ok',
        same
            ∙ ap (λ l. l ++ take (512 - count (put_byte b p)) bs) (contents-put_byte b p ok lt)
            ∙ append_assoc (contents p) (b ∷ []) (take (512 - count (put_byte b p)) bs)
            ∙ ap (λ l. contents p ++ l)
                (ap (λ n. b ∷ take n bs) less ∙ sym (take-suc (512 - count p) b bs pos)),
        reads,
        writes,
      )
]

-- The loop of `piperead` removes the oldest bytes, at most as many as asked for, and returns them in
-- order.
pub read_loop_lem :
    (n : ℕ) (p : Pipe)
    → IsPipe p
    → ((read_loop n p).0 ≡ take n (contents p))
      × (contents (read_loop n p).1 ≡ drop n (contents p))
      × IsPipe (read_loop n p).1
      × ((read_loop n p).1.readopen ≡ p.readopen)
      × ((read_loop n p).1.writeopen ≡ p.writeopen)
unfolding read_loop
read_loop_lem zero p ok = (refl, refl, ok, refl, refl)
read_loop_lem (suc n) p ok = elim (Bool-cases (is_drained p)) [
  | inl drained ↦
      let e : contents p ≡ [] = contents-drained p ok drained in
      rw drained (rw e (refl, refl, ok, refl, refl))
  | inr some_left ↦
      let e = contents-skip_byte p ok some_left in
      let (bytes, rest, ok', reads, writes) =
        read_loop_lem n (skip_byte p) (skip_byte-IsPipe p ok some_left) in
      rw some_left (
        ap (λ l. next_byte p ∷ l) bytes ∙ sym (ap (take (suc n)) e),
        rest ∙ sym (ap (drop (suc n)) e),
        ok',
        reads,
        writes,
      )
]

-- A call of `pipewrite` appends to the queue the longest front part of its bytes that there is room
-- for. It finishes exactly if they all fit; otherwise it gives up if the reading end is closed or the
-- caller has been killed, and else sleeps with the rest. It wakes readers unless it gives up.
pub pipewrite_lem :
    (killed : Bool) (bs : List ℕ) (p : Pipe)
    → IsPipe p
    → ((pipewrite killed bs p).0 ≡ outcome (stops killed p) bs (512 - count p))
      × ((pipewrite killed bs p).1 ≡ write_wakes (outcome (stops killed p) bs (512 - count p)))
      × IsPipe (pipewrite killed bs p).2
      × (contents (pipewrite killed bs p).2 ≡ contents p ++ take (512 - count p) bs)
unfolding pipewrite
pipewrite_lem killed bs p ok =
    let (result, ok', same, reads, writes) = write_loop_lem killed bs p ok in
    (result, ap write_wakes result, ok', same)

-- A call of `piperead` that finds bytes, or finds none and the writing end closed, returns the oldest
-- ones in order, at most `n`, takes just those out of the queue and wakes writers.
pub piperead-got :
    (killed : Bool) (n : ℕ) (p : Pipe)
    → IsPipe p
    → (is_drained p ≡ false) ⊎ (p.writeopen ≡ false)
    → ((piperead killed n p).0 ≡ got (take n (contents p)))
      × ((piperead killed n p).1 ≡ on_write ∷ [])
      × IsPipe (piperead killed n p).2
      × (contents (piperead killed n p).2 ≡ drop n (contents p))
unfolding piperead
piperead-got killed n p ok ready =
    let go : (is_drained p && p.writeopen) ≡ false = ground arith in
    let (bytes, rest, ok', reads, writes) = read_loop_lem n p ok in
    rw go (ap got bytes, refl, ok', rest)

-- On an empty pipe whose writing end is open `piperead` changes nothing: it returns -1 if the caller
-- has been killed, and waits otherwise.
pub piperead-empty :
    (killed : Bool) (n : ℕ) (p : Pipe)
    → contents p ≡ []
    → IsPipe p
    → p.writeopen ≡ true
    → piperead killed n p ≡ ((if killed then interrupted else waiting), [], p)
unfolding piperead
piperead-empty killed n p empty ok opened = elim (Bool-cases (is_drained p)) [
  | inl drained ↦ elim (Bool-cases killed) [
    | inl k ↦ rw (drained, opened, k) refl
    | inr k ↦ rw (drained, opened, k) refl
  ]
  | inr bytes ↦ absurd (ground (arith, contents-skip_byte p ok bytes))
]
