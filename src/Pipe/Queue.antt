-- ===== src/Pipe/Queue.antt =====
-- The pipe as a queue of bytes.
use sofinal_project.Prelude.{
  ℕ, zero, suc, ◌+◌, ◌-◌, ◌%◌, ◌^◌, ◌≤◌, ◌<◌, ◌≡◌, ◌≢◌, refl, ap, ◌∙◌, Bool, true, false, List, [],
  ◌∷◌, ◌++◌, arith, leb, if◌then◌else◌, update, update_self, update_ne, length, take, drop,
}
use sofinal_project.Pipe.{
  Pipe, is_full, is_drained, put_byte, next_byte, skip_byte, Wrote, finished, refused, sleeping,
}

-- The bytes in the ring.
abbrev pub count : Pipe → ℕ
count p = (p.nwrite + 2 ^ 32 - p.nread) % 2 ^ 32

pub record IsPipe (p : Pipe) : Type 0 where
  pub nread_fits : p.nread < 2 ^ 32
  pub nwrite_fits : p.nwrite < 2 ^ 32
  pub room : count p ≤ 512

unfoldable pub queue : (ℕ → ℕ) → ℕ → ℕ → List ℕ
queue bytes zero r = []
queue bytes (suc k) r = bytes (r % 512) ∷ queue bytes k ((r + 1) % 2 ^ 32)

-- What has been written and not yet read, oldest byte first.
unfoldable pub contents : Pipe → List ℕ
unfolding queue
contents p = queue p.bytes (count p) p.nread

length-queue : (bytes : ℕ → ℕ) (k r : ℕ) → length (queue bytes k r) ≡ k
unfolding queue
length-queue bytes zero r = refl
length-queue bytes (suc k) r = ap suc (length-queue bytes k ((r + 1) % 2 ^ 32))

pub length-contents : (p : Pipe) → length (contents p) ≡ count p
unfolding contents
length-contents p = length-queue p.bytes (count p) p.nread

-- A write behind the end of the queue does not change it.
queue-update :
    (bytes : ℕ → ℕ) (k r w b : ℕ)
    → ((j : ℕ) → j < k → (r + j) % 2 ^ 32 % 512 ≢ w % 512)
    → queue (update bytes (w % 512) b) k r ≡ queue bytes k r
unfolding queue
queue-update bytes zero r w b apart = refl
queue-update bytes (suc k) r w b apart =
    rw (update_ne bytes (w % 512) (r % 512) b (λ e. apart 0 (omega arith) (omega arith))) (
      ap (λ l. bytes (r % 512) ∷ l)
        (queue-update bytes k ((r + 1) % 2 ^ 32) w b
          (λ j lt e. apart (j + 1) (omega arith) (omega arith))))

queue-snoc :
    (bytes : ℕ → ℕ) (k r : ℕ)
    → r < 2 ^ 32
    → queue bytes (suc k) r ≡ queue bytes k r ++ bytes ((r + k) % 2 ^ 32 % 512) ∷ []
unfolding queue
queue-snoc bytes zero r fits = ap (λ i. bytes i ∷ []) (omega arith)
queue-snoc bytes (suc k) r fits =
    ap (λ l. bytes (r % 512) ∷ l)
      (queue-snoc bytes k ((r + 1) % 2 ^ 32) (omega arith)
        ∙ ap (λ i. queue bytes k ((r + 1) % 2 ^ 32) ++ bytes i ∷ []) (omega arith))

pub not_full : (p : Pipe) → IsPipe p → is_full p ≡ false → count p < 512
not_full p ok h = ground arith

pub count-put_byte :
    (b : ℕ) (p : Pipe) → IsPipe p → count p < 512 → count (put_byte b p) ≡ suc (count p)
count-put_byte b p ok lt = omega arith

pub put_byte-IsPipe : (b : ℕ) (p : Pipe) → IsPipe p → count p < 512 → IsPipe (put_byte b p)
put_byte-IsPipe b p ok lt = record {
  nread_fits = ok.nread_fits;
  nwrite_fits = omega arith;
  room = omega (arith, count-put_byte b p ok lt);
}

pub contents-put_byte :
    (b : ℕ) (p : Pipe) → IsPipe p → count p < 512 → contents (put_byte b p) ≡ contents p ++ b ∷ []
unfolding contents
contents-put_byte b p ok lt =
    let w : (p.nread + count p) % 2 ^ 32 ≡ p.nwrite = omega arith in
    let new : ℕ → ℕ = update p.bytes (p.nwrite % 512) b in
    ap (λ k. queue new k p.nread) (count-put_byte b p ok lt)
    ∙ queue-snoc new (count p) p.nread ok.nread_fits
    ∙ ap (λ l. l ++ new ((p.nread + count p) % 2 ^ 32 % 512) ∷ [])
        (queue-update p.bytes (count p) p.nread p.nwrite b (λ j j_lt e. absurd (omega arith)))
    ∙ ap (λ c. queue p.bytes (count p) p.nread ++ c ∷ [])
        (ap (λ i. new (i % 512)) w ∙ update_self p.bytes (p.nwrite % 512) b)

pub skip_byte-IsPipe : (p : Pipe) → IsPipe p → is_drained p ≡ false → IsPipe (skip_byte p)
skip_byte-IsPipe p ok h = ground arith

pub contents-skip_byte :
    (p : Pipe) → IsPipe p → is_drained p ≡ false → contents p ≡ next_byte p ∷ contents (skip_byte p)
unfolding contents queue
contents-skip_byte p ok h =
    let e : count p ≡ suc (count (skip_byte p)) = ground arith in
    ap (λ k. queue p.bytes k p.nread) e

pub contents-drained : (p : Pipe) → IsPipe p → is_drained p ≡ true → contents p ≡ []
unfolding contents queue
contents-drained p ok h = let e : count p ≡ 0 = ground arith in ap (λ k. queue p.bytes k p.nread) e

-- The outcome of a write of `n` bytes where there is room for `room`.
abbrev pub outcome : Bool → List ℕ → ℕ → Wrote
outcome stop bs room =
    if leb (length bs) room
    then finished
    else if stop
    then refused (drop room bs)
    else sleeping (drop room bs)

pub take-suc : (n : ℕ) (b : ℕ) (bs : List ℕ) → 0 < n → take n (b ∷ bs) ≡ b ∷ take (n - 1) bs
take-suc zero b bs h = absurd (omega arith)
take-suc (suc n) b bs h = ap (λ k. b ∷ take k bs) (omega arith)

drop-suc : (n : ℕ) (b : ℕ) (bs : List ℕ) → 0 < n → drop n (b ∷ bs) ≡ drop (n - 1) bs
drop-suc zero b bs h = absurd (omega arith)
drop-suc (suc n) b bs h = ap (λ k. drop k bs) (omega arith)

pub outcome-cons :
    (stop : Bool) (b : ℕ) (bs : List ℕ) (n : ℕ)
    → 0 < n
    → outcome stop bs (n - 1) ≡ outcome stop (b ∷ bs) n
outcome-cons stop b bs n pos =
    let e : leb (length bs) (n - 1) ≡ leb (suc (length bs)) n = ground arith in
    rw (e, drop-suc n b bs pos) refl
