-- ===== src/Proc/Wakeup.antt =====
-- `sleep` and `wakeup` as changes of the process table.
use sofinal_project.Prelude.{
  ℕ, ◌≡◌, ◌≢◌, ◌⊎◌, refl, inl, inr, true, ◌&&◌, Option, none, some, List, arith, get_elem?,
  get_elem?-map, get_elem?-modify_self, Bool-cases, ◌∙◌,
}
use sofinal_project.Proc.{
  Proc, sleeping, runnable, Chan, entry, address, is_sleeping, same_chan, wake, wakeup1,
  fall_asleep,
}

pub same_chan_refl : (c : Option Chan) → same_chan c c ≡ true
same_chan_refl none = refl
same_chan_refl (some (entry i)) = ground arith
same_chan_refl (some (address a)) = ground arith

pub same_chan→eq : (c d : Option Chan) → same_chan c d ≡ true → c ≡ d
same_chan→eq none none h = refl
same_chan→eq none (some d) h = cc
same_chan→eq (some (entry i)) none h = cc
same_chan→eq (some (address a)) none h = cc
same_chan→eq (some (entry i)) (some (entry j)) h = ground arith
same_chan→eq (some (entry i)) (some (address b)) h = cc
same_chan→eq (some (address a)) (some (entry j)) h = cc
same_chan→eq (some (address a)) (some (address b)) h = ground arith

pub get_elem?-wakeup1 :
    (c : Option Chan) (ps : List Proc) (i : ℕ) (p : Proc)
    → get_elem? ps i ≡ some p
    → get_elem? (wakeup1 c ps) i ≡ some (wake c p)
unfolding wakeup1
get_elem?-wakeup1 c ps i p at = rw (get_elem?-map (wake c) ps i, at) refl

-- `wakeup1` makes exactly the processes that sleep on the channel runnable, and changes nothing
-- else in the table.
pub wakeup1_lem :
    (c : Option Chan) (ps : List Proc) (i : ℕ) (p : Proc)
    → get_elem? ps i ≡ some p
    → (q : Proc) × (get_elem? (wakeup1 c ps) i ≡ some q)
      × ((p.state ≡ sleeping) → (p.chan ≡ c) → q ≡ record p { state = runnable })
      × (((p.state ≢ sleeping) ⊎ (p.chan ≢ c)) → q ≡ p)
wakeup1_lem c ps i p at = (
  wake c p,
  get_elem?-wakeup1 c ps i p at,
  (λ s e. rw (s, e, same_chan_refl c) refl),
  (λ other. elim (Bool-cases (is_sleeping p.state && same_chan p.chan c)) [
    | inl hit ↦ absurd (no_match other hit)
    | inr missed ↦ rw missed refl
  ]),
)
  where
    no_match :
        (p.state ≢ sleeping) ⊎ (p.chan ≢ c) → (is_sleeping p.state && same_chan p.chan c) ≡ true → ⊥
    no_match (inl ne) h = ne (ground arith)
    no_match (inr ne) h = ne (same_chan→eq p.chan c (ground arith))

asleep : (c : Chan) → Proc → Proc
asleep c p = record p { chan = some c; state = sleeping }

-- A process that has gone to sleep is made runnable by a wakeup on its channel, and only by one:
-- a wakeup on another channel leaves it asleep.
pub wakeup1-fall_asleep :
    (ps : List Proc) (i : ℕ) (p : Proc) (c d : Chan)
    → get_elem? ps i ≡ some p
    → (get_elem? (wakeup1 (some c) (fall_asleep i c ps)) i
        ≡ some (record p { chan = some c; state = runnable }))
      × ((c ≢ d)
          → get_elem? (wakeup1 (some d) (fall_asleep i c ps)) i
            ≡ some (record p { chan = some c; state = sleeping }))
unfolding fall_asleep
wakeup1-fall_asleep ps i p c d at =
    let slept : get_elem? (fall_asleep i c ps) i
        ≡ some (record p { chan = some c; state = sleeping }) =
      rw (get_elem?-modify_self ps i _, at) refl in
    (
      get_elem?-wakeup1 (some c) (fall_asleep i c ps) i _ slept ∙ rw (same_chan_refl (some c)) refl,
      λ ne. get_elem?-wakeup1 (some d) (fall_asleep i c ps) i _ slept ∙ stays ne,
    )
  where
    stays :
        c ≢ d
        → ◌≡◌ {A = Option Proc}
            (some (wake (some d) (record p { chan = some c; state = sleeping })))
            (some (record p { chan = some c; state = sleeping }))
    stays ne = elim (Bool-cases (same_chan (some c) (some d))) [
      | inl hit ↦ absurd (ne (ground (arith, same_chan→eq (some c) (some d) hit)))
      | inr missed ↦ rw missed refl
    ]
