-- ===== src/Lock/Balance.antt =====
-- Interrupts come back exactly when the last lock is given up.
use sofinal_project.Prelude.{
  ◌<◌, ◌≡◌, refl, inl, inr, ◌⊎◌, Bool, true, false, ◌&&◌, none, some, arith, ◌==◌, Bool-cases,
  ==_refl,
}
use sofinal_project.Lock.{
  Cpu, pushcli, popcli, Spinlock, is_cpu, holding, acquired, acquire, release,
}

popcli-pushcli : (c : Cpu) → 0 < c.ncli → c.interrupts ≡ false → popcli (pushcli c) ≡ some c
unfolding popcli pushcli
popcli-pushcli c nested off = ground arith

holding-nested :
    (lk : Spinlock) (c : Cpu)
    → 0 < c.ncli
    → c.interrupts ≡ false
    → holding lk c ≡ some (lk.locked && is_cpu c.id lk.cpu, c)
unfolding holding
holding-nested lk c nested off = rw (popcli-pushcli c nested off, holding) refl

pushed : (c : Cpu) → 0 < (pushcli c).ncli
unfolding pushcli
pushed c = omega arith

quiet_after : (c : Cpu) → (pushcli c).interrupts ≡ false
unfolding pushcli
quiet_after c = refl

pop_last : (c : Cpu) → c.ncli ≡ 0 → popcli (pushcli c) ≡ some (record c { intena = c.interrupts })
unfolding popcli pushcli
pop_last c outermost = ground arith

popped :
    (c : Cpu)
    → (c.ncli ≡ 0) ⊎ (c.interrupts ≡ false)
    → (c' : Cpu) × (popcli (pushcli c) ≡ some c')
      × (c'.ncli ≡ c.ncli)
      × (c'.interrupts ≡ c.interrupts)
popped c quiet = elim (Bool-cases (c.ncli == 0)) [
  | inl outermost ↦ (record c { intena = c.interrupts }, pop_last c (ground arith), refl, refl)
  | inr nested ↦ (c, popcli-pushcli c (ground arith) (ground arith), refl, refl)
]

acquires :
    (lk : Spinlock) (c : Cpu) {held : Bool}
    → holding lk (pushcli c) ≡ some (held, pushcli c)
    → held ≡ false
    → lk.locked ≡ false
    → acquire lk c
      ≡ some (acquired (record { locked = true; cpu = some (pushcli c).id }) (pushcli c))
unfolding acquire
acquires lk c h not_held free = rw (h, acquire, not_held, free) refl

releases :
    (lk : Spinlock) (c c' : Cpu) {held : Bool}
    → holding lk c ≡ some (held, c)
    → held ≡ true
    → popcli c ≡ some c'
    → release lk c ≡ some (record { locked = false; cpu = none }, c')
unfolding release
releases lk c c' h is_held pops = rw (h, release, is_held, pops) refl

-- A CPU with interrupts off whenever its count of pushes is not 0, and a lock that nobody holds: the
-- CPU gets the lock with interrupts off, and giving it up again puts the lock, the
-- count and the interrupt flag back as they were.
pub release-acquire :
    (lk : Spinlock) (c : Cpu)
    → (c.ncli ≡ 0) ⊎ (c.interrupts ≡ false)
    → lk.locked ≡ false
    → (lk' : Spinlock) × (c' : Cpu) × (c'' : Cpu) × (acquire lk c ≡ some (acquired lk' c'))
      × (c'.interrupts ≡ false)
      × (release lk' c' ≡ some (record { locked = false; cpu = none }, c''))
      × (c''.ncli ≡ c.ncli)
      × (c''.interrupts ≡ c.interrupts)
release-acquire lk c quiet free =
    let deeper : 0 < (pushcli c).ncli = pushed c in
    let held_before : (lk.locked && is_cpu (pushcli c).id lk.cpu) ≡ false = ground arith in
    let mine : Spinlock = record { locked = true; cpu = some (pushcli c).id } in
    let held_after : (true && is_cpu (pushcli c).id mine.cpu) ≡ true = ==_refl (pushcli c).id in
    let (c'', pops, same_count, same_flag) = popped c quiet in
    (
      mine,
      pushcli c,
      c'',
      acquires lk c (holding-nested lk (pushcli c) deeper (quiet_after c)) held_before free,
      quiet_after c,
      releases mine (pushcli c) c'' (holding-nested mine (pushcli c) deeper (quiet_after c))
          held_after pops,
      same_count,
      same_flag,
    )
