-- ===== src/Lock/Tests.antt =====
-- A lock taken and given up, and taken by two CPUs.
use sofinal_project.Prelude.{◌≡◌, inl, refl, true, false, none, some}
use sofinal_project.Lock.{
  Cpu, pushcli, Spinlock, acquired, spins, acquire, release, releasesleep, holdingsleep,
}
use sofinal_project.Lock.Balance.{release-acquire}

abbrev cpu : Cpu
cpu = record { id = 1; ncli = 0; intena = false; interrupts = true }

abbrev free : Spinlock
free = record { locked = false; cpu = none }

release-acquire_example :
    (lk' : Spinlock) × (c' : Cpu) × (c'' : Cpu) × (acquire free cpu ≡ some (acquired lk' c'))
    × (c'.interrupts ≡ false)
    × (release lk' c' ≡ some (free, c''))
    × (c''.ncli ≡ cpu.ncli)
    × (c''.interrupts ≡ true)
release-acquire_example = release-acquire free cpu (inl refl) refl

abbrev taken : Spinlock
taken = record { locked = true; cpu = some 0 }

-- The lock of another CPU makes this one spin, its own a panic.
other_spins : acquire taken cpu ≡ some (spins (pushcli cpu))
unfolding acquire
other_spins = refl

own_panics : acquire taken (record cpu { id = 0 }) ≡ none
unfolding acquire
own_panics = refl

not_held_panics : release taken cpu ≡ none
unfolding release
not_held_panics = refl

sleep_lock_round : holdingsleep 7 (releasesleep (record { locked = true; pid = 7 })) ≡ false
unfolding holdingsleep releasesleep
sleep_lock_round = refl
