-- ===== src/Ide/Tests.antt =====
-- A write and two reads, with two interrupts.
use sofinal_project.Prelude.{ℕ, ◌≡◌, refl, true, false, Option, none, some, List, [], ◌∷◌}
use sofinal_project.Ide.{Buf, Ide, idestart, ideintr, iderw}
use sofinal_project.Ide.Order.{Event, request, interrupt, run}

abbrev content : ℕ → Buf
content n = record { valid = false; dirty = false; dev = 1; blockno = n; bytes = []; locked = true }

abbrev idle : Ide
idle = record { bufs = λ b. content 0; queue = []; commands = []; woken = []; havedisk1 = true }

abbrev events : List Event
events =
    request 4 (record (content 300) { valid = true; dirty = true; bytes = 7 ∷ [] })
    ∷ request 2 (content 5)
    ∷ interrupt none
    ∷ request 4 (content 6)
    ∷ interrupt (some (8 ∷ 9 ∷ []))
    ∷ []

abbrev state_of : Option Ide → Ide
state_of none = idle
state_of (some s) = s

abbrev end_state : Ide
end_state = state_of (run events idle)

read_data :
    ((end_state.bufs 2).bytes ≡ 8 ∷ 9 ∷ [])
    × (end_state.queue ≡ 4 ∷ [])
    × (end_state.woken ≡ 4 ∷ 2 ∷ [])
unfolding iderw ideintr idestart
read_data = (refl, refl, refl)

too_far : run (request 1 (content 1000) ∷ []) idle ≡ none
unfolding iderw idestart
too_far = refl
