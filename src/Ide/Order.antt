-- ===== src/Ide/Order.antt =====
-- The disk serves the requests in the order in which they were made.
use sofinal_project.Prelude.{
  ℕ, ◌≡◌, Bool, false, ◌||◌, Option, none, some, List, [], ◌∷◌, ◌++◌, ◌==◌, if◌then◌else◌,
}
use sofinal_project.Ide.{Buf, Command, Ide, command_of, set_buf, ideintr, iderw}

-- A caller brings its buffer to `iderw` with some content, or the disk interrupts.
pub data Event : Type 0 where
  request : ℕ → Buf → Event
  interrupt : Option (List ℕ) → Event

abbrev pub member : ℕ → List ℕ → Bool
member b [] = false
member b (c ∷ cs) = b == c || member b cs

-- A buffer that waits is locked by its caller, so no other comes with it.
abbrev pub step : Event → Ide → Option Ide
step (request b c) s =
    if member b s.queue then none else iderw b (record s { bufs = set_buf b c s.bufs })
step (interrupt insl) s = ideintr insl s

abbrev pub run : List Event → Ide → Option Ide
run [] s = some s
run (e ∷ es) s = elim (step e s) [ none ↦ none | some s' ↦ run es s' ]

abbrev pub requests : List Event → List (ℕ × Buf)
requests [] = []
requests (request b c ∷ es) = (b, c) ∷ requests es
requests (interrupt insl ∷ es) = requests es

abbrev pub numbers : List (ℕ × Buf) → List ℕ
numbers [] = []
numbers (r ∷ rs) = r.0 ∷ numbers rs

abbrev pub issued : List (ℕ × Buf) → List Command
issued [] = []
issued (r ∷ rs) = command_of r.1 ∷ issued rs

-- The request that the disk is working on.
abbrev pub active : List (ℕ × Buf) → List (ℕ × Buf)
active [] = []
active (r ∷ rs) = r ∷ []

-- The buffers that wait still have the content of their request, and are different.
abbrev pub AreWaiting : (ℕ → Buf) → List (ℕ × Buf) → Type 0
AreWaiting bufs [] = Unit
AreWaiting bufs (r ∷ rs) = (bufs r.0 ≡ r.1) × (member r.0 (numbers rs) ≡ false) × AreWaiting bufs rs

-- `done` are the requests that are finished, `waiting` the others.
pub record IsServing (done waiting : List (ℕ × Buf)) (s : Ide) : Type 0 where
  pub woken : s.woken ≡ numbers done
  pub queue : s.queue ≡ numbers waiting
  pub commands : s.commands ≡ issued done ++ issued (active waiting)
  pub contents : AreWaiting s.bufs waiting

-- What holds if the code does not panic.
abbrev pub Holds : Option Ide → (Ide → Type 0) → Type 0
Holds none P = Unit
Holds (some s) P = P s

module _ (done : List (ℕ × Buf)) (b : ℕ) (c : Buf) (s : Ide) where
  abbrev brought : Ide
  brought = record s { bufs = set_buf b c s.bufs; queue = s.queue ++ b ∷ [] }

-- The first request is finished, and the next one started.
abbrev others : List (ℕ × Buf) → List (ℕ × Buf)
others [] = []
others (r ∷ rs) = rs

-- The requests of the events are those that are finished, in this order, and those that wait.
abbrev pub Served : List (ℕ × Buf) → Ide → Type 0
Served rs s =
    (done : List (ℕ × Buf)) × (waiting : List (ℕ × Buf)) × (rs ≡ done ++ waiting)
    × IsServing done waiting s
