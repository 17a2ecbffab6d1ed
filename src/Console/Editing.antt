-- ===== src/Console/Editing.antt =====
-- The indices of the input buffer keep their order, so no character is overwritten before it is read.
use sofinal_project.Prelude.{
  ℕ, zero, suc, ◌+◌, ◌%◌, ◌^◌, ◌≤◌, ◌<◌, ◌≡◌, ◌≢◌, ◌⊎◌, refl, inl, inr, ◌&&◌, ◌||◌, not, List, [],
  ◌∷◌, arith, ltb, ◌==◌, if◌then◌else◌, update, Bool-cases,
}
use sofinal_project.Console.{
  input_buf, Input, ctrl_d, ctrl_h, newline, carriage_return, ctrl_p, ctrl_u, rubout, minus, erase,
  kill_line, enter, console_char, consoleintr,
}

-- Lines that are complete come first, then the line that is being edited, 128 characters at most.
pub record IsInput (inp : Input) : Type 0 where
  pub start_fits : inp.start < 2 ^ 32
  pub written_fits : inp.written < 2 ^ 32
  pub edit_fits : inp.edit < 2 ^ 32
  pub room : minus inp.edit inp.start ≤ 128
  pub ordered : minus inp.written inp.start ≤ minus inp.edit inp.start

erase-IsInput : (inp : Input) → IsInput inp → inp.edit ≢ inp.written → IsInput (erase inp)
erase-IsInput inp h ne = record {
  start_fits = h.start_fits;
  written_fits = h.written_fits;
  edit_fits = omega arith;
  room = omega (arith, h.room, h.start_fits, h.edit_fits, h.ordered, h.written_fits);
  ordered = omega (arith, h.room, h.start_fits, h.edit_fits, h.ordered, h.written_fits);
}

kill_line-IsInput : (k : ℕ) (inp : Input) → IsInput inp → IsInput (kill_line k inp)
unfolding kill_line
kill_line-IsInput zero inp h = h
kill_line-IsInput (suc k) inp h =
    elim (Bool-cases
      (not (inp.edit == inp.written) && not (inp.buf (minus inp.edit 1 % input_buf) == newline))) [
        | inl more ↦ rw more (kill_line-IsInput k (erase inp) (erase-IsInput inp h (ground arith)))
        | inr stop ↦ rw stop h
      ]

-- A character put behind the others, with the line still open or given to the readers.
advance :
    (w : ℕ) (inp : Input) (buf : ℕ → ℕ)
    → IsInput inp
    → minus inp.edit inp.start < 128
    → (w ≡ inp.written) ⊎ (w ≡ (inp.edit + 1) % 2 ^ 32)
    → IsInput (record { buf = buf; start = inp.start; written = w; edit = (inp.edit + 1) % 2 ^ 32 })
advance w inp buf h lt (inl e) = record {
  start_fits = h.start_fits;
  written_fits = omega (arith, h.written_fits);
  edit_fits = omega arith;
  room = omega (arith, h.start_fits, h.edit_fits);
  ordered = omega (arith, h.start_fits, h.edit_fits, h.written_fits, h.ordered);
}
advance w inp buf h lt (inr e) = record {
  start_fits = h.start_fits;
  written_fits = omega arith;
  edit_fits = omega arith;
  room = omega (arith, h.start_fits, h.edit_fits);
  ordered = omega arith;
}

enter-IsInput : (c : ℕ) (inp : Input) → IsInput inp → IsInput (enter c inp).1
unfolding enter
enter-IsInput c inp h = elim (Bool-cases (not (c == 0) && ltb (minus inp.edit inp.start) 128)) [
  | inr full ↦ rw full h
  | inl room ↦
      let c' : ℕ = if c == carriage_return then newline else c in
      let buf' : ℕ → ℕ = update inp.buf (inp.edit % input_buf) c' in
      let lt : minus inp.edit inp.start < 128 = ground arith in
      elim (Bool-cases (
        c' == newline
        || c' == ctrl_d
        || (inp.edit + 1) % 2 ^ 32 == (inp.start + input_buf) % 2 ^ 32)) [
          | inl complete ↦
              rw (room, complete) (advance ((inp.edit + 1) % 2 ^ 32) inp buf' h lt (inr refl))
          | inr open_line ↦ rw (room, open_line) (advance inp.written inp buf' h lt (inl refl))
        ]
]

console_char-IsInput : (c : ℕ) (inp : Input) → IsInput inp → IsInput (console_char c inp).1
unfolding console_char
console_char-IsInput c inp h = elim (Bool-cases (c == ctrl_p)) [
  | inl dumps ↦ rw dumps h
  | inr next ↦ elim (Bool-cases (c == ctrl_u)) [
    | inl kills ↦ rw (next, kills) (kill_line-IsInput (minus inp.edit inp.written) inp h)
    | inr other ↦ elim (Bool-cases (c == ctrl_h || c == rubout)) [
      | inr plain ↦ rw (next, other, plain) (enter-IsInput c inp h)
      | inl back ↦ elim (Bool-cases (inp.edit == inp.written)) [
        | inl nothing_there ↦ rw (next, other, back, nothing_there) h
        | inr some_there ↦ rw (next, other, back, some_there) (erase-IsInput inp h (ground arith))
      ]
    ]
  ]
]

-- Whatever characters arrive, the indices stay in order, with at most 128 characters between
-- the first one that has not been read and the end of the line that is being edited.
pub consoleintr-IsInput : (cs : List ℕ) (inp : Input) → IsInput inp → IsInput (consoleintr cs inp).1
unfolding consoleintr
consoleintr-IsInput [] inp h = h
consoleintr-IsInput (c ∷ cs) inp h =
    consoleintr-IsInput cs (console_char c inp).1 (console_char-IsInput c inp h)
