-- ===== src/Console.antt =====
-- The line discipline of console.c: the input buffer between the keyboard interrupt and the readers.
-- Echoing to the screen is left out. Characters are numbers; the indices wrap around at 2 ^ 32.
pub mod Editing
mod Tests
use sofinal_project.Prelude.{
  ℕ, zero, suc, ◌+◌, ◌-◌, ◌%◌, ◌^◌, Bool, true, false, ◌&&◌, ◌||◌, not, List, [], ◌∷◌, ltb, ◌==◌,
  if◌then◌else◌, update,
}

abbrev pub input_buf : ℕ
input_buf = 128

-- `input`: `start` is its field r, the read index, `written` is w, and `edit` is e.
pub record Input : Type 0 where
  pub buf : ℕ → ℕ
  pub start : ℕ
  pub written : ℕ
  pub edit : ℕ

-- C('D'), C('H'), C('P'), C('U'), and the characters of the cases.
abbrev pub ctrl_d : ℕ
ctrl_d = 4

abbrev pub ctrl_h : ℕ
ctrl_h = 8

abbrev pub newline : ℕ
newline = 10

abbrev pub carriage_return : ℕ
carriage_return = 13

abbrev pub ctrl_p : ℕ
ctrl_p = 16

abbrev pub ctrl_u : ℕ
ctrl_u = 21

abbrev pub rubout : ℕ
rubout = 127

-- a - b on the indices
abbrev pub minus : ℕ → ℕ → ℕ
minus a b = (a + 2 ^ 32 - b) % 2 ^ 32

abbrev pub erase : Input → Input
erase inp = record inp { edit = minus inp.edit 1 }

-- The loop of Ctrl-U, for at most `k` characters.
unfoldable pub kill_line : ℕ → Input → Input
kill_line zero inp = inp
kill_line (suc k) inp =
    let more = kill_line k (erase inp) in
    if not (inp.edit == inp.written) && not (inp.buf (minus inp.edit 1 % input_buf) == newline)
    then more
    else inp

-- A character is put at the end, and the line is given to the readers when it is complete. Whether
-- they are woken comes with it.
unfoldable pub enter : ℕ → Input → Bool × Input
enter c inp =
    if not (c == 0) && ltb (minus inp.edit inp.start) input_buf
    then (let c' = if c == carriage_return then newline else c in
        let inp' = record inp {
          buf = update inp.buf (inp.edit % input_buf) c';
          edit = (inp.edit + 1) % 2 ^ 32;
        } in
        if c' == newline || c' == ctrl_d || inp'.edit == (inp'.start + input_buf) % 2 ^ 32
        then (true, record inp' { written = inp'.edit })
        else (false, inp'))
    else (false, inp)

-- One character of `consoleintr`. The buffer holds at most 128 characters, which bounds the loop.
unfoldable pub console_char : ℕ → Input → Bool × Input
unfolding kill_line enter
console_char c inp =
    if c == ctrl_p
    then (false, inp)
    else if c == ctrl_u
    then (false, kill_line (minus inp.edit inp.written) inp)
    else if c == ctrl_h || c == rubout
    then (false, if inp.edit == inp.written then inp else erase inp)
    else enter c inp

-- The loop of `consoleintr` over the characters that `getc` gives, and whether Ctrl-P was among them.
unfoldable pub consoleintr : List ℕ → Input → Bool × Input
unfolding console_char
consoleintr [] inp = (false, inp)
consoleintr (c ∷ cs) inp =
    let (dump, inp') = consoleintr cs (console_char c inp).1 in (c == ctrl_p || dump, inp')

-- What `consoleread` comes to: characters, or a sleep until there are more, after those read so far.
pub data ConsoleRead : Type 0 where
  line : List ℕ → ConsoleRead
  killed : ConsoleRead
  sleeps_after : List ℕ → ConsoleRead

abbrev pub and_then : ℕ → ConsoleRead → ConsoleRead
and_then c (line cs) = line (c ∷ cs)
and_then c killed = killed
and_then c (sleeps_after cs) = sleeps_after (c ∷ cs)

-- The loop with `n` characters to go; `partial` if some have been read before.
unfoldable pub consoleread : Bool → Bool → ℕ → Input → ConsoleRead × Input
consoleread dying partial zero inp = (line [], inp)
consoleread dying partial (suc n) inp =
    let c = inp.buf (inp.start % input_buf) in
    let next = record inp { start = (inp.start + 1) % 2 ^ 32 } in
    let (more, after) = consoleread dying true n next in
    if inp.start == inp.written
    then (if dying then killed else sleeps_after [], inp)
    else if c == ctrl_d
    then (line [], if partial then inp else next)
    else if c == newline
    then (line (c ∷ []), next)
    else (and_then c more, after)
