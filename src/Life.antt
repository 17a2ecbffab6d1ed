-- ===== src/Life.antt =====
-- proc.c: the life of a process, from `allocproc` and `fork` through `exit` to `wait`.
-- A function takes and returns the part of the kernel's state that it touches. `none` is a panic.
pub mod Kernel
pub mod Fork
pub mod Exit
pub mod Wait
mod Tests
