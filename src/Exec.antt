-- ===== src/Exec.antt =====
-- exec.c, and `loaduvm` and `copyout` of vm.c. Calls of the file system are actions on Sys; the
-- memory is passed on with each result. Memory is in words (Kalloc); its bytes are the words' digits.
pub mod Memory
pub mod Loading
pub mod Stack
pub mod Program
pub mod Arguments
pub mod Locks
pub mod LargeProgram
mod Tests
