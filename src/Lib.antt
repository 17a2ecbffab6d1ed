-- ===== src/Lib.antt =====
-- The xv6 kernel for x86 with a priority scheduler: the parts of it that keep the kernel's own state,
-- as functions on that state, and the theorems that make them correct.
--
-- The parts and the files that model them:
--
-- Kalloc: kalloc.c, with PGROUNDUP of mmu.h and the addresses of memlayout.h. The free list lies in the
-- free pages themselves, so the allocator's state is a memory of words and a list head. kfree, kalloc,
-- freerange, kinit1 and kinit2 are functions of the same names.
-- File: the open file table of file.c. filealloc, filedup and fileclose, with the effect that fileclose
-- leaves to its caller (closing a pipe, dropping an inode) as a value.
-- Inode: the inode cache of fs.c: iget, idup, stati.
-- CString: string.c, over buffers as lists of bytes, and memmove over a memory, where buffers may
-- overlap.
-- Log: log.c over bread and bwrite of bio.c. The disk is a function from block numbers to blocks, and a
-- block one from indices of words to words. `power` counts the writes that the disk still carries out
-- before the machine stops, and `reboot` starts it again with empty buffers. `begin_op`, `log_write`
-- and `end_op` are the system calls' side; `initlog` is recovery.
-- Pipe: pipe.c. nread and nwrite wrap around at 2 ^ 32. A call that would sleep ends with what it has
-- done so far; the call that goes on with the rest is another one. pipealloc uses Kalloc and File.
-- Proc: the process table of proc.c: sleep, wakeup1, kill, yield, and sys_kill and sys_setpriority of
-- sysproc.c.
-- Sched: the loop body of scheduler: aging, the choice of a process, the switch to it. `busy_round`
-- adds that the process runs until the timer makes it yield.
-- Life: allocproc, fork, exit and wait, over a kernel state that holds the process table, the next pid,
-- the allocator, the file table and the inode cache. copyuvm and freevm of vm.c are parameters there.
-- Vm: vm.c, the page fault handler of trap.c, growproc of proc.c and sys_sbrk of sysproc.c. Directories
-- and tables lie in the memory of words of Kalloc's state, so a walk can use up a free page. `end` is
-- the end of the kernel, and kdata the place where its data starts.
-- Syscall: the argument checks of syscall.c, for a process of `sz` bytes.
-- Lock: spinlock.c as one CPU sees it, with the nesting of pushcli, and sleeplock.c.
-- Bcache: the list of buffers of bio.c: binit, bget, brelse.
-- Console: the input buffer of console.c: consoleintr and consoleread.
-- Path: namecmp and skipelem of fs.c.
-- Fs: the data path of fs.c over the contents of the blocks: balloc, bfree, ilock, iupdate, ialloc, bmap,
-- itrunc, iput (Fs/Inodes), readi and writei (Fs/Data), dirlookup and dirlink (Fs/Dirs). What a device's
-- driver returns is an argument of readi and writei. Fs/Files: filestat, fileread and filewrite of file.c.
-- Shell: the command parser of sh.c, over the characters that are left of the line.
-- Fd: argfd and fdalloc of sysfile.c.
-- Ulib: the string functions of ulib.c that string.c does not have.
-- Grep: the matcher of grep.c, and its loop over the pieces that its reads return.
-- Printf: printf.c of the user programs, as the bytes that it writes.
-- Sys: the calls of sysfile.c, with namex and the locking of fs.c, over the inode cache, the disk, the open files and
-- the descriptors of the process that makes the calls. The state has the sleep locks that the process holds and
-- its operations in the log; a call returns, panics, or is stuck on a lock of its own. Sys/Names: namex;
-- Sys/Calls: link and unlink; Sys/Creation: create, open, mkdir, mknod, chdir; Sys/Descriptors: dup, close, read,
-- write, fstat, pipe. Sys/Locks has the rules for what an action does to the locks and operations.
-- Exec: exec.c with loaduvm and copyout of vm.c, and sys_exec. Exec/Loading: headers and segments; Exec/Stack: the
-- arguments on the user stack; Exec/Program: exec as a whole, over Sys and Vm.
-- Ide: the queue of requests of ide.c. The commands to the controller and the wakeups are collected in the state.
-- Mkfs: mkfs.c, which builds the disk of Fs.
-- Prelude: what these share: tests on numbers, lists that are indexed and updated, updates of a memory,
-- and the search for the first entry that passes a test.
--
-- A function that can panic returns `none` where it does, or `panic` in Sys. Locks other than the sleep locks in Sys
-- are left out, as each function is one
-- critical section of its table or is modelled up to the point where it sleeps; Lock models them alone. Numbers of the machine
-- are natural numbers, with their wrap-around written out where the code can reach it: pids and link counts
-- are the bits of the code's int and short. Loops over a table
-- are structural recursion on the list of its entries, and loops with a counter on the number of
-- rounds left. Other loops have a bound on their rounds: the loops over the pages or blocks of a range
-- that of the range; the functions of the parser four times the length of the line, as each
-- character is passed by at most four nested calls; readi, writei and iappend one round for each block and two more;
-- namex one round for each character of the path and one more, since each round takes a character at least.
--
-- Not modelled: the registers of the memory unit (seginit, switchuvm, switchkvm) and inituvm, system call dispatch,
-- interleavings of processes inside the file system calls, output to the screen, the drivers of the
-- console, the serial line and the keyboard, the disk's port input, start-up code, the shell's runcmd,
-- umalloc.c and the other user programs.
pub mod Prelude
pub mod Kalloc
pub mod File
pub mod Inode
pub mod CString
pub mod Log
pub mod Pipe
pub mod Proc
pub mod Sched
pub mod Life
pub mod Syscall
pub mod Lock
pub mod Bcache
pub mod Console
pub mod Path
pub mod Fd
pub mod Ulib
pub mod Vm
pub mod Shell
pub mod Fs
pub mod Grep
pub mod Printf
pub mod Sys
pub mod Mkfs
pub mod Exec
pub mod Ide
