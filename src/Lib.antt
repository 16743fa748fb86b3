-- ===== src/Lib.antt =====
-- A verification of the kernel of student-distrib/: a teaching operating system for the x86 with a
-- read-only file system, a text console with three terminals, a keyboard, an interrupt controller, two
-- clocks, and up to six tasks with open files and a page of memory each.
--
-- The parts and their files. A keyboard interrupt (Keyboard) edits the line buffer and shows it on
-- the console (Console); a program that reads the terminal (Terminal) waits until the enter key hands
-- the line over. A program reaches the terminal, the clock (Rtc) and the file system (Filesys) through
-- the descriptors of its process (Process), which the system calls open, close, read and write keep.
-- The drivers unmask their interrupt lines in the controller (Pic). A task is started by execute and
-- ended by halt (Tasks), which change the tables of the processor (Paging); an exception reaches halt
-- through the interrupt table (Idt). A terminal that is entered for the first time boots a shell by
-- execute. The string functions (CString) and the printing of numbers (Number) are used throughout.
--
-- - CString: strlen, strncmp, strcpy and strncpy of student-distrib/lib.c.
-- - Number: itoa and strrev of student-distrib/lib.c, with the value of what itoa writes.
-- - Filesys: student-distrib/filesys.c; the globals are the record Filesys, the image stands in a
--   memory of 2 ^ 32 bytes, and each function is a definition of its name.
-- - Console: putc, puts, printf, backspace, scrolling, reset, clear, update_cursor,
--   keyboard_buffer_reset and the functions of the cursor of student-distrib/lib.c; screen, cursor,
--   line buffer and tracker are the record Console. An argument of printf is a word or a pointer.
-- - Keyboard: student-distrib/keyboard.c; keyboard_buffer_edit is divided by its indicator into
--   add_char, delete_char and enter_line, and get_char into the keys that end it at once, the
--   tracking of the modifier keys and the table look-up. Keyboard.Layout has what stands on the keys. Its handler hands out the terminal that it
--   asks for; Terminal.Keys joins it to terminal_switch.
-- - Terminal: terminal_open, terminal_read, terminal_write and terminal_close of
--   student-distrib/terminal.c. Terminal.Switch: terminal_init, terminal_boot and terminal_switch, with
--   the pages that keep the screens behind that of the screen itself.
-- - Pic: student-distrib/i8259.c. Rtc: student-distrib/rtc.c. Pit: student-distrib/pit.c.
-- - Idt: _idt_set_all and the handlers of the exceptions of student-distrib/idt_init.c.
-- - Paging: init_paging of student-distrib/paging.c, and the writes into the tables by execute, halt and
--   vidmap of student-distrib/syscall.c and by student-distrib/terminal.c. Paging.Walk translates an
--   address as the processor does.
-- - Tasks: execute and halt of student-distrib/syscall.c; the globals, the control blocks and the
--   programs in memory are the record Kernel. Tasks.Stack has the abstract view, a stack of slots, and
--   Tasks.Steps the states that the calls reach.
-- - Process: open, close, read, write, getargs, filesys_read and fs_dir_read of
--   student-distrib/syscall.c, with the process control block of syscall.h.
-- - Process.Command and CommandLine: the parsing of a command line by execute of student-distrib/syscall.c.
-- - Scheduler: get_next_availble_process and scheduling_handler of student-distrib/sche.c.
-- - UserLib: syscalls/ece391support.c, the string functions of the programs, which stand beside the
--   kernel's.
-- - Programs: syscalls/ece391hello.c and ece391shell.c, over a record of the system calls;
--   Programs.Commands has the line of the shell.
-- - Base: machine words, arrays and partial results. Examples: the states that the tests share.
--
-- Words are native numbers with their wrap-around written out; an int32_t is its bit pattern. A result
-- `none` is undefined behaviour: an access outside an array, a call through a null pointer, or a loop
-- that does not end. The loops over strings have 2 ^ 32 rounds, as many as there are addresses; itoa
-- has 32, since a radix is at least 2; strrev has as many as the string has bytes, and the loops with a
-- counter have its bound. Waiting loops take what happens meanwhile as a list: the scan codes that
-- arrive, or the interrupts of the clock.
--
-- The loops over the page tables have their 1024 rounds, that of execute over the bitmap six.
-- execute and halt do not return where they succeed: a result says whether the processor goes on
-- behind the call, in a user program, or behind an earlier call of execute, with the stack pointers
-- that are parameters of that call. The page of a program is a list of the bytes from its load
-- address on, one for each slot.
--
-- Not modelled: the functions in assembly (memset, memcpy and memmove as such, the entry stubs of
-- interrupts and system calls, the switch of stacks behind the return of scheduling_handler); the
-- entry point and the interactive tests of student-distrib/kernel.c, which print what the boot loader
-- passes; the other programs of syscalls/, of which cat, ls and grep stand on the kernel's open and read
-- and the rest are tests and animations; and fish/. The kernel's own system calls are not put in for
-- the record of calls of the shell. A buffer on the stack that the source does not initialise has no
-- content until it is written: reading it is `none`.
pub mod Base
pub mod CString
pub mod Console
pub mod Examples
pub mod Filesys
pub mod Idt
pub mod Keyboard
pub mod Number
pub mod Paging
pub mod Pic
pub mod Pit
pub mod Process
pub mod Programs
pub mod Rtc
pub mod Scheduler
pub mod Tasks
pub mod Terminal
pub mod UserLib
