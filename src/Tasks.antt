-- ===== src/Tasks.antt =====
-- student-distrib/syscall.c: the tasks, with `execute` and `halt`.
--
-- The state is that of the kernel's globals. A task has one of six slots: its control block lies at a
-- fixed address, and its program in a physical page of its own, of which `images` holds the bytes from
-- the load address on. The stack pointer and the frame pointer that `execute` saves are parameters.
-- Neither call returns to its caller when it succeeds, so a result says where the processor goes on.
pub mod Execute
pub mod Halt
pub mod Stack
pub mod Starting
pub mod Slots
pub mod Program
pub mod Ending
pub mod Success
pub mod Steps
pub mod Reachable
pub mod Examples
mod Tests
pub mod Calls
pub mod Refinement
pub mod Pushing
use linux_simulation.Base.{
  ℕ, zero, suc, ◌+◌, ◌-◌, ◌*◌, ◌/◌, ◌%◌, ◌&&◌, Option, none, some, List, [], ◌∷◌, ◌>>=◌, ◌==◌, ltb,
  leb, if◌then◌else◌, get_elem?, bit_and,
}
use linux_simulation.Filesys.{Filesys}
use linux_simulation.Paging.{Paging}
use linux_simulation.Process.{Pcb}

pub record Kernel : Type 0 where
  pub task_bitmap : List ℕ
  pub curr_task_pos : ℕ
  pub runn_task_num : ℕ
  pub pcbs : List Pcb
  pub images : List (List ℕ)
  pub paging : Paging
  -- `tss.ss0` and `tss.esp0`
  pub ss0 : ℕ
  pub esp0 : ℕ
  pub fs : Filesys

-- Where the processor goes on: behind the call, with a result; in a user program, at an address; or
-- behind the call of `execute` whose stack pointer and frame pointer are given, with its result.
pub data Outcome : Type 0 where
  returns : ℕ → Outcome
  enters : ℕ → Outcome
  resumes : ℕ → ℕ → ℕ → Outcome

abbrev pub max_num_task : ℕ
max_num_task = 6

-- `EIGHTMB - EIGHTKB * (pos + 1)`
abbrev pub pcb_addr : ℕ → ℕ
pcb_addr pos = 0x800000 - 0x2000 * (pos + 1)

-- The top of the kernel stack of a slot: `EIGHTMB - EIGHTKB * pos - 4`
abbrev pub stack_top : ℕ → ℕ
stack_top pos = 0x800000 - 0x2000 * pos - 4

-- The slot of a control block at an address.
pub slot_at : ℕ → Option ℕ
slot_at a =
    if leb (pcb_addr (max_num_task - 1)) a && ltb a 0x800000 && a % 0x2000 == 0
    then some ((0x800000 - a) / 0x2000 - 1)
    else none

-- The control block that a kernel stack pointer belongs to: `esp & PROCESSMASK`
abbrev pub block_of : ℕ → ℕ
block_of esp = bit_and esp 0xFFFFE000

-- `buffer[27] << 24 | buffer[26] << 16 | buffer[25] << 8 | buffer[24]`, of bytes
pub entry_point : List ℕ → Option ℕ
entry_point buffer = do
  a ← get_elem? buffer 27
  b ← get_elem? buffer 26
  c ← get_elem? buffer 25
  d ← get_elem? buffer 24
  some (a * 0x1000000 + b * 0x10000 + c * 0x100 + d)
