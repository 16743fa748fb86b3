-- ===== src/Process.antt =====
-- student-distrib/syscall.c and syscall.h: the process control blocks, and the files of a process.
--
-- The state is that of the current process, with the file system. `none` is undefined behaviour: an
-- access outside an array, or a call through a null table.
pub mod Files
pub mod Opening
pub mod Closing
pub mod Calls
pub mod Invariant
pub mod Keeps
pub mod Args
pub mod Command
pub mod Parsing
pub mod CommandLine
mod Tests
use linux_simulation.Base.{
  ℕ, zero, suc, ◌+◌, ◌*◌, Bool, true, false, Option, none, some, List, [], ◌∷◌, ◌>>=◌, get_elem?,
  set, replicate,
}
use linux_simulation.CString.{Reader}
use linux_simulation.Filesys.{Filesys}

-- The jump tables of syscall.c, and NULL.
pub data FopTable : Type 0 where
  no_table stdin_ops stdout_ops rtc_ops dir_ops file_ops : FopTable

-- `inode`: NULL, or the address of the `inode_index` of the `dentry_t` on the stack of `open`.
pub data InodePointer : Type 0 where
  no_inode stack_inode : InodePointer

-- `file_node_t`
pub record FileNode : Type 0 where
  pub fop_table : FopTable
  pub inode : InodePointer
  pub file_pos : ℕ
  pub flags : ℕ

-- `pcb_t`. `file_names` is the array of eight rows of 32 bytes, one behind the other; a `parent_pcb`
-- is the address of a block, or 0.
pub record Pcb : Type 0 where
  pub file_array : List FileNode
  pub file_names : List ℕ
  pub open_file_num : ℕ
  pub arg_buffer : List ℕ
  pub process_id : ℕ
  pub parent_process_id : ℕ
  pub parent_esp : ℕ
  pub parent_ebp : ℕ
  pub running_state : ℕ
  pub esp : ℕ
  pub ebp : ℕ
  pub parent_pcb : ℕ

abbrev pub max_open_file : ℕ
max_open_file = 8

abbrev pub closed_node : FileNode
closed_node = record { fop_table = no_table; inode = no_inode; file_pos = 0; flags = 0 }

abbrev pub opened : FopTable → InodePointer → FileNode
opened table inode = record { fop_table = table; inode = inode; file_pos = 0; flags = 1 }

-- A block that `memset` has cleared.
abbrev pub empty_pcb : Pcb
empty_pcb = record {
  file_array = replicate max_open_file closed_node;
  file_names = replicate 256 0;
  open_file_num = 0;
  arg_buffer = replicate 100 0;
  process_id = 0;
  parent_process_id = 0;
  parent_esp = 0;
  parent_ebp = 0;
  running_state = 0;
  esp = 0;
  ebp = 0;
  parent_pcb = 0;
}

-- The current process and the file system.
pub record Process : Type 0 where
  pub pcb : Pcb
  pub fs : Filesys

-- The row of the names array that belongs to a descriptor, as a string: what lies behind the row is
-- the next row.
abbrev pub file_name : Pcb → ℕ → Reader
file_name pcb fd j = get_elem? pcb.file_names (32 * fd + j)

-- `pcb_init`: the blocks of the six tasks, cleared.
abbrev pub pcb_init : List Pcb
pcb_init = replicate 6 empty_pcb
