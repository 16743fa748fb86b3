-- ===== src/Tasks/Execute.antt =====
-- `execute` of student-distrib/syscall.c.
use linux_simulation.Base.{
  ℕ, zero, suc, ◌+◌, ◌-◌, Bool, true, false, ◌&&◌, ◌||◌, Option, none, some, List, [], ◌∷◌, ◌>>=◌,
  ◌==◌, leb, if◌then◌else◌, get_elem?, store, replicate, take, minus_one, u8, codes, ◌++◌,
}
use linux_simulation.CString.{Reader, bytes_of, strcpy}
use linux_simulation.Filesys.{
  Filesys, Dentry, empty_dentry, read_dentry_by_name, read_data, get_dentry_size, inode_index,
}
use linux_simulation.Paging.{map_task}
use linux_simulation.Process.{Pcb, closed_node, opened, stdin_ops, stdout_ops, no_inode}
use linux_simulation.Process.Command.{parse_line}
use linux_simulation.Process.Files.{write_name}
use linux_simulation.Tasks.{
  Kernel, Outcome, returns, enters, max_num_task, pcb_addr, stack_top, slot_at, block_of,
  entry_point,
}

-- `for(i = 0; i < 4; i++) if(check_buf[i] != buffer[i]) return -1;` from `i` on
unfoldable pub same_bytes : List ℕ → List ℕ → ℕ → Option Bool
same_bytes [] buffer i = some true
same_bytes (m ∷ check_buf) buffer i = do
  c ← get_elem? buffer i
  let rest = same_bytes check_buf buffer (i + 1)
  if m == c then rest else some false

abbrev pub check_buf : List ℕ
check_buf = 0x7f ∷ 0x45 ∷ 0x4c ∷ 0x46 ∷ []

-- A program that can be loaded: its inode, its size and its entry point.
pub record Program : Type 0 where
  pub inode : ℕ
  pub size : ℕ
  pub entry : ℕ

-- The file's size, the magic number among the first 30 bytes, and the entry point there. The inner
-- `none` is `return -1`. The source does not initialise its buffer: a byte that was not read is
-- undefined.
unfoldable pub check_magic : Filesys → Dentry → ℕ → List ℕ → Option (Option Program)
check_magic fs dentry inode buffer = do
  size ← get_dentry_size fs dentry
  executable ← same_bytes check_buf buffer 0
  let accepted = entry_point buffer >>= λ entry.
      some (some (record { inode = inode; size = size; entry = entry }))
  if executable then accepted else some none

unfoldable pub check_read : Filesys → Dentry → ℕ → Option (List ℕ) × ℕ → Option (Option Program)
check_read fs dentry inode (buf, retval) =
    let checked = buf >>= λ buffer. check_magic fs dentry inode (take retval buffer) in
    if retval == minus_one || retval == 0 then some none else checked

-- The second part of `execute`, behind the look-up: the first 30 bytes are read and checked.
unfoldable pub check_entry : Filesys → Dentry → Option (Option Program)
check_entry fs dentry = do
  inode ← inode_index dentry
  reading ← read_data fs inode 0 (some (replicate 30 0)) 30
  check_read fs dentry inode reading

unfoldable pub check_found : Filesys × Option Dentry × ℕ → Option (Filesys × Option Program)
check_found (fs, d, r) =
    let found = d >>= λ dentry. check_entry fs dentry >>= λ program. some (fs, program) in
    if r == minus_one then some (fs, none) else found

-- The second part of `execute`: the file is looked up and checked.
unfoldable pub check_file : Filesys → Reader → Option (Filesys × Option Program)
check_file fs first_cmd = do
  found ← read_dentry_by_name fs (some first_cmd) (some empty_dentry)
  check_found found

-- What the search through the bitmap ends with.
pub data Slot : Type 0 where
  free : ℕ → Slot
  all_running : Slot
  not_found : Slot

-- The loop from slot `i` on.
unfoldable pub find_slot : ℕ → List ℕ → ℕ → ℕ → Option Slot
find_slot zero task_bitmap i runn_task_num = some not_found
find_slot (suc left) task_bitmap i runn_task_num = do
  bit ← get_elem? task_bitmap i
  let rest = find_slot left task_bitmap (i + 1) runn_task_num
  if bit == 0
      then some (free i)
      else if i == max_num_task - 1 && runn_task_num == max_num_task
      then some all_running
      else rest

-- The identity of a new process in its control block: no process has the parent -1, and the parent of
-- any other is the process on whose kernel stack `execute` runs.
unfoldable pub set_parent : Kernel → Pcb → ℕ → ℕ → Option Pcb
set_parent k old esp ebp =
    let pos = k.curr_task_pos in
    let known = record old { process_id = pos; parent_esp = esp; parent_ebp = ebp } in
    let child = do
      slot ← slot_at (block_of esp)
      pcbs ← store k.pcbs pos known
      transition ← get_elem? pcbs slot
      some (record known { parent_process_id = transition.process_id; parent_pcb = block_of esp })
    in if pos == 0 && k.runn_task_num == 0
      then some (record known { parent_process_id = minus_one; parent_pcb = 0 })
      else child

-- The rest of the control block: the files, with the terminal's two, and the arguments.
unfoldable pub set_files : Pcb → ℕ → List ℕ → Option Pcb
set_files known pos getargbuf = do
  args ← strcpy (replicate 100 0) (bytes_of getargbuf)
  stdin ← write_name known 0 (bytes_of (codes "stdin" ++ 0 ∷ []))
  stdout ← write_name (record known { file_names = stdin }) 1 (bytes_of (codes "stdout" ++ 0 ∷ []))
  some (record known {
    running_state = 1;
    esp = pcb_addr pos + 0x2000 - 4;
    ebp = pcb_addr pos + 0x2000 - 4;
    file_array = opened stdin_ops no_inode ∷ opened stdout_ops no_inode ∷ replicate 6 closed_node;
    file_names = stdout;
    open_file_num = 2;
    arg_buffer = args;
  })

-- The parts 5 to 8 of `execute`: the control block, the task segment, and the program.
unfoldable pub start : Kernel → Program → List ℕ → ℕ → ℕ → Option (Kernel × Outcome)
start k program getargbuf esp ebp = do
  let pos = k.curr_task_pos
  old ← get_elem? k.pcbs pos
  known ← set_parent k old esp ebp
  pcb ← set_files known pos getargbuf
  pcbs ← store k.pcbs pos pcb
  let ready = record k {
    pcbs = pcbs;
    ss0 = 0x18;
    esp0 = stack_top pos;
    runn_task_num = u8 (k.runn_task_num + 1);
  }
  some (ready, enters program.entry)

-- The parts 3 and 4: the page of the slot, and the program in it.
unfoldable pub load : Kernel → Program → List ℕ → ℕ → ℕ → Option (Kernel × Outcome)
load k program getargbuf esp ebp = do
  dir ← map_task k.paging.page_dir k.curr_task_pos
  image ← get_elem? k.images k.curr_task_pos
  out ← read_data k.fs program.inode 0 (some image) program.size
  image' ← out.0
  images ← store k.images k.curr_task_pos image'
  let loaded = record k { paging = record (k.paging) { page_dir = dir }; images = images }
  let started = start loaded program getargbuf esp ebp
  if out.1 == program.size then started else some (loaded, returns minus_one)

-- The slot is taken; where the search found none, the current one is used.
unfoldable pub take_slot : Kernel → Slot → Program → List ℕ → ℕ → ℕ → Option (Kernel × Outcome)
take_slot k all_running program getargbuf esp ebp = some (k, returns minus_one)
take_slot k not_found program getargbuf esp ebp = load k program getargbuf esp ebp
take_slot k (free i) program getargbuf esp ebp = do
  bitmap ← store k.task_bitmap i 1
  load (record k { task_bitmap = bitmap; curr_task_pos = i }) program getargbuf esp ebp

unfoldable pub execute_program :
    Kernel → Option Program → List ℕ → ℕ → ℕ → Option (Kernel × Outcome)
execute_program k none getargbuf esp ebp = some (k, returns minus_one)
execute_program k (some program) getargbuf esp ebp = do
  slot ← find_slot max_num_task k.task_bitmap 0 k.runn_task_num
  take_slot k slot program getargbuf esp ebp

-- `execute`; a null command is `none`.
unfoldable pub execute : Kernel → Option Reader → ℕ → ℕ → Option (Kernel × Outcome)
execute k none esp ebp = some (k, returns minus_one)
execute k (some command) esp ebp =
    let running = do
      line ← parse_line command
      checked ← check_file k.fs (bytes_of line.0)
      execute_program (record k { fs = checked.0 }) checked.1 line.1 esp ebp
    in if leb max_num_task k.runn_task_num then some (k, returns minus_one) else running
