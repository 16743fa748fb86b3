-- ===== src/Tasks/Halt.antt =====
-- `halt` of student-distrib/syscall.c.
use linux_simulation.Base.{
  ℕ, ◌+◌, ◌||◌, Option, some, [], ◌∷◌, ◌>>=◌, ◌==◌, if◌then◌else◌, get_elem?, store, replicate,
  take, minus_one, u8, codes, ◌++◌,
}
use linux_simulation.CString.{bytes_of}
use linux_simulation.Filesys.{
  Filesys, Dentry, empty_dentry, read_dentry_by_name, read_data, inode_index,
}
use linux_simulation.Paging.{map_task}
use linux_simulation.Process.{Pcb, empty_pcb}
use linux_simulation.Tasks.{Kernel, Outcome, returns, enters, resumes, stack_top, entry_point}

-- The first shell is entered again, from its file's entry point. The buffer is not initialised, and the
-- result of the read is not looked at: a byte that was not read is undefined.
unfoldable pub restart_found : Kernel → Filesys × Option Dentry × ℕ → Option (Kernel × Outcome)
restart_found k (fs', d, r) =
    let found = do
      dentry ← d
      inode ← inode_index dentry
      reading ← read_data fs' inode 0 (some (replicate 30 0)) 30
      buffer ← reading.0
      entry ← entry_point (if reading.1 == minus_one then [] else take reading.1 buffer)
      some (record k { fs = fs' }, enters entry)
    in if r == minus_one then some (record k { fs = fs' }, returns minus_one) else found

unfoldable pub restart_shell : Kernel → Option (Kernel × Outcome)
restart_shell k = do
  found ← read_dentry_by_name k.fs (some (bytes_of (codes "shell" ++ 0 ∷ []))) (some empty_dentry)
  restart_found k found

-- What the parent's `execute` returns: the status, where 255 stands for an exception.
abbrev pub halt_status : ℕ → ℕ
halt_status status = if u8 status == 255 then u8 status + 1 else u8 status

-- A task ends: its slot is free again, its control block is cleared, and the parent's page and kernel
-- stack are back.
unfoldable pub end_task : Kernel → Pcb → ℕ → Option (Kernel × Outcome)
end_task k pcb status = do
  bitmap ← store k.task_bitmap k.curr_task_pos 0
  let parent = u8 pcb.parent_process_id
  dir ← map_task k.paging.page_dir parent
  pcbs ← store k.pcbs k.curr_task_pos empty_pcb
  let ended = record k {
    task_bitmap = bitmap;
    curr_task_pos = parent;
    runn_task_num = u8 (k.runn_task_num + 255);
    pcbs = pcbs;
    paging = record (k.paging) { page_dir = dir };
    esp0 = stack_top parent;
  }
  some (ended, resumes pcb.parent_esp pcb.parent_ebp (halt_status status))

unfoldable pub halt : Kernel → ℕ → Option (Kernel × Outcome)
halt k status = do
  pcb ← get_elem? k.pcbs k.curr_task_pos
  let restarted = restart_shell k
  let ended = end_task k pcb status
  if k.curr_task_pos == 0
        || k.runn_task_num == 1
        || pcb.parent_process_id == minus_one
        || pcb.process_id == 0
      then restarted
      else ended
