-- ===== src/Tasks/Steps.antt =====
-- What holds of the tasks of student-distrib/syscall.c after any calls.
use linux_simulation.Base.{
  if◌then◌else◌, take, [], ℕ, zero, suc, ◌^◌, ◌≤◌, ◌<◌, ◌≡◌, ◌≢◌, ◌⊎◌, inl, inr, refl, ap, ◌∙◌,
  true, ◌||◌, Option, some, List, [], ◌∷◌, ◌++◌, codes, ◌==◌, >>=-eq-some, if-eq-some, get_elem?,
  get_or, replicate, length, minus_one, arith,
}
use linux_simulation.CString.{Reader, bytes_of}
use linux_simulation.Filesys.{
  Filesys, Dentry, empty_dentry, read_dentry_by_name, read_data, inode_index,
}
use linux_simulation.Filesys.Keeps.{at_pos, read_dentry_by_name-keeps}
use linux_simulation.Process.{pcb_init}
use linux_simulation.Process.Files.{sys_open, sys_close}
use linux_simulation.Tasks.{Kernel, Outcome, pcb_addr, block_of, entry_point}
use linux_simulation.Tasks.Calls.{on_files}
use linux_simulation.Tasks.Execute.{execute}
use linux_simulation.Tasks.Halt.{restart_shell, restart_found, halt}
use linux_simulation.Tasks.Refinement.{at_pos-Represents}
use linux_simulation.Tasks.Stack.{total, HasFiles, Represents}

-- The first shell is restarted with the tasks as they are.
restart_found-keeps :
    (room : ℕ) (k : Kernel) (s : List ℕ) (found : Filesys × Option Dentry × ℕ) (n : ℕ)
    (out : Kernel × Outcome)
    → Represents room k s
    → found.0 ≡ at_pos k.fs n
    → restart_found k found ≡ some out
    → Represents room out.0 s
unfolding restart_found
restart_found-keeps room k s (fs', d, r) n out h keeps e =
    let moved : Represents room (record k { fs = fs' }) s =
      rw keeps (at_pos-Represents room n k s h) in
    elim (if-eq-some (r == minus_one) e) [
      | inl (missing, e1) ↦ let same : record k { fs = fs' } ≡ out.0 = cc in rw (← same) moved
      | inr (there, e1) ↦
          let (dentry, _, e2) = >>=-eq-some d _ e1 in
          let (inode, _, e3) = >>=-eq-some (inode_index dentry) _ e2 in
          let (reading, _, e4) =
            >>=-eq-some (read_data fs' inode 0 (some (replicate 30 0)) 30) _ e3 in
          let (buffer, _, e5) = >>=-eq-some reading.0 _ e4 in
          let (entry, _, e6) =
            >>=-eq-some (entry_point (if reading.1 == minus_one then [] else take reading.1 buffer))
              _ e5 in
          let same : record k { fs = fs' } ≡ out.0 = cc in rw (← same) moved
    ]

pub halt-restarts :
    (room : ℕ) (k : Kernel) (i status : ℕ) (out : Kernel × Outcome)
    → Represents room k (i ∷ [])
    → halt k status ≡ some out
    → Represents room out.0 (i ∷ [])
unfolding halt restart_shell
halt-restarts room k i status out h e =
    let (pcb, there, e1) = >>=-eq-some (get_elem? k.pcbs k.curr_task_pos) _ e in
    let one = h.running in
    let first : (k.curr_task_pos == 0
          || k.runn_task_num == 1
          || pcb.parent_process_id == minus_one
          || pcb.process_id == 0)
        ≡ true =
      ground arith in
    let e2 = rw first at e1 in
    let (found, finds, e3) =
      >>=-eq-some
        (read_dentry_by_name k.fs (some (bytes_of (codes "shell" ++ 0 ∷ []))) (some empty_dentry)) _
        e2 in
    let (n, keeps) = read_dentry_by_name-keeps k.fs _ empty_dentry found finds in
    restart_found-keeps room k (i ∷ []) found n out h keeps e3

-- A call of the running task: `execute` runs on its kernel stack, where there is one.
pub data Step : Kernel → Kernel → Type 0 where
  executes :
      {k k' : Kernel} (command : Option Reader) (esp ebp : ℕ) (o : Outcome)
      → (k.runn_task_num ≡ 0) ⊎ (block_of esp ≡ pcb_addr k.curr_task_pos)
      → execute k command esp ebp ≡ some (k', o)
      → Step k k'
  halts :
      {k k' : Kernel} (status : ℕ) (o : Outcome)
      → k.runn_task_num ≢ 0
      → halt k status ≡ some (k', o)
      → Step k k'
  opens :
      {k k' : Kernel} (filename : Reader) (r : ℕ)
      → k.runn_task_num ≢ 0
      → on_files k (λ p. sys_open p filename) ≡ some (k', r)
      → Step k k'
  closes :
      {k k' : Kernel} (fd r : ℕ)
      → fd < 2 ^ 32
      → k.runn_task_num ≢ 0
      → on_files k (λ p. sys_close p fd) ≡ some (k', r)
      → Step k k'

-- Any number of calls.
pub data Reach (first : Kernel) : Kernel → Type 0 where
  here : Reach first first
  next : {k k' : Kernel} → Reach first k → Step k k' → Reach first k'

-- The kernel before the first `execute`.
pub record IsBooted (room : ℕ) (k : Kernel) : Type 0 where
  pub bitmap : k.task_bitmap ≡ replicate 6 0
  pub none_running : k.runn_task_num ≡ 0
  pub blocks : k.pcbs ≡ pcb_init
  pub dir_size : length k.paging.page_dir ≡ 1024
  pub image_count : length k.images ≡ 6
  pub rooms : (i : ℕ) → i < 6 → room ≤ length (get_or k.images i [])
  pub files : HasFiles k.fs room

zero_bits : (n i : ℕ) → get_or (replicate {A = ℕ} n 0) i 0 ≡ 0
zero_bits zero i = refl
zero_bits (suc n) zero = refl
zero_bits (suc n) (suc i) = zero_bits n i

pub IsBooted-Represents : (room : ℕ) (k : Kernel) → IsBooted room k → Represents room k []
IsBooted-Represents room k b = record {
  bitmap_size = ap length b.bitmap;
  bits = λ i lt. ap (λ x. get_or x i 0) b.bitmap ∙ zero_bits 6 i;
  counted = ap total b.bitmap;
  running = b.none_running;
  blocks = ap length b.blocks;
  chain = tt;
  current = tt;
  dir_size = b.dir_size;
  image_count = b.image_count;
  rooms = b.rooms;
  files = b.files;
}
