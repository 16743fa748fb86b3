-- ===== src/Tasks/Stack.antt =====
-- The abstract view of the tasks of student-distrib/syscall.c: a stack of slots, with the running task
-- on top and the first shell, in slot 0, at the bottom.
use linux_simulation.Base.{
  ℕ, zero, suc, ◌+◌, ◌≤◌, ◌<◌, ◌≡◌, ◌≢◌, ◌∙◌, Bool, true, false, ◌||◌, some, List, [], ◌∷◌, ◌==◌,
  if◌then◌else◌, get_or, get_elem?, set, length, get_elem?-set_ne, minus_one, arith,
}
use linux_simulation.Filesys.{Filesys, inode_length, num_inodes}
use linux_simulation.Filesys.Data.{IsFile}
use linux_simulation.Paging.UserPages.{task_entry}
use linux_simulation.Process.{Pcb}
use linux_simulation.Process.Closing.{IsProcess}
use linux_simulation.Tasks.{Kernel, pcb_addr, stack_top, block_of}

abbrev pub mem : ℕ → List ℕ → Bool
mem i [] = false
mem i (j ∷ s) = (i == j) || mem i s

-- The entry of the bitmap for a slot.
abbrev pub busy : List ℕ → ℕ → ℕ
busy s i = if mem i s then 1 else 0

abbrev pub total : List ℕ → ℕ
total [] = 0
total (b ∷ bits) = b + total bits

-- The control block of a slot names the slot and the parent, and its files are in order.
pub record IsTask (pcbs : List Pcb) (i parent : ℕ) : Type 0 where
  pub pcb : Pcb
  pub block : get_elem? pcbs i ≡ some pcb
  pub id : pcb.process_id ≡ i
  pub child_of : pcb.parent_process_id ≡ parent
  pub running : pcb.running_state ≡ 1
  pub files : (fs : Filesys) → IsProcess (record { pcb = pcb; fs = fs })

-- Each task of the stack is the child of the one below it.
abbrev pub IsChain : List Pcb → List ℕ → Type 0
IsChain pcbs [] = Unit
IsChain pcbs (i ∷ []) = (i ≡ 0) × IsTask pcbs i minus_one
IsChain pcbs (i ∷ j ∷ s) =
    (i < 6) × (i ≢ 0) × (mem i (j ∷ s) ≡ false) × IsTask pcbs i j × IsChain pcbs (j ∷ s)

-- The processor's view is that of the task on top.
abbrev pub IsCurrent : Kernel → List ℕ → Type 0
IsCurrent k [] = Unit
IsCurrent k (i ∷ s) =
    (k.curr_task_pos ≡ i)
    × (k.esp0 ≡ stack_top i)
    × (get_elem? k.paging.page_dir 32 ≡ some (task_entry i))

-- The image has files whose blocks exist and which fit into the memory of a task; the two ways of
-- finding an inode agree.
pub record HasFiles (fs : Filesys) (room : ℕ) : Type 0 where
  pub inodes : fs.fs_inodes ≡ fs.fs_bootblk + 4096
  pub file : (inode : ℕ) → inode < num_inodes fs → IsFile fs inode
  pub fits : (inode : ℕ) → inode < num_inodes fs → inode_length fs inode ≤ room

-- The kernel's tasks are those of a stack.
pub record Represents (room : ℕ) (k : Kernel) (s : List ℕ) : Type 0 where
  pub bitmap_size : length k.task_bitmap ≡ 6
  pub bits : (i : ℕ) → i < 6 → get_or k.task_bitmap i 0 ≡ busy s i
  pub counted : total k.task_bitmap ≡ length s
  pub running : k.runn_task_num ≡ length s
  pub blocks : length k.pcbs ≡ 6
  pub chain : IsChain k.pcbs s
  pub current : IsCurrent k s
  pub dir_size : length k.paging.page_dir ≡ 1024
  pub image_count : length k.images ≡ 6
  pub rooms : (i : ℕ) → i < 6 → room ≤ length (get_or k.images i [])
  pub files : HasFiles k.fs room

-- `execute` runs on the kernel stack of the task on top.
abbrev pub OnStack : List ℕ → ℕ → Type 0
OnStack [] esp = Unit
OnStack (i ∷ s) esp = block_of esp ≡ pcb_addr i

pub total-set :
    (bits : List ℕ) (i v : ℕ)
    → i < length bits
    → total (set bits i v) + get_or bits i 0 ≡ total bits + v
total-set [] i v h = elim h [ ]
total-set (b ∷ bits) zero v h = omega arith
total-set (b ∷ bits) (suc i) v h = omega (arith, total-set bits i v (omega arith))

-- A task that is not in a slot is not disturbed by what is written there.
IsTask-set :
    (pcbs : List Pcb) (i parent j : ℕ) (new : Pcb)
    → i ≢ j
    → IsTask pcbs j parent
    → IsTask (set pcbs i new) j parent
IsTask-set pcbs i parent j new ne t = record {
  pcb = t.pcb;
  block = get_elem?-set_ne pcbs i j new ne ∙ t.block;
  id = t.id;
  child_of = t.child_of;
  running = t.running;
  files = t.files;
}

pub IsChain-set :
    (pcbs : List Pcb) (s : List ℕ) (i : ℕ) (new : Pcb)
    → mem i s ≡ false
    → IsChain pcbs s
    → IsChain (set pcbs i new) s
IsChain-set pcbs [] i new outside c = c
IsChain-set pcbs (j ∷ []) i new outside (j_0, t) =
    let ne : i ≢ j = ground arith in (j_0, IsTask-set pcbs i minus_one j new ne t)
IsChain-set pcbs (j ∷ l ∷ s) i new outside (lt, not_0, other, t, c) =
    let ne : i ≢ j = ground arith in
    let below : mem i (l ∷ s) ≡ false = ground arith in
    (lt, not_0, other, IsTask-set pcbs i l j new ne t, IsChain-set pcbs (l ∷ s) i new below c)

-- The bottom of a stack is slot 0, and every slot is below 6.
pub IsChain-bottom :
    (pcbs : List Pcb) (j : ℕ) (s : List ℕ) → IsChain pcbs (j ∷ s) → mem 0 (j ∷ s) ≡ true
IsChain-bottom pcbs j [] (j_0, t) = ground arith
IsChain-bottom pcbs j (l ∷ s) (lt, not_0, other, t, c) =
    let below = IsChain-bottom pcbs l s c in ground arith

pub IsChain-lt : (pcbs : List Pcb) (j : ℕ) (s : List ℕ) → IsChain pcbs (j ∷ s) → j < 6
IsChain-lt pcbs j [] (j_0, t) = omega arith
IsChain-lt pcbs j (l ∷ s) (lt, not_0, other, t, c) = lt
