-- ===== src/Tasks/Refinement.antt =====
-- `execute` and `halt` of student-distrib/syscall.c as operations on a stack of slots.
use linux_simulation.Base.{
  ℕ, zero, suc, ◌+◌, ◌*◌, ◌≤◌, ◌<◌, ◌≡◌, ◌≢◌, ◌⊎◌, inl, inr, refl, sym, ap, ap₂, ◌∙◌, Bool, true,
  false, ◌||◌, Bool-cases, Option, none, some, List, [], ◌∷◌, ◌==◌, leb, if◌then◌else◌, >>=-eq-some,
  if-eq-some, get_or, get_elem?, set, store, store_lem, length, length-set, get_elem?-eq-get_or,
  minus_one, u8, arith,
}
use linux_simulation.CString.{Reader, bytes_of}
use linux_simulation.Filesys.{read_data}
use linux_simulation.Filesys.Keeps.{at_pos}
use linux_simulation.Paging.UserPages.{map_task_lem}
use linux_simulation.Process.{Pcb, empty_pcb}
use linux_simulation.Process.Command.{parse_line}
use linux_simulation.Tasks.{Kernel, Outcome, returns, enters, resumes}
use linux_simulation.Tasks.Execute.{
  Program, free, check_file, set_files, start, load, take_slot, execute_program, execute,
}
use linux_simulation.Tasks.Ending.{halt-pops}
use linux_simulation.Tasks.Halt.{halt, halt_status}
use linux_simulation.Tasks.Program.{
  IsProgram, check_file-IsChecked, HasFiles-at_pos, read_data-whole,
}
use linux_simulation.Tasks.Pushing.{IsNewTask, Pushes, loaded, started, started-Represents}
use linux_simulation.Tasks.Slots.{IsFirstFree, find_slot-IsFirstFree}
use linux_simulation.Tasks.Stack.{IsChain, IsCurrent, Represents, OnStack}
use linux_simulation.Tasks.Starting.{
  set_files-IsReady, set_parent-IsIdentified, parent_in, new_files-IsProcess,
}

-- The load, with the whole program read.
pub load_lem :
    (k : Kernel) (i : ℕ) (image out : List ℕ) (program : Program) (args : List ℕ) (esp ebp : ℕ)
    → i < 6
    → length k.task_bitmap ≡ 6
    → length k.images ≡ 6
    → length k.paging.page_dir ≡ 1024
    → get_elem? k.images i ≡ some image
    → read_data k.fs program.inode 0 (some image) program.size ≡ some (some out, program.size)
    → take_slot k (free i) program args esp ebp ≡ start (loaded k i out) program args esp ebp
unfolding take_slot load
load_lem k i image out program args esp ebp lt bits images dir at_i reads =
    let all_read : (program.size == program.size) ≡ true = ground arith in
    rw (store_lem k.task_bitmap i 1 (omega arith)) (
      rw (map_task_lem k.paging.page_dir i dir lt)
        (rw at_i (rw reads (rw (store_lem k.images i out (omega arith)) (rw all_read refl)))))

-- A start that succeeds writes a new control block.
start-started :
    (k : Kernel) (s : List ℕ) (i : ℕ) (image : List ℕ) (program : Program) (args : List ℕ)
    (esp ebp : ℕ) (out : Kernel × Outcome)
    → IsFirstFree s i
    → OnStack s esp
    → IsChain k.pcbs s
    → k.runn_task_num ≡ length s
    → length k.pcbs ≡ 6
    → start (loaded k i image) program args esp ebp ≡ some out
    → (pcb : Pcb) × (out ≡ (started k i image pcb, enters program.entry))
      × IsNewTask pcb i (parent_in s) esp ebp
unfolding start
start-started k s i image program args esp ebp out first on_stack chain running blocks e =
    let lt = first.in_range in
    let old = get_or k.pcbs i empty_pcb in
    let there = get_elem?-eq-get_or k.pcbs i empty_pcb (omega arith) in
    let (known, identifies, d) =
      set_parent-IsIdentified (loaded k i image) s old esp ebp chain running blocks first
        on_stack in
    let e0 = rw (there, identifies) at e in
    let (pcb, completes, e1) = >>=-eq-some (set_files known i args) _ e0 in
    let r = set_files-IsReady known pcb i args completes in
    let e2 = rw (store_lem k.pcbs i pcb (omega arith)) at e1 in
    (
      pcb,
      cc,
      record {
        id = r.id ∙ d.id;
        child_of = r.parent ∙ d.child_of;
        running = r.running;
        back_esp = r.esp ∙ d.esp_kept;
        back_ebp = r.ebp ∙ d.ebp_kept;
        ordered = λ fs. new_files-IsProcess (record { pcb = pcb; fs = fs }) r.files r.count;
      },
    )

execute_program-Pushes :
    (room : ℕ) (k : Kernel) (s : List ℕ) (program : Program) (args : List ℕ) (esp ebp : ℕ)
    (out : Kernel × Outcome)
    → Represents room k s
    → k.runn_task_num < 6
    → OnStack s esp
    → IsProgram k.fs program
    → execute_program k (some program) args esp ebp ≡ some out
    → Pushes room s esp ebp out.0 out.1
unfolding execute_program
execute_program-Pushes room k s program args esp ebp out h few on_stack p e =
    let (i, finds, first) =
      find_slot-IsFirstFree k.task_bitmap s k.runn_task_num h.bitmap_size h.bits
        (h.counted ∙ sym h.running) few in
    let e0 = rw finds at e in
    let lt = first.in_range in
    let count = h.image_count in
    let image = get_or k.images i [] in
    let there = get_elem?-eq-get_or k.images i [] (omega arith) in
    let (whole, reads, f) = read_data-whole k.fs room program image h.files p (h.rooms i lt) in
    let loads =
      load_lem k i image whole program args esp ebp lt h.bitmap_size h.image_count h.dir_size there
        reads in
    let (pcb, is, new) =
      start-started k s i whole program args esp ebp out first on_stack h.chain h.running h.blocks
        (sym loads ∙ e0) in
    let enough : room ≤ length whole =
      (let same = f.same_length in let r = h.rooms i lt in omega arith) in
    let state : out.0 ≡ started k i whole pcb = ap (λ o. o.0) is in
    let blocks = h.blocks in
    record {
      slot = i;
      first = first;
      entry = program.entry;
      outcome = ap (λ o. o.1) is;
      pcb = pcb;
      block = rw state (linux_simulation.Base.get_elem?-set_self k.pcbs i pcb (omega arith));
      new = new;
      stack = rw state (started-Represents room k s i whole pcb esp ebp h few first new enough);
    }

IsCurrent-at_pos :
    (n : ℕ) (k : Kernel) (s : List ℕ)
    → IsCurrent k s
    → IsCurrent (record k { fs = at_pos k.fs n }) s
IsCurrent-at_pos n k [] c = c
IsCurrent-at_pos n k (i ∷ s) c = c

pub at_pos-Represents :
    (room n : ℕ) (k : Kernel) (s : List ℕ)
    → Represents room k s
    → Represents room (record k { fs = at_pos k.fs n }) s
at_pos-Represents room n k s h = record {
  bitmap_size = h.bitmap_size;
  bits = h.bits;
  counted = h.counted;
  running = h.running;
  blocks = h.blocks;
  chain = h.chain;
  current = IsCurrent-at_pos n k s h.current;
  dir_size = h.dir_size;
  image_count = h.image_count;
  rooms = h.rooms;
  files = HasFiles-at_pos k.fs room n h.files;
}

-- `execute` behind the check of the file.
checked_cases :
    (room : ℕ) (k : Kernel) (s : List ℕ) (program : Option Program) (args : List ℕ) (esp ebp : ℕ)
    (out : Kernel × Outcome)
    → Represents room k s
    → k.runn_task_num < 6
    → OnStack s esp
    → ((p : Program) → program ≡ some p → IsProgram k.fs p)
    → execute_program k program args esp ebp ≡ some out
    → ((out.1 ≡ returns minus_one) × Represents room out.0 s) ⊎ Pushes room s esp ebp out.0 out.1
unfolding execute_program
checked_cases room k s none args esp ebp out h few on_stack is e =
    let same : (k, returns minus_one) ≡ out = cc in
    inl (sym (ap (λ o. o.1) same), rw (← ap (λ o. o.0) same) h)
checked_cases room k s (some program) args esp ebp out h few on_stack is e =
    inr
      (execute_program-Pushes room k s program args esp ebp out h few on_stack (is program refl) e)

-- `execute`, on the kernel stack of the task on top, either returns -1 and leaves the tasks as they
-- are, or starts a program in the first free slot: its task is pushed on the stack, as a child of the
-- one that was on top, with the terminal's two files open and the stack pointers to return to.
pub execute-Pushes :
    (room : ℕ) (k : Kernel) (s : List ℕ) (command : Option Reader) (esp ebp : ℕ)
    (out : Kernel × Outcome)
    → Represents room k s
    → OnStack s esp
    → execute k command esp ebp ≡ some out
    → ((out.1 ≡ returns minus_one) × Represents room out.0 s) ⊎ Pushes room s esp ebp out.0 out.1
unfolding execute execute_program
execute-Pushes room k s none esp ebp out h on_stack e =
    let same : (k, returns minus_one) ≡ out = cc in
    inl (sym (ap (λ o. o.1) same), rw (← ap (λ o. o.0) same) h)
execute-Pushes room k s (some command) esp ebp out h on_stack e =
    elim (if-eq-some (leb 6 k.runn_task_num) e) [
      | inl (full, e0) ↦
          let same : (k, returns minus_one) ≡ out = cc in
          inl (sym (ap (λ o. o.1) same), rw (← ap (λ o. o.0) same) h)
      | inr (room_left, running) ↦
          let few : k.runn_task_num < 6 = ground arith in
          let (line, parses, e1) = >>=-eq-some (parse_line command) _ running in
          let (checked, checks, e2) = >>=-eq-some (check_file k.fs (bytes_of line.0)) _ e1 in
          let c = check_file-IsChecked k.fs (bytes_of line.0) checked h.files.inodes checks in
          let moved = at_pos-Represents room c.pos k s h in
          let e3 : execute_program (record k { fs = at_pos k.fs c.pos }) checked.1 line.1 esp ebp
              ≡ some out =
            ap (λ f. execute_program (record k { fs = f }) checked.1 line.1 esp ebp) (sym c.keeps)
            ∙ e2 in
          checked_cases room (record k { fs = at_pos k.fs c.pos }) s checked.1 line.1 esp ebp out
            moved few on_stack c.program e3
    ]

-- A task that `execute` started on another one, and that then halts: the starter's `execute` returns
-- the status, on the stack that it was called with, and the tasks are those of before.
pub halt-execute :
    (room : ℕ) (k k' : Kernel) (j : ℕ) (s : List ℕ) (command : Reader) (esp ebp entry status : ℕ)
    → Represents room k (j ∷ s)
    → OnStack (j ∷ s) esp
    → execute k (some command) esp ebp ≡ some (k', enters entry)
    → (k'' : Kernel) × (halt k' status ≡ some (k'', resumes esp ebp (halt_status status)))
      × Represents room k'' (j ∷ s)
halt-execute room k k' j s command esp ebp entry status h on_stack e =
    elim (execute-Pushes room k (j ∷ s) (some command) esp ebp (k', enters entry) h on_stack e) [
      | inl (failed, same) ↦ cc
      | inr p ↦
          let (k'', pcb, block, halts, ended) = halt-pops room k' p.slot j s status p.stack in
          let same : p.pcb ≡ pcb = (let b = p.block in cc) in
          let back_esp : pcb.parent_esp ≡ esp = rw (← same) p.new.back_esp in
          let back_ebp : pcb.parent_ebp ≡ ebp = rw (← same) p.new.back_ebp in
          (
            k'',
            halts ∙ ap₂ (λ a b. some (k'', resumes a b (halt_status status))) back_esp back_ebp,
            ended,
          )
    ]
