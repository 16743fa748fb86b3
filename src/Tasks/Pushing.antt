-- ===== src/Tasks/Pushing.antt =====
-- `execute` of student-distrib/syscall.c puts a task on the stack, or returns -1.
use linux_simulation.Base.{
  ℕ, ◌+◌, ◌≤◌, ◌<◌, ◌≡◌, ◌≢◌, inl, inr, refl, sym, ap, ◌∙◌, Bool-cases, some, List, [], ◌∷◌, ◌==◌,
  get_or, get_elem?, set, length, length-set, get_or-set_self, get_or-set_ne, get_elem?-set_self,
  u8, arith,
}
use linux_simulation.Filesys.{Filesys}
use linux_simulation.Paging.UserPages.{task_entry}
use linux_simulation.Process.{Pcb}
use linux_simulation.Process.Closing.{IsProcess}
use linux_simulation.Tasks.{Kernel, Outcome, enters, stack_top}
use linux_simulation.Tasks.Slots.{IsFirstFree}
use linux_simulation.Tasks.Stack.{
  mem, busy, total-set, IsChain, IsChain-set, IsChain-bottom, Represents,
}
use linux_simulation.Tasks.Starting.{parent_in}

-- The slot's control block is that of a new task, which returns to the stack it was started on.
pub record IsNewTask (pcb : Pcb) (i parent esp ebp : ℕ) : Type 0 where
  pub id : pcb.process_id ≡ i
  pub child_of : pcb.parent_process_id ≡ parent
  pub running : pcb.running_state ≡ 1
  pub back_esp : pcb.parent_esp ≡ esp
  pub back_ebp : pcb.parent_ebp ≡ ebp
  pub ordered : (fs : Filesys) → IsProcess (record { pcb = pcb; fs = fs })

-- A program was started: in the first free slot, as a child of the task that was on top.
pub record Pushes (room : ℕ) (s : List ℕ) (esp ebp : ℕ) (k' : Kernel) (o : Outcome) : Type 0 where
  pub slot : ℕ
  pub first : IsFirstFree s slot
  pub entry : ℕ
  pub outcome : o ≡ enters entry
  pub pcb : Pcb
  pub block : get_elem? k'.pcbs slot ≡ some pcb
  pub new : IsNewTask pcb slot (parent_in s) esp ebp
  pub stack : Represents room k' (slot ∷ s)

-- The loaded state, and the state that `start` leaves.
abbrev pub loaded : Kernel → ℕ → List ℕ → Kernel
loaded k i image = record k {
  task_bitmap = set k.task_bitmap i 1;
  curr_task_pos = i;
  paging = record (k.paging) { page_dir = set k.paging.page_dir 32 (task_entry i) };
  images = set k.images i image;
}

abbrev pub started : Kernel → ℕ → List ℕ → Pcb → Kernel
started k i image pcb = record (loaded k i image) {
  pcbs = set k.pcbs i pcb;
  ss0 = 0x18;
  esp0 = stack_top i;
  runn_task_num = u8 (k.runn_task_num + 1);
}

pushed-IsChain :
    (pcbs : List Pcb) (s : List ℕ) (i : ℕ) (pcb : Pcb) (esp ebp : ℕ)
    → length pcbs ≡ 6
    → IsFirstFree s i
    → IsNewTask pcb i (parent_in s) esp ebp
    → IsChain pcbs s
    → IsChain (set pcbs i pcb) (i ∷ s)
pushed-IsChain pcbs [] i pcb esp ebp size first new chain =
    let lt = first.in_range in
    let is_0 : i ≡ 0 = elim (Bool-cases (i == 0)) [
      | inl eq ↦ ground arith
      | inr ne ↦ let b = first.before 0 (ground arith) in cc
    ] in
    (
      is_0,
      record {
        pcb = pcb;
        block = get_elem?-set_self pcbs i pcb (omega arith);
        id = new.id;
        child_of = new.child_of;
        running = new.running;
        files = new.ordered;
      },
    )
pushed-IsChain pcbs (j ∷ s) i pcb esp ebp size first new chain =
    let lt = first.in_range in
    let unused = first.unused in
    let bottom = IsChain-bottom pcbs j s chain in
    let not_0 : i ≢ 0 = λ eq. let m = ap (λ x. mem x (j ∷ s)) eq in cc in
    (
      lt,
      not_0,
      unused,
      record {
        pcb = pcb;
        block = get_elem?-set_self pcbs i pcb (omega arith);
        id = new.id;
        child_of = new.child_of;
        running = new.running;
        files = new.ordered;
      },
      IsChain-set pcbs (j ∷ s) i pcb unused chain,
    )

pub started-Represents :
    (room : ℕ) (k : Kernel) (s : List ℕ) (i : ℕ) (image : List ℕ) (pcb : Pcb) (esp ebp : ℕ)
    → Represents room k s
    → k.runn_task_num < 6
    → IsFirstFree s i
    → IsNewTask pcb i (parent_in s) esp ebp
    → room ≤ length image
    → Represents room (started k i image pcb) (i ∷ s)
started-Represents room k s i image pcb esp ebp h few first new enough =
    let lt = first.in_range in
    let unused = first.unused in
    let size = h.bitmap_size in
    let dir = h.dir_size in
    let free_bit : get_or k.task_bitmap i 0 ≡ 0 = h.bits i lt ∙ ground arith in
    let more = total-set k.task_bitmap i 1 (omega arith) in
    let before = h.counted in
    let run = h.running in
    let count = h.image_count in
    record {
      bitmap_size = length-set k.task_bitmap i 1 ∙ size;
      bits = λ x inside. elim (Bool-cases (x == i)) [
        | inl eq ↦
            let x_i : x ≡ i = ground arith in
            let taken : busy (i ∷ s) x ≡ 1 = rw eq refl in
            ap (λ y. get_or (set k.task_bitmap i 1) y 0) x_i
            ∙ get_or-set_self k.task_bitmap i 1 0 (omega arith)
            ∙ sym taken
        | inr ne ↦
            let same : busy s x ≡ busy (i ∷ s) x = rw ne refl in
            get_or-set_ne k.task_bitmap i x 1 0 (ground arith) ∙ h.bits x inside ∙ same
      ];
      counted = omega arith;
      running = omega arith;
      blocks = length-set k.pcbs i pcb ∙ h.blocks;
      chain = pushed-IsChain k.pcbs s i pcb esp ebp h.blocks first new h.chain;
      current = (refl, refl, get_elem?-set_self k.paging.page_dir 32 (task_entry i) (omega arith));
      dir_size = length-set k.paging.page_dir 32 (task_entry i) ∙ dir;
      image_count = length-set k.images i image ∙ count;
      rooms = λ x inside. elim (Bool-cases (x == i)) [
        | inl eq ↦
            let x_i : x ≡ i = ground arith in
            let at : get_or (set k.images i image) x [] ≡ image =
              ap (λ y. get_or (set k.images i image) y []) x_i
              ∙ get_or-set_self k.images i image [] (omega arith) in
            rw at enough
        | inr ne ↦ rw (get_or-set_ne k.images i x image [] (ground arith)) (h.rooms x inside)
      ];
      files = h.files;
    }
