-- ===== src/Tasks/Ending.antt =====
-- `halt` of student-distrib/syscall.c takes the task on top off the stack.
use linux_simulation.Base.{
  ℕ, suc, ◌+◌, ◌≤◌, ◌<◌, ◌≡◌, inl, inr, refl, sym, ap, ◌∙◌, false, ◌||◌, Bool-cases, some, List, [],
  ◌∷◌, ◌==◌, get_or, get_elem?, set, length, length-set, get_or-set_self, get_or-set_ne,
  get_elem?-set_self, minus_one, store_lem, u8, arith,
}
use linux_simulation.Paging.UserPages.{task_entry, map_task_lem}
use linux_simulation.Process.{Pcb, empty_pcb}
use linux_simulation.Tasks.{Kernel, resumes, stack_top}
use linux_simulation.Tasks.Halt.{halt_status, end_task, halt}
use linux_simulation.Tasks.Stack.{mem, busy, total, total-set, IsChain-set, IsChain-lt, Represents}

total-le :
    (bits : List ℕ) → ((i : ℕ) → i < length bits → get_or bits i 0 ≤ 1) → total bits ≤ length bits
total-le [] h = omega arith
total-le (b ∷ bits) h =
    let first = h 0 (omega arith) in omega (arith, total-le bits (λ i lt. h (suc i) (omega arith)))

busy-le : (s : List ℕ) (i : ℕ) → busy s i ≤ 1
busy-le s i = ground arith

-- There are at most six tasks.
pub Represents-length : (room : ℕ) (k : Kernel) (s : List ℕ) → Represents room k s → length s ≤ 6
Represents-length room k s h =
    let size = h.bitmap_size in
    let few =
      total-le k.task_bitmap
        (λ i lt. let b = h.bits i (omega arith) in omega (arith, busy-le s i)) in
    let c = h.counted in omega arith

-- The state that `end_task` leaves.
abbrev popped : Kernel → ℕ → ℕ → Kernel
popped k i j = record k {
  task_bitmap = set k.task_bitmap i 0;
  curr_task_pos = j;
  runn_task_num = u8 (k.runn_task_num + 255);
  pcbs = set k.pcbs i empty_pcb;
  paging = record (k.paging) { page_dir = set k.paging.page_dir 32 (task_entry j) };
  esp0 = stack_top j;
}

popped-Represents :
    (room : ℕ) (k : Kernel) (i j : ℕ) (s : List ℕ)
    → Represents room k (i ∷ j ∷ s)
    → Represents room (popped k i j) (j ∷ s)
popped-Represents room k i j s h =
    let (lt, not_0, other, t, below) = h.chain in
    let few = Represents-length room k (i ∷ j ∷ s) h in
    let size = h.bitmap_size in
    let taken : get_or k.task_bitmap i 0 ≡ 1 = h.bits i lt ∙ ground arith in
    let less = total-set k.task_bitmap i 0 (omega arith) in
    let before = h.counted in
    let run = h.running in
    let dir = h.dir_size in
    record {
      bitmap_size = length-set k.task_bitmap i 0 ∙ size;
      bits = λ x inside. elim (Bool-cases (x == i)) [
        | inl eq ↦
            let x_i : x ≡ i = ground arith in
            let outside : mem x (j ∷ s) ≡ false = ap (λ y. mem y (j ∷ s)) x_i ∙ other in
            let free : busy (j ∷ s) x ≡ 0 = rw outside refl in
            ap (λ y. get_or (set k.task_bitmap i 0) y 0) x_i
            ∙ get_or-set_self k.task_bitmap i 0 0 (omega arith)
            ∙ sym free
        | inr ne ↦
            let same : busy (i ∷ j ∷ s) x ≡ busy (j ∷ s) x = rw ne refl in
            get_or-set_ne k.task_bitmap i x 0 0 (ground arith) ∙ h.bits x inside ∙ same
      ];
      counted = omega arith;
      running = omega arith;
      blocks = length-set k.pcbs i empty_pcb ∙ h.blocks;
      chain = IsChain-set k.pcbs (j ∷ s) i empty_pcb other below;
      current = (refl, refl, get_elem?-set_self k.paging.page_dir 32 (task_entry j) (omega arith));
      dir_size = length-set k.paging.page_dir 32 (task_entry j) ∙ dir;
      image_count = h.image_count;
      rooms = h.rooms;
      files = h.files;
    }

end_task_lem :
    (k : Kernel) (i j : ℕ) (pcb : Pcb) (status : ℕ)
    → k.curr_task_pos ≡ i
    → pcb.parent_process_id ≡ j
    → i < 6
    → j < 6
    → length k.task_bitmap ≡ 6
    → length k.pcbs ≡ 6
    → length k.paging.page_dir ≡ 1024
    → end_task k pcb status
      ≡ some (popped k i j, resumes pcb.parent_esp pcb.parent_ebp (halt_status status))
unfolding end_task
end_task_lem k i j pcb status curr child lt_i lt_j bits blocks dir =
    let narrow : u8 j ≡ j = omega arith in
    rw curr (
      rw child (
        rw narrow (
          rw (store_lem k.task_bitmap i 0 (omega arith)) (
            rw (map_task_lem k.paging.page_dir j dir lt_j)
              (rw (store_lem k.pcbs i empty_pcb (omega arith)) refl)))))

-- `halt` in a task that another one started returns to the parent: the parent's `execute` goes on
-- with the stack that the control block has kept, and with the status, where 255 has become 256; the
-- task is off the stack, and the parent, with its page and its kernel stack, on top of it.
pub halt-pops :
    (room : ℕ) (k : Kernel) (i j : ℕ) (s : List ℕ) (status : ℕ)
    → Represents room k (i ∷ j ∷ s)
    → (k' : Kernel) × (pcb : Pcb) × (get_elem? k.pcbs i ≡ some pcb)
      × (halt k status ≡ some (k', resumes pcb.parent_esp pcb.parent_ebp (halt_status status)))
      × Represents room k' (j ∷ s)
unfolding halt
halt-pops room k i j s status h =
    let (lt, not_0, other, t, below) = h.chain in
    let lt_j = IsChain-lt k.pcbs j s below in
    let (curr, top, entry) = h.current in
    let run = h.running in
    let pcb = t.pcb in
    let id = t.id in
    let child = t.child_of in
    let here : get_elem? k.pcbs k.curr_task_pos ≡ some pcb = rw curr t.block in
    let not_first : (k.curr_task_pos == 0
          || k.runn_task_num == 1
          || pcb.parent_process_id == minus_one
          || pcb.process_id == 0)
        ≡ false =
      ground arith in
    (
      popped k i j,
      pcb,
      t.block,
      rw here (
          rw not_first
            (end_task_lem k i j pcb status curr child lt lt_j h.bitmap_size h.blocks h.dir_size)),
      popped-Represents room k i j s h,
    )
