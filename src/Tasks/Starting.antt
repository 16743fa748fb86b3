-- ===== src/Tasks/Starting.antt =====
-- The control block of a task that `execute` of student-distrib/syscall.c starts.
use linux_simulation.Base.{
  ℕ, zero, suc, ◌-◌, ◌/◌, ◌%◌, ◌≤◌, ◌<◌, ◌≡◌, ◌≢◌, inl, inr, refl, ap, ◌∙◌, true, false, ◌&&◌,
  Bool-cases, some, List, [], ◌∷◌, ◌==◌, ltb, leb, >>=-eq-some, get_or, get_elem?, set, store_lem,
  length, replicate, get_elem?-set_ne, minus_one, codes, ◌++◌, arith,
}
use linux_simulation.Base.Bits.{all_below, all_below_sound}
use linux_simulation.CString.{bytes_of, strcpy}
use linux_simulation.Process.{
  FileNode, Pcb, Process, opened, closed_node, stdin_ops, stdout_ops, no_inode,
}
use linux_simulation.Process.Closing.{IsProcess}
use linux_simulation.Process.Files.{write_name}
use linux_simulation.Process.Opening.{flag_at, node_at}
use linux_simulation.Tasks.{Kernel, pcb_addr, slot_at, block_of}
use linux_simulation.Tasks.Execute.{set_parent, set_files}
use linux_simulation.Tasks.Slots.{IsFirstFree}
use linux_simulation.Tasks.Stack.{IsChain, IsChain-lt, OnStack}

-- The files of a new process.
abbrev pub new_files : List FileNode
new_files = opened stdin_ops no_inode ∷ opened stdout_ops no_inode ∷ replicate 6 closed_node

closed_behind : (n j : ℕ) → get_or (replicate n closed_node) j closed_node ≡ closed_node
closed_behind zero j = refl
closed_behind (suc n) zero = refl
closed_behind (suc n) (suc j) = closed_behind n j

new_files_closed : (fd : ℕ) → 2 ≤ fd → node_at new_files fd ≡ closed_node
new_files_closed zero lo = absurd (omega arith)
new_files_closed (suc zero) lo = absurd (omega arith)
new_files_closed (suc (suc j)) lo = closed_behind 6 j

new_files_flag : (fd : ℕ) → fd < 8 → flag_at new_files fd ≤ 1
new_files_flag fd lt =
    let t =
      all_below_sound 8 (λ fd. ltb (flag_at new_files fd) 2) fd (unfold all_below in refl) lt in
    ground arith

-- They are in order.
pub new_files-IsProcess :
    (p : Process) → p.pcb.file_array ≡ new_files → p.pcb.open_file_num ≡ 2 → IsProcess p
new_files-IsProcess p files count = record {
  array = record { size = rw files refl; flag = λ fd lt. rw files (new_files_flag fd lt) };
  stdin = rw files refl;
  stdout = rw files refl;
  node = λ fd lo hi. inl (rw files (new_files_closed fd lo));
  count = rw files count;
}

-- A control block that `set_files` has completed.
pub record IsReady (known pcb : Pcb) : Type 0 where
  pub id : pcb.process_id ≡ known.process_id
  pub parent : pcb.parent_process_id ≡ known.parent_process_id
  pub esp : pcb.parent_esp ≡ known.parent_esp
  pub ebp : pcb.parent_ebp ≡ known.parent_ebp
  pub running : pcb.running_state ≡ 1
  pub files : pcb.file_array ≡ new_files
  pub count : pcb.open_file_num ≡ 2

pub set_files-IsReady :
    (known pcb : Pcb) (pos : ℕ) (args : List ℕ)
    → set_files known pos args ≡ some pcb
    → IsReady known pcb
unfolding set_files
set_files-IsReady known pcb pos args e =
    let (a, copies, e1) = >>=-eq-some (strcpy (replicate 100 0) (bytes_of args)) _ e in
    let (n, names, e2) =
      >>=-eq-some (write_name known 0 (bytes_of (codes "stdin" ++ 0 ∷ []))) _ e1 in
    let (m, more, e3) =
      >>=-eq-some
        (write_name (record known { file_names = n }) 1 (bytes_of (codes "stdout" ++ 0 ∷ []))) _
        e2 in
    record { id = cc; parent = cc; esp = cc; ebp = cc; running = cc; files = cc; count = cc }

-- The address of a control block names its slot.
slot_at-pcb_addr : (i : ℕ) → i < 6 → slot_at (pcb_addr i) ≡ some i
unfolding slot_at
slot_at-pcb_addr i lt =
    let inside : (leb 0x7F4000 (pcb_addr i)
          && ltb (pcb_addr i) 0x800000
          && pcb_addr i % 0x2000 == 0)
        ≡ true =
      ground arith in
    let is : (0x800000 - pcb_addr i) / 0x2000 - 1 ≡ i = omega arith in rw inside (ap some is)

-- The parent of a task on top of a stack.
abbrev pub parent_in : List ℕ → ℕ
parent_in [] = minus_one
parent_in (j ∷ s) = j

top_id :
    (pcbs : List Pcb) (j : ℕ) (s : List ℕ)
    → IsChain pcbs (j ∷ s)
    → (pcb : Pcb) × (get_elem? pcbs j ≡ some pcb) × (pcb.process_id ≡ j)
top_id pcbs j [] (j_0, t) = (t.pcb, t.block, t.id)
top_id pcbs j (l ∷ s) (lt, not_0, other, t, c) = (t.pcb, t.block, t.id)

-- A control block that `set_parent` has identified.
pub record IsIdentified (pos parent esp ebp : ℕ) (names : List ℕ) (known : Pcb) : Type 0 where
  pub id : known.process_id ≡ pos
  pub child_of : known.parent_process_id ≡ parent
  pub esp_kept : known.parent_esp ≡ esp
  pub ebp_kept : known.parent_ebp ≡ ebp
  pub names_kept : known.file_names ≡ names

pub set_parent-IsIdentified :
    (k : Kernel) (s : List ℕ) (old : Pcb) (esp ebp : ℕ)
    → IsChain k.pcbs s
    → k.runn_task_num ≡ length s
    → length k.pcbs ≡ 6
    → IsFirstFree s k.curr_task_pos
    → OnStack s esp
    → (known : Pcb) × (set_parent k old esp ebp ≡ some known)
      × IsIdentified k.curr_task_pos (parent_in s) esp ebp old.file_names known
unfolding set_parent
set_parent-IsIdentified k [] old esp ebp chain running blocks first on_stack =
    let pos = k.curr_task_pos in
    let is_0 : pos ≡ 0 = elim (Bool-cases (pos == 0)) [
      | inl eq ↦ ground arith
      | inr ne ↦ let b = first.before 0 (ground arith) in cc
    ] in
    let no_parent : (pos == 0 && k.runn_task_num == 0) ≡ true = ground arith in
    (
      record old {
        process_id = pos;
        parent_esp = esp;
        parent_ebp = ebp;
        parent_process_id = minus_one;
        parent_pcb = 0;
      },
      rw no_parent refl,
      record { id = refl; child_of = refl; esp_kept = refl; ebp_kept = refl; names_kept = refl },
    )
set_parent-IsIdentified k (j ∷ s) old esp ebp chain running blocks first on_stack =
    let pos = k.curr_task_pos in
    let lt = first.in_range in
    let unused = first.unused in
    let ne : pos ≢ j = ground arith in
    let some_parent : (pos == 0 && k.runn_task_num == 0) ≡ false = ground arith in
    let slot : slot_at (block_of esp) ≡ some j =
      ap slot_at on_stack ∙ slot_at-pcb_addr j (IsChain-lt k.pcbs j s chain) in
    let known = record old { process_id = pos; parent_esp = esp; parent_ebp = ebp } in
    let (parent, there, is_j) = top_id k.pcbs j s chain in
    let still : get_elem? (set k.pcbs pos known) j ≡ some parent =
      get_elem?-set_ne k.pcbs pos j known ne ∙ there in
    (
      record known { parent_process_id = parent.process_id; parent_pcb = block_of esp },
      rw some_parent (rw slot (rw (store_lem k.pcbs pos known (omega arith)) (rw still refl))),
      record { id = refl; child_of = is_j; esp_kept = refl; ebp_kept = refl; names_kept = refl },
    )
