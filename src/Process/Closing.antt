-- ===== src/Process/Closing.antt =====
-- The open files of a process of student-distrib/syscall.c: what `open` and `close` keep true.
use linux_simulation.Base.{
  ℕ, zero, suc, ◌+◌, ◌≤◌, ◌<◌, ◌≡◌, ◌⊎◌, inl, inr, refl, ◌∙◌, ap, Bool-cases, some, List, [], ◌∷◌,
  ◌==◌, set, length, length-set, get_or-set_self, get_or-set_ne, arith,
}
use linux_simulation.Process.{FileNode, Process, closed_node}
use linux_simulation.Process.Files.{call_close}
use linux_simulation.Process.Opening.{node_at, flag_at, opened_count, IsFileArray}

pub opened_count-set :
    (files : List FileNode) (fd : ℕ) (n : FileNode)
    → fd < length files
    → opened_count (set files fd n) + flag_at files fd ≡ opened_count files + n.flags
opened_count-set [] fd n h = elim h [ ]
opened_count-set (m ∷ files) zero n h = omega arith
opened_count-set (m ∷ files) (suc fd) n h = omega (arith, opened_count-set files fd n (omega arith))

-- The first two files are counted.
pub opened_count-first_two :
    (files : List FileNode) → flag_at files 0 + flag_at files 1 ≤ opened_count files
opened_count-first_two [] = omega arith
opened_count-first_two (a ∷ []) = omega arith
opened_count-first_two (a ∷ b ∷ files) = omega arith

pub opened_count-bounded :
    (files : List FileNode)
    → ((fd : ℕ) → fd < length files → flag_at files fd ≤ 1)
    → opened_count files ≤ length files
opened_count-bounded [] h = omega arith
opened_count-bounded (a ∷ files) h =
    let first = h 0 (omega arith) in
    omega (arith, opened_count-bounded files (λ fd lt. h (suc fd) (omega arith)))

-- Writing a node and writing back the old one.
pub set-set_back :
    (files : List FileNode) (fd : ℕ) (n : FileNode)
    → set (set files fd n) fd (node_at files fd) ≡ files
set-set_back [] fd n = refl
set-set_back (a ∷ files) zero n = refl
set-set_back (a ∷ files) (suc fd) n = ap (λ xs. a ∷ xs) (set-set_back files fd n)

-- A node is cleared, or open with a table whose `close` can be called.
abbrev pub IsNode : FileNode → Type 0
IsNode n = (n ≡ closed_node) ⊎ ((n.flags ≡ 1) × (call_close n.fop_table ≡ some 0))

-- Between two system calls: the terminal's files are open, each other node is cleared or open, and
-- the count is the number of open nodes.
pub record IsProcess (p : Process) : Type 0 where
  pub array : IsFileArray p.pcb.file_array
  pub stdin : flag_at p.pcb.file_array 0 ≡ 1
  pub stdout : flag_at p.pcb.file_array 1 ≡ 1
  pub node : (fd : ℕ) → 2 ≤ fd → fd < 8 → IsNode (node_at p.pcb.file_array fd)
  pub count : p.pcb.open_file_num ≡ opened_count p.pcb.file_array

-- Another node in the place of a descriptor from 2 on, and the count with it.
pub IsProcess-set :
    (p q : Process) (fd : ℕ) (n : FileNode)
    → IsProcess p
    → 2 ≤ fd
    → fd < 8
    → IsNode n
    → n.flags ≤ 1
    → q.pcb.file_array ≡ set p.pcb.file_array fd n
    → q.pcb.open_file_num + flag_at p.pcb.file_array fd ≡ p.pcb.open_file_num + n.flags
    → IsProcess q
IsProcess-set p q fd n h lo hi is_node bound e c =
    let files : List FileNode = p.pcb.file_array in
    let size : length files ≡ 8 = h.array.size in
    let counted = opened_count-set files fd n (omega arith) in
    record {
      array = record {
        size = rw e (length-set files fd n ∙ size);
        flag = λ j lt. rw e (elim (Bool-cases (j == fd)) [
          | inl eq ↦
              let j_fd : j ≡ fd = ground arith in
              rw j_fd (rw (flag_at, get_or-set_self files fd n closed_node (omega arith)) bound)
          | inr ne ↦
              rw (flag_at, get_or-set_ne files fd j n closed_node (ground arith))
                (h.array.flag j lt)
        ]);
      };
      stdin = rw e (rw (flag_at, get_or-set_ne files fd 0 n closed_node (omega arith)) h.stdin);
      stdout = rw e (rw (flag_at, get_or-set_ne files fd 1 n closed_node (omega arith)) h.stdout);
      node = λ j low lt. rw e (elim (Bool-cases (j == fd)) [
        | inl eq ↦
            let j_fd : j ≡ fd = ground arith in
            rw j_fd (rw (node_at, get_or-set_self files fd n closed_node (omega arith)) is_node)
        | inr ne ↦
            rw (node_at, get_or-set_ne files fd j n closed_node (ground arith)) (h.node j low lt)
      ]);
      count = rw e (let k = h.count in omega arith);
    }
