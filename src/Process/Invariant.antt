-- ===== src/Process/Invariant.antt =====
-- The invariant of a process's files through `open` and `close` of student-distrib/syscall.c.
use linux_simulation.Base.{
  ℕ, ◌+◌, ◌≤◌, ◌<◌, ◌≡◌, ◌≢◌, inl, inr, refl, ◌∙◌, ap, sym, false, ◌||◌, none, some, lt_signed, set,
  minus_one, sub32, store_lem, length, get_elem?-eq-get_or, get_or-set_self, get_or-set_ne, arith,
}
use linux_simulation.CString.{Reader}
use linux_simulation.Process.{stack_inode, Process, closed_node, opened}
use linux_simulation.Process.Files.{not_above, call_close, sys_open, sys_close}
use linux_simulation.Process.Calls.{OpensOne, sys_open-OpensOne}
use linux_simulation.Process.Opening.{node_at, flag_at, opened_count}
use linux_simulation.Process.Closing.{
  IsProcess, IsProcess-set, opened_count-first_two, opened_count-bounded, set-set_back,
  opened_count-set,
}

-- The facts that `close` needs of an open descriptor.
sys_close-runs :
    (p : Process) (fd : ℕ)
    → length p.pcb.file_array ≡ 8
    → 2 ≤ fd
    → fd < 8
    → 2 < p.pcb.open_file_num
    → p.pcb.open_file_num ≤ 8
    → call_close (node_at p.pcb.file_array fd).fop_table ≡ some 0
    → (q : Process) × (sys_close p fd ≡ some (q, 0))
      × (q.pcb.file_array ≡ set p.pcb.file_array fd closed_node)
      × (q.pcb.open_file_num + 1 ≡ p.pcb.open_file_num)
      × (q.fs ≡ p.fs)
unfolding sys_close
sys_close-runs p fd size lo hi more few closable =
    let there = get_elem?-eq-get_or p.pcb.file_array fd closed_node (omega arith) in
    let fits = store_lem p.pcb.file_array fd closed_node (omega arith) in
    let allowed : (lt_signed fd 2 || lt_signed 7 fd || not_above p.pcb.open_file_num) ≡ false =
      ground arith in
    let pcb = record (p.pcb) {
      file_array = set p.pcb.file_array fd closed_node;
      open_file_num = sub32 p.pcb.open_file_num 1;
    } in
    (
      record p { pcb = pcb },
      rw allowed (rw there (rw closable (rw fits refl))),
      refl,
      omega arith,
      refl,
    )

-- Between two calls, the count of a process is at least 2 and at most 8.
count_range : (p : Process) → IsProcess p → (2 ≤ p.pcb.open_file_num) × (p.pcb.open_file_num ≤ 8)
count_range p h =
    let low = opened_count-first_two p.pcb.file_array in
    let size = h.array.size in
    let high = opened_count-bounded p.pcb.file_array (λ fd lt. h.array.flag fd (omega arith)) in
    let a = h.stdin in let b = h.stdout in let c = h.count in (omega arith, omega arith)

-- The files stay in order, whether a node is taken or not.
sys_open-ordered :
    (p q : Process) (filename : Reader) (r : ℕ)
    → IsProcess p
    → sys_open p filename ≡ some (q, r)
    → IsProcess q
sys_open-ordered p q filename r h e = elim (sys_open-OpensOne p q filename r h.array e) [
  | inl (same, _) ↦ record {
    array = rw same h.array;
    stdin = rw same h.stdin;
    stdout = rw same h.stdout;
    node = rw same h.node;
    count = rw same h.count;
  }
  | inr o ↦
      let free = o.first.free in
      let count = o.count in
      let (_, few) = count_range p h in
      IsProcess-set p q r (opened o.table stack_inode) h o.first.low o.first.high
        (inr (refl, o.closable)) (omega arith) o.array (omega arith)
]

-- `open` keeps the files of a process in order, whatever it returns, and the count stays the number of
-- open nodes: it returns 0 or -1 and changes nothing of the process, or it returns the first free
-- descriptor from 2 on, sets up that node alone, with a table whose `close` can be called, and adds one to
-- the count.
pub sys_open-IsProcess :
    (p q : Process) (filename : Reader) (r : ℕ)
    → IsProcess p
    → sys_open p filename ≡ some (q, r)
    → IsProcess q × OpensOne p q r
sys_open-IsProcess p q filename r h e =
    (sys_open-ordered p q filename r h e, sys_open-OpensOne p q filename r h.array e)

-- `close` of an open descriptor from 2 to 7 returns 0, clears that node alone, and keeps the files of
-- the process in order.
pub sys_close-IsProcess :
    (p : Process) (fd : ℕ)
    → IsProcess p
    → 2 ≤ fd
    → fd < 8
    → flag_at p.pcb.file_array fd ≡ 1
    → (q : Process) × (sys_close p fd ≡ some (q, 0))
      × (q.pcb.file_array ≡ set p.pcb.file_array fd closed_node)
      × IsProcess q
sys_close-IsProcess p fd h lo hi is_open =
    let (_, few) = count_range p h in
    let size = h.array.size in
    let low = opened_count-first_two (set p.pcb.file_array fd closed_node) in
    let less = opened_count-set p.pcb.file_array fd closed_node (omega arith) in
    let c = h.count in
    let a = get_or-set_ne p.pcb.file_array fd 0 closed_node closed_node (omega arith) in
    let b = get_or-set_ne p.pcb.file_array fd 1 closed_node closed_node (omega arith) in
    let first : flag_at (set p.pcb.file_array fd closed_node) 0 ≡ 1 =
      ap (λ n. n.flags) a ∙ h.stdin in
    let second : flag_at (set p.pcb.file_array fd closed_node) 1 ≡ 1 =
      ap (λ n. n.flags) b ∙ h.stdout in
    let closable : call_close (node_at p.pcb.file_array fd).fop_table ≡ some 0 =
      elim (h.node fd lo hi) [
        | inl cleared ↦ let f = ap (λ n. n.flags) cleared in absurd (omega arith)
        | inr (_, ok) ↦ ok
      ] in
    let (q, runs, array, count, _) = sys_close-runs p fd size lo hi (omega arith) few closable in
    (
      q,
      runs,
      array,
      IsProcess-set p q fd closed_node h lo hi (inl refl) (omega arith) array (omega arith),
    )

-- A file that `open` has opened, closed at once: `close` of the descriptor that `open` returned
-- returns 0, and the file array and the count are those before `open`.
pub sys_close-sys_open :
    (p q : Process) (filename : Reader) (fd : ℕ)
    → IsProcess p
    → sys_open p filename ≡ some (q, fd)
    → fd ≢ 0
    → fd ≢ minus_one
    → (s : Process) × (sys_close q fd ≡ some (s, 0))
      × (s.pcb.file_array ≡ p.pcb.file_array)
      × (s.pcb.open_file_num ≡ p.pcb.open_file_num)
sys_close-sys_open p q filename fd h e not_0 not_error =
    elim (sys_open-OpensOne p q filename fd h.array e) [
      | inl (_, inl is_0) ↦ absurd (not_0 is_0)
      | inl (_, inr is_error) ↦ absurd (not_error is_error)
      | inr o ↦
          let size = h.array.size in
          let high = o.first.high in
          let at_fd : flag_at q.pcb.file_array fd ≡ 1 = rw o.array (
            ap (λ n. n.flags)
              (get_or-set_self p.pcb.file_array fd (opened o.table stack_inode) closed_node
                (omega arith))) in
          let (s, runs, array, ordered) =
            sys_close-IsProcess q fd (sys_open-IsProcess p q filename fd h e).0 o.first.low
              o.first.high at_fd in
          let cleared : node_at p.pcb.file_array fd ≡ closed_node =
            elim (h.node fd o.first.low o.first.high) [
              | inl is ↦ is
              | inr (taken, _) ↦ let free = o.first.free in absurd (omega arith)
            ] in
          let back : set (set p.pcb.file_array fd (opened o.table stack_inode)) fd closed_node
              ≡ p.pcb.file_array =
            rw (sym cleared) (set-set_back p.pcb.file_array fd (opened o.table stack_inode)) in
          let same : s.pcb.file_array ≡ p.pcb.file_array =
            array ∙ ap (λ xs. set xs fd closed_node) o.array ∙ back in
          (s, runs, same, ordered.count ∙ ap opened_count same ∙ sym h.count)
    ]

-- `close` of a descriptor from 2 to 7 that is not open, while another one is: the call goes through a
-- null table, which is undefined, where the code means to return -1 or 0.
pub sys_close_null :
    (p : Process) (fd : ℕ)
    → IsProcess p
    → 2 ≤ fd
    → fd < 8
    → flag_at p.pcb.file_array fd ≡ 0
    → 2 < p.pcb.open_file_num
    → sys_close p fd ≡ none
unfolding sys_close call_close
sys_close_null p fd h lo hi closed more =
    let (_, few) = count_range p h in
    let size = h.array.size in
    let there = get_elem?-eq-get_or p.pcb.file_array fd closed_node (omega arith) in
    let allowed : (lt_signed fd 2 || lt_signed 7 fd || not_above p.pcb.open_file_num) ≡ false =
      ground arith in
    let cleared : node_at p.pcb.file_array fd ≡ closed_node = elim (h.node fd lo hi) [
      | inl is ↦ is
      | inr (taken, _) ↦ absurd (omega arith)
    ] in
    rw allowed (rw there (rw cleared refl))
