-- ===== src/Tasks/Calls.antt =====
-- `open` and `close` of student-distrib/syscall.c as calls of the running task.
use linux_simulation.Base.{
  ℕ, ◌^◌, ◌≤◌, ◌<◌, ◌≡◌, inl, inr, sym, ap, ap₂, ◌∙◌, false, ◌||◌, Bool-cases, Option, some, List,
  [], ◌∷◌, ◌==◌, >>=-eq-some, ◌>>=◌, get_elem?, set, store, store_lem, length, length-set,
  get_elem?-set_self, minus_one, lt_signed, arith,
}
use linux_simulation.CString.{Reader}
use linux_simulation.Filesys.{Filesys}
use linux_simulation.Filesys.Keeps.{at_pos}
use linux_simulation.Process.{Pcb, Process}
use linux_simulation.Process.Closing.{IsProcess}
use linux_simulation.Process.Files.{not_above, sys_open, sys_close}
use linux_simulation.Process.Invariant.{sys_open-IsProcess, sys_close-IsProcess, sys_close_null}
use linux_simulation.Process.Keeps.{IsSameTask, sys_open-IsSameTask, sys_close-IsSameTask}
use linux_simulation.Process.Opening.{flag_at}
use linux_simulation.Tasks.{Kernel}
use linux_simulation.Tasks.Program.{HasFiles-at_pos}
use linux_simulation.Tasks.Stack.{IsTask, IsChain, IsChain-set, IsChain-lt, HasFiles, Represents}

-- A call on the files of the running task, whose control block is found by `curr_task_pos`.
pub on_files : Kernel → (Process → Option (Process × ℕ)) → Option (Kernel × ℕ)
on_files k call = do
  pcb ← get_elem? k.pcbs k.curr_task_pos
  out ← call (record { pcb = pcb; fs = k.fs })
  pcbs ← store k.pcbs k.curr_task_pos out.0.pcb
  some (record k { pcbs = pcbs; fs = out.0.fs }, out.1)

-- A call keeps the files of a process in order, and leaves it the same process.
abbrev pub IsOrderly : (Process → Option (Process × ℕ)) → Type 0
IsOrderly call =
    (p : Process) (out : Process × ℕ)
    → IsProcess p
    → call p ≡ some out
    → IsSameTask p out.0 × IsProcess out.0

pub sys_open-IsOrderly : (filename : Reader) → IsOrderly (λ p. sys_open p filename)
sys_open-IsOrderly filename p (q, r) h e =
    (sys_open-IsSameTask p filename (q, r) e, (sys_open-IsProcess p q filename r h e).0)

sys_close-closed :
    (p q : Process) (fd r : ℕ)
    → fd < 2 ^ 32
    → IsProcess p
    → sys_close p fd ≡ some (q, r)
    → (lt_signed fd 2 || lt_signed 7 fd || not_above p.pcb.open_file_num) ≡ false
    → IsProcess q
sys_close-closed p q fd r word h e allowed =
    let more : 2 < p.pcb.open_file_num = ground arith in
    let lo : 2 ≤ fd = ground arith in
    let hi : fd < 8 = ground arith in
    let bit = h.array.flag fd hi in
    elim (Bool-cases (flag_at p.pcb.file_array fd == 1)) [
      | inl is_open ↦
          let (s, runs, array, ordered) = sys_close-IsProcess p fd h lo hi (ground arith) in
          let same : s ≡ q = cc in rw (← same) ordered
      | inr is_closed ↦ let undefined = sys_close_null p fd h lo hi (ground arith) more in cc
    ]

pub sys_close-IsOrderly : (fd : ℕ) → fd < 2 ^ 32 → IsOrderly (λ p. sys_close p fd)
unfolding sys_close
sys_close-IsOrderly fd word p (q, r) h e = (
  sys_close-IsSameTask p fd (q, r) e,
  elim (Bool-cases (lt_signed fd 2 || lt_signed 7 fd || not_above p.pcb.open_file_num)) [
    | inl refused ↦ let e0 = rw refused at e in let same : p ≡ q = cc in rw (← same) h
    | inr allowed ↦ sys_close-closed p q fd r word h e allowed
  ],
)

-- The running task's control block, with other files.
module _ (pcbs : List Pcb) (i : ℕ) (fs : Filesys) (call : Process → Option (Process × ℕ))
    (orderly : IsOrderly call) (out : Process × ℕ) (lt : i < length pcbs) where
  IsTask-call :
      (parent : ℕ)
      → (t : IsTask pcbs i parent) → call (record { pcb = t.pcb; fs = fs }) ≡ some out
      → IsTask (set pcbs i out.0.pcb) i parent
  IsTask-call parent t runs =
      let (s, ordered) = orderly (record { pcb = t.pcb; fs = fs }) out (t.files fs) runs in
      record {
        pcb = out.0.pcb;
        block = get_elem?-set_self pcbs i out.0.pcb lt;
        id = s.id ∙ t.id;
        child_of = s.child_of ∙ t.child_of;
        running = s.running ∙ t.running;
        files = λ other. record {
          array = ordered.array;
          stdin = ordered.stdin;
          stdout = ordered.stdout;
          node = ordered.node;
          count = ordered.count;
        };
      }

  IsChain-call :
      (pcb : Pcb) (s : List ℕ)
      → IsChain pcbs (i ∷ s)
      → get_elem? pcbs i ≡ some pcb
      → call (record { pcb = pcb; fs = fs }) ≡ some out
      → IsSameTask (record { pcb = pcb; fs = fs }) out.0 × IsChain (set pcbs i out.0.pcb) (i ∷ s)
  IsChain-call pcb [] (i_0, t) there runs =
      let same : pcb ≡ t.pcb = (let b = t.block in cc) in
      let runs' : call (record { pcb = t.pcb; fs = fs }) ≡ some out = rw (← same) runs in
      (
        rw same (orderly (record { pcb = t.pcb; fs = fs }) out (t.files fs) runs').0,
        (i_0, IsTask-call minus_one t runs'),
      )
  IsChain-call pcb (j ∷ s) (in_range, not_0, other, t, below) there runs =
      let same : pcb ≡ t.pcb = (let b = t.block in cc) in
      let runs' : call (record { pcb = t.pcb; fs = fs }) ≡ some out = rw (← same) runs in
      (
        rw same (orderly (record { pcb = t.pcb; fs = fs }) out (t.files fs) runs').0,
        (
          in_range,
          not_0,
          other,
          IsTask-call j t runs',
          IsChain-set pcbs (j ∷ s) i out.0.pcb other below,
        ),
      )

-- Other control blocks in the same chain, and a file system with the same files.
Represents-files :
    (room : ℕ) (k : Kernel) (i : ℕ) (s : List ℕ) (pcbs : List Pcb) (fs : Filesys)
    → Represents room k (i ∷ s)
    → length pcbs ≡ 6
    → IsChain pcbs (i ∷ s)
    → HasFiles fs room
    → Represents room (record k { pcbs = pcbs; fs = fs }) (i ∷ s)
Represents-files room k i s pcbs fs h size chain files = record {
  bitmap_size = h.bitmap_size;
  bits = h.bits;
  counted = h.counted;
  running = h.running;
  blocks = size;
  chain = chain;
  current = h.current;
  dir_size = h.dir_size;
  image_count = h.image_count;
  rooms = h.rooms;
  files = files;
}

-- What a call that returns has done.
on_files-runs :
    (k : Kernel) (call : Process → Option (Process × ℕ)) (out : Kernel × ℕ)
    → k.curr_task_pos < length k.pcbs
    → on_files k call ≡ some out
    → (pcb : Pcb) × (done : Process × ℕ) × (get_elem? k.pcbs k.curr_task_pos ≡ some pcb)
      × (call (record { pcb = pcb; fs = k.fs }) ≡ some done)
      × (out.0 ≡ record k { pcbs = set k.pcbs k.curr_task_pos done.0.pcb; fs = done.0.fs })
unfolding on_files
on_files-runs k call out lt e =
    let (pcb, there, e1) = >>=-eq-some (get_elem? k.pcbs k.curr_task_pos) _ e in
    let (done, runs, e2) = >>=-eq-some (call (record { pcb = pcb; fs = k.fs })) _ e1 in
    let e3 = rw (store_lem k.pcbs k.curr_task_pos done.0.pcb lt) at e2 in
    (pcb, done, there, runs, cc)

-- An orderly call of the running task keeps the stack.
pub on_files-Represents :
    (room : ℕ) (k : Kernel) (i : ℕ) (s : List ℕ) (call : Process → Option (Process × ℕ))
    (out : Kernel × ℕ)
    → IsOrderly call
    → Represents room k (i ∷ s)
    → on_files k call ≡ some out
    → Represents room out.0 (i ∷ s)
on_files-Represents room k i s call out orderly h e =
    let (curr, _, _) = h.current in
    let lt_i = IsChain-lt k.pcbs i s h.chain in
    let size = h.blocks in
    let lt : k.curr_task_pos < length k.pcbs = omega arith in
    let (pcb, done, there, runs, state) = on_files-runs k call out lt e in
    let at_i : get_elem? k.pcbs i ≡ some pcb = ap (get_elem? k.pcbs) (sym curr) ∙ there in
    let (same, chain) =
      IsChain-call k.pcbs i k.fs call orderly done (omega arith) pcb s h.chain at_i runs in
    let is : out.0 ≡ record k { pcbs = set k.pcbs i done.0.pcb; fs = at_pos k.fs same.pos } =
      state ∙ ap₂ (λ c f. record k { pcbs = set k.pcbs c done.0.pcb; fs = f }) curr same.disk in
    rw is (
      Represents-files room k i s (set k.pcbs i done.0.pcb) (at_pos k.fs same.pos) h
        (length-set k.pcbs i done.0.pcb ∙ size) chain (HasFiles-at_pos k.fs room same.pos h.files))
