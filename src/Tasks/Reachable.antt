-- ===== src/Tasks/Reachable.antt =====
-- The invariant of the tasks of student-distrib/syscall.c, and what it means for the globals and for
-- the memory that a task sees.
use linux_simulation.Base.{
  ℕ, ◌+◌, ◌*◌, ◌/◌, ◌%◌, ◌^◌, ◌≤◌, ◌<◌, ◌≡◌, ◌⊎◌, inl, inr, refl, sym, ap, ◌∙◌, true, some, List,
  [], ◌∷◌, get_elem?, get_or, arith,
}
use linux_simulation.Paging.UserPages.{task_entry}
use linux_simulation.Paging.Walk.{allows, translate, translate-big}
use linux_simulation.Tasks.{Kernel, pcb_addr, block_of}
use linux_simulation.Tasks.Calls.{on_files-Represents, sys_open-IsOrderly, sys_close-IsOrderly}
use linux_simulation.Process.Files.{sys_open, sys_close}
use linux_simulation.Tasks.Ending.{halt-pops, Represents-length}
use linux_simulation.Tasks.Refinement.{execute-Pushes}
use linux_simulation.Tasks.Stack.{total, IsChain-lt, Represents, OnStack}
use linux_simulation.Tasks.Steps.{
  Step, executes, halts, opens, closes, Reach, here, next, halt-restarts, IsBooted,
  IsBooted-Represents,
}

on_top :
    (room : ℕ) (k : Kernel) (s : List ℕ) (esp : ℕ)
    → Represents room k s
    → (k.runn_task_num ≡ 0) ⊎ (block_of esp ≡ pcb_addr k.curr_task_pos)
    → OnStack s esp
on_top room k [] esp h on_stack = tt
on_top room k (i ∷ s) esp h (inl none_running) = let run = h.running in absurd (omega arith)
on_top room k (i ∷ s) esp h (inr on_stack) =
    let (curr, _, _) = h.current in on_stack ∙ ap pcb_addr curr

-- There is a stack of tasks after a call when there was one before it.
pub Step-Represents :
    (room : ℕ) (k k' : Kernel) (s : List ℕ)
    → Represents room k s
    → Step k k'
    → (t : List ℕ) × Represents room k' t
Step-Represents room k k' s h (executes command esp ebp o on_stack e) =
    elim (execute-Pushes room k s command esp ebp (k', o) h (on_top room k s esp h on_stack) e) [
      | inl (failed, same) ↦ (s, same)
      | inr p ↦ (p.slot ∷ s, p.stack)
    ]
Step-Represents room k k' [] h (halts status o some_running e) = absurd (some_running h.running)
Step-Represents room k k' (i ∷ []) h (halts status o some_running e) =
    (i ∷ [], halt-restarts room k i status (k', o) h e)
Step-Represents room k k' (i ∷ j ∷ s) h (halts status o some_running e) =
    let (k'', pcb, block, runs, ended) = halt-pops room k i j s status h in
    let same : k'' ≡ k' = cc in (j ∷ s, rw (← same) ended)
Step-Represents room k k' [] h (opens filename r some_running e) = absurd (some_running h.running)
Step-Represents room k k' (i ∷ s) h (opens filename r some_running e) = (
  i ∷ s,
  on_files-Represents room k i s (λ p. sys_open p filename) (k', r) (sys_open-IsOrderly filename) h
      e,
)
Step-Represents room k k' [] h (closes fd r word some_running e) = absurd (some_running h.running)
Step-Represents room k k' (i ∷ s) h (closes fd r word some_running e) = (
  i ∷ s,
  on_files-Represents room k i s (λ p. sys_close p fd) (k', r) (sys_close-IsOrderly fd word) h e,
)

-- After any calls of `execute`, `halt`, `open` and `close` from the start of the kernel, the tasks
-- form a stack: the first shell at the bottom, each other task the child of the one below it, and the
-- running one on top; the bitmap, the count, the control blocks, the files of each process, the page
-- and the kernel stack are those of that stack.
pub Reach-Represents :
    (room : ℕ) (first k : Kernel)
    → IsBooted room first
    → Reach first k
    → (s : List ℕ) × Represents room k s
Reach-Represents room first k booted here = ([], IsBooted-Represents room first booted)
Reach-Represents room first k booted (next {k = before} r step) =
    let (s, h) = Reach-Represents room first before booted r in
    Step-Represents room before k s h step

-- The page of the task on top, seen by the user.
own_page :
    (room : ℕ) (k : Kernel) (i : ℕ) (s : List ℕ) (o : ℕ)
    → Represents room k (i ∷ s)
    → o < 0x400000
    → translate true k.paging (0x8000000 + o) ≡ some (0x800000 + 0x400000 * k.curr_task_pos + o)
own_page room k i s o h lt =
    let (curr, _, entry) = h.current in
    let slot = IsChain-lt k.pcbs i s h.chain in
    let index : (0x8000000 + o) / 2 ^ 22 ≡ 32 = omega arith in
    let odd : task_entry i % 2 ≡ 1 = omega arith in
    let by_user : task_entry i / 4 % 2 ≡ 1 = omega arith in
    let allowed : allows true (task_entry i) ≡ true = rw (odd, by_user) refl in
    let is : task_entry i / 2 ^ 22 * 2 ^ 22 + (0x8000000 + o) % 2 ^ 22
        ≡ 0x800000 + 0x400000 * k.curr_task_pos + o =
      omega arith in
    translate-big true k.paging (0x8000000 + o) (task_entry i)
      (ap (get_elem? k.paging.page_dir) index ∙ entry) allowed (omega arith)
    ∙ ap some is

own_page_cases :
    (room : ℕ) (k : Kernel) (s : List ℕ)
    → Represents room k s
    → (k.runn_task_num ≤ 6)
      × (total k.task_bitmap ≡ k.runn_task_num)
      × ((k.runn_task_num ≡ 0)
          ⊎ ((k.curr_task_pos < 6)
              × (get_or k.task_bitmap k.curr_task_pos 0 ≡ 1)
              × ((o : ℕ)
                  → o < 0x400000
                  → translate true k.paging (0x8000000 + o)
                    ≡ some (0x800000 + 0x400000 * k.curr_task_pos + o))))
own_page_cases room k [] h = let run = h.running in (omega arith, h.counted ∙ sym run, inl run)
own_page_cases room k (i ∷ s) h =
    let run = h.running in
    let few = Represents-length room k (i ∷ s) h in
    let (curr, _, _) = h.current in
    let slot = IsChain-lt k.pcbs i s h.chain in
    let bit = h.bits i slot in
    (
      omega arith,
      h.counted ∙ sym run,
      inr (
        omega arith,
        ap (λ c. get_or k.task_bitmap c 0) curr ∙ bit ∙ ground arith,
        λ o lt. own_page room k i s o h lt,
      ),
    )

-- In every state that these calls reach, at most six tasks run, as many as the bitmap has bits; and
-- while one runs, its slot is below 6 and marked in the bitmap, and the user's 4 MB from 0x8000000 on
-- stand for the memory from 0x800000 + 0x400000 * slot on.
pub Reach-own_page :
    (room : ℕ) (first k : Kernel)
    → IsBooted room first
    → Reach first k
    → (k.runn_task_num ≤ 6)
      × (total k.task_bitmap ≡ k.runn_task_num)
      × ((k.runn_task_num ≡ 0)
          ⊎ ((k.curr_task_pos < 6)
              × (get_or k.task_bitmap k.curr_task_pos 0 ≡ 1)
              × ((o : ℕ)
                  → o < 0x400000
                  → translate true k.paging (0x8000000 + o)
                    ≡ some (0x800000 + 0x400000 * k.curr_task_pos + o))))
Reach-own_page room first k booted r =
    let (s, h) = Reach-Represents room first k booted r in own_page_cases room k s h
