-- ===== src/Scheduler.antt =====
-- student-distrib/sche.c: the choice of the next process, and the handler of the timer's tick.
--
-- The running states of the six process control blocks are a list; `none` is an access outside it.
-- `scheduling_handler` returns at once, so that its switch of stacks is never reached.
pub mod Choice
mod Tests
use linux_simulation.Base.{
  ℕ, zero, suc, ◌+◌, ◌-◌, ◌%◌, Option, none, some, List, ◌>>=◌, ◌==◌, if◌then◌else◌, minus_one,
  get_elem?,
}

abbrev pub max_num_task : ℕ
max_num_task = 6

-- The loop from `i` on, `left` rounds before its end; -1 in 32 bits, where the source has an `int8_t`.
pub next_from : ℕ → List ℕ → ℕ → ℕ → Option ℕ
next_from zero running_states curr_task_pos i = some minus_one
next_from (suc left) running_states curr_task_pos i = do
  let next_task_pos = (curr_task_pos + i) % (max_num_task - 1)
  running_state ← get_elem? running_states next_task_pos
  let rest = next_from left running_states curr_task_pos (i + 1)
  if running_state == 0 then rest else some next_task_pos

pub get_next_availble_process : List ℕ → ℕ → Option ℕ
get_next_availble_process running_states curr_task_pos =
    next_from (max_num_task - 1) running_states curr_task_pos 1

-- `scheduling_handler`: the `return` in front of everything makes it do nothing.
abbrev pub scheduling_handler : {A : Type 0} → A → A
scheduling_handler state = state
