-- ===== src/Tasks/Tests.antt =====
-- The theorems on the tasks of student-distrib/syscall.c, on an image with a program of 30 bytes.
use linux_simulation.Base.{
  ℕ, ◌+◌, ◌*◌, ◌≤◌, ◌<◌, ◌≡◌, ◌⊎◌, inl, refl, true, some, List, [], ◌∷◌, ◌==◌, get_elem?, get_or,
  replicate, length, minus_one, arith,
}
use linux_simulation.Base.Bits.{all_below, all_below_sound}
use linux_simulation.CString.{bytes_of}
use linux_simulation.Examples.{name_a}
use linux_simulation.Paging.Walk.{translate}
use linux_simulation.Process.{Pcb, empty_pcb, pcb_init}
use linux_simulation.Tasks.{Kernel, returns, enters, resumes}
use linux_simulation.Tasks.Execute.{execute}
use linux_simulation.Tasks.Ending.{halt-pops}
use linux_simulation.Tasks.Halt.{halt}
use linux_simulation.Tasks.Pushing.{Pushes}
use linux_simulation.Tasks.Reachable.{Reach-Represents, Reach-own_page}
use linux_simulation.Tasks.Refinement.{execute-Pushes, halt-execute}
use linux_simulation.Tasks.Slots.{IsFirstFree}
use linux_simulation.Tasks.Steps.{Reach, here, next, executes, IsBooted-Represents}
use linux_simulation.Tasks.Success.{execute-enters}
use linux_simulation.Tasks.Stack.{total, Represents}
use linux_simulation.Tasks.Examples.{
  program_image, program_a, command_a, line_a_parses, file_a_checks, boot_kernel,
  boot_kernel-IsBooted, kernel, kernel-Represents, names_size, no_args-IsString, stack_0,
  with_child,
}

execute-enters_example :
    (k' : Kernel) × (slot : ℕ) × (execute kernel (some (bytes_of name_a)) stack_0 stack_0
      ≡ some (k', enters 0x18))
    × IsFirstFree (0 ∷ []) slot
    × Represents 30 k' (slot ∷ 0 ∷ [])
execute-enters_example =
    execute-enters 30 kernel (0 ∷ []) (bytes_of name_a) command_a (replicate 30 0)
      (record (program_image) { file_pos_keeper = 1 }) program_a stack_0 stack_0 0 kernel-Represents
      (omega arith) refl line_a_parses file_a_checks names_size no_args-IsString (omega arith)

execute-Pushes_example :
    ((enters 0x18 ≡ returns minus_one) × Represents 30 with_child.0 (0 ∷ []))
    ⊎ Pushes 30 (0 ∷ []) stack_0 stack_0 with_child.0 (enters 0x18)
execute-Pushes_example =
    execute-Pushes 30 kernel (0 ∷ []) (some (bytes_of name_a)) stack_0 stack_0
      (with_child.0, enters 0x18) kernel-Represents refl with_child.2

halt-execute_example :
    (k'' : Kernel) × (halt with_child.0 255 ≡ some (k'', resumes stack_0 stack_0 256))
    × Represents 30 k'' (0 ∷ [])
halt-execute_example =
    halt-execute 30 kernel with_child.0 0 [] (bytes_of name_a) stack_0 stack_0 0x18 255
      kernel-Represents refl with_child.2

halt-pops_example :
    (k'' : Kernel) × (pcb : Pcb) × (get_elem? with_child.0.pcbs with_child.1 ≡ some pcb)
    × (halt with_child.0 3 ≡ some (k'', resumes pcb.parent_esp pcb.parent_ebp 3))
    × Represents 30 k'' (0 ∷ [])
halt-pops_example = halt-pops 30 with_child.0 with_child.1 0 [] 3 with_child.4

boot_names_size : (i : ℕ) → i < 6 → length (get_or boot_kernel.pcbs i empty_pcb).file_names ≡ 256
boot_names_size i lt =
    let t =
      all_below_sound 6 (λ i. length (get_or pcb_init i empty_pcb).file_names == 256) i
        (unfold all_below in refl) lt in
    ground arith

-- The first program, started in the kernel that has just booted.
abbrev first_started :
    (k' : Kernel) × (slot : ℕ) × (execute boot_kernel (some (bytes_of name_a)) stack_0 stack_0
      ≡ some (k', enters 0x18))
    × IsFirstFree [] slot
    × Represents 30 k' (slot ∷ [])
first_started =
    execute-enters 30 boot_kernel [] (bytes_of name_a) command_a (replicate 30 0)
      (record (program_image) { file_pos_keeper = 1 }) program_a stack_0 stack_0 0
      (IsBooted-Represents 30 boot_kernel boot_kernel-IsBooted) (omega arith) tt line_a_parses
      file_a_checks boot_names_size no_args-IsString (omega arith)

first_reached : Reach boot_kernel first_started.0
first_reached =
    next here
      (executes (some (bytes_of name_a)) stack_0 stack_0 (enters 0x18) (inl refl) first_started.2)

Reach-Represents_example : (s : List ℕ) × Represents 30 first_started.0 s
Reach-Represents_example =
    Reach-Represents 30 boot_kernel first_started.0 boot_kernel-IsBooted first_reached

Reach-own_page_example :
    (first_started.0.runn_task_num ≤ 6)
    × (total first_started.0.task_bitmap ≡ first_started.0.runn_task_num)
    × ((first_started.0.runn_task_num ≡ 0)
        ⊎ ((first_started.0.curr_task_pos < 6)
            × (get_or first_started.0.task_bitmap first_started.0.curr_task_pos 0 ≡ 1)
            × ((o : ℕ)
                → o < 0x400000
                → translate true first_started.0.paging (0x8000000 + o)
                  ≡ some (0x800000 + 0x400000 * first_started.0.curr_task_pos + o))))
Reach-own_page_example =
    Reach-own_page 30 boot_kernel first_started.0 boot_kernel-IsBooted first_reached
