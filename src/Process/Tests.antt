-- ===== src/Process/Tests.antt =====
-- The theorems on the files of student-distrib/syscall.c, at a process that reads a file.
use linux_simulation.Base.{
  ℕ, ◌≤◌, ◌<◌, ◌≡◌, ◌⊎◌, refl, some, none, List, arith, replicate, set, minus_one,
}
use linux_simulation.CString.{bytes_of}
use linux_simulation.CString.Length.{IsString}
use linux_simulation.CString.Copy.{CopiedFrom}
use linux_simulation.Process.Calls.{OpensOne}
use linux_simulation.Process.{Process, closed_node}
use linux_simulation.Process.Files.{sys_close, getargs}
use linux_simulation.Process.Closing.{IsProcess}
use linux_simulation.Process.Invariant.{
  sys_open-IsProcess, sys_close-IsProcess, sys_close-sys_open, sys_close_null,
}
use linux_simulation.Base.{zero, suc, ◌∷◌, ◌≢◌, [], Option}
use linux_simulation.Process.Command.{parse_line}
use linux_simulation.Process.CommandLine.{IsCommandLine, HoldsPart, parse_line-HoldsPart}
use linux_simulation.Process.Args.{getargs-CopiedFrom}
use linux_simulation.Examples.{shell, shell-IsProcess, reading_shell, shell_opens, name_a}

sys_open-IsProcess_example : IsProcess reading_shell × OpensOne shell reading_shell 2
sys_open-IsProcess_example =
    sys_open-IsProcess shell reading_shell (bytes_of name_a) 2 shell-IsProcess shell_opens

reading_shell-IsProcess : IsProcess reading_shell
reading_shell-IsProcess =
    (sys_open-IsProcess shell reading_shell (bytes_of name_a) 2 shell-IsProcess shell_opens).0

sys_close-IsProcess_example :
    (q : Process) × (sys_close reading_shell 2 ≡ some (q, 0))
    × (q.pcb.file_array ≡ set reading_shell.pcb.file_array 2 closed_node)
    × IsProcess q
sys_close-IsProcess_example =
    sys_close-IsProcess reading_shell 2 reading_shell-IsProcess (omega arith) (omega arith) refl

sys_close-sys_open_example :
    (s : Process) × (sys_close reading_shell 2 ≡ some (s, 0))
    × (s.pcb.file_array ≡ shell.pcb.file_array)
    × (s.pcb.open_file_num ≡ 2)
sys_close-sys_open_example =
    sys_close-sys_open shell reading_shell (bytes_of name_a) 2 shell-IsProcess shell_opens
      (omega arith) (omega arith)

sys_close_null_example : sys_close reading_shell 3 ≡ none
sys_close_null_example =
    sys_close_null reading_shell 3 reading_shell-IsProcess (omega arith) (omega arith) refl
      (omega arith)

abbrev args_length : ℕ
args_length = 1

shell_args : IsString (bytes_of shell.pcb.arg_buffer) 1
shell_args = record {
  before = omega arith;
  inside = λ j lo hi. let e : j ≡ 0 = omega arith in (0x61, rw e refl, omega arith);
  at_end = refl;
}

getargs-CopiedFrom_example :
    ((0 < 1)
      × (1 ≤ 4)
      × (out : List ℕ) × (getargs shell (some (replicate 4 0)) 4 ≡ some (some out, 0))
      × CopiedFrom (replicate 4 0) (bytes_of shell.pcb.arg_buffer) 0 1 out)
    ⊎ (((args_length ≡ 0) ⊎ (4 < 1))
        × (getargs shell (some (replicate 4 0)) 4 ≡ some (some (replicate 4 0), minus_one)))
getargs-CopiedFrom_example =
    getargs-CopiedFrom shell (replicate 4 0) 1 4 (omega arith) shell_args (omega arith)

-- A space, the command a, a space, and the argument b.
abbrev line_a_b : List ℕ
line_a_b = 32 ∷ 97 ∷ 32 ∷ 98 ∷ 0 ∷ []

line_a_b-chars : (j : ℕ) → j < 4 → (c : ℕ) × (bytes_of line_a_b j ≡ some c) × (c ≢ 0)
line_a_b-chars zero lt = (32, refl, omega arith)
line_a_b-chars (suc zero) lt = (97, refl, omega arith)
line_a_b-chars (suc (suc zero)) lt = (32, refl, omega arith)
line_a_b-chars (suc (suc (suc zero))) lt = (98, refl, omega arith)
line_a_b-chars (suc (suc (suc (suc j)))) lt = absurd (omega arith)

letter_not_space : (c : ℕ) → c ≢ 32 → ◌≢◌ {A = Option ℕ} (some c) (some 32)
letter_not_space c ne e = ne cc

line_a_b-IsCommandLine : IsCommandLine (bytes_of line_a_b) 1 2 3 4
line_a_b-IsCommandLine = record {
  string = record { before = omega arith; inside = λ j lo hi. line_a_b-chars j hi; at_end = refl };
  some_command = omega arith;
  command_inside = omega arith;
  args_inside = omega arith;
  front = λ k lt. let e : k ≡ 0 = omega arith in rw e refl;
  word = λ k lo hi. let e : k ≡ 1 = omega arith in rw e (letter_not_space 97 (omega arith));
  gap = λ k lo hi. let e : k ≡ 2 = omega arith in rw e refl;
  gap_before_args = λ lt. omega arith;
  args = λ lt. letter_not_space 98 (omega arith);
}

parse_line-HoldsPart_example :
    (first_cmd : List ℕ) × (getargbuf : List ℕ) × (parse_line (bytes_of line_a_b)
      ≡ some (first_cmd, getargbuf))
    × HoldsPart (bytes_of line_a_b) 1 2 first_cmd
    × HoldsPart (bytes_of line_a_b) 3 4 getargbuf
parse_line-HoldsPart_example =
    parse_line-HoldsPart (bytes_of line_a_b) 1 2 3 4 line_a_b-IsCommandLine (omega arith)
      (omega arith) (omega arith)
