-- ===== src/Programs/Tests.antt =====
-- The theorem on the shell of syscalls/, where a screen is written and there is no program.
use linux_simulation.Base.{ℕ, ◌≡◌, none, some, List, [], ◌∷◌, ◌++◌, codes, arith}
use linux_simulation.Programs.{Calls, shell_line}
use linux_simulation.Programs.Commands.{shell_line-executes}
use linux_simulation.Base.{refl, minus_one, zero, suc, ◌+◌, Option}
use linux_simulation.CString.{Reader}

abbrev byte_of : Option ℕ → ℕ
byte_of none = 0
byte_of (some b) = b

abbrev gather : Reader → ℕ → ℕ → List ℕ
gather s i zero = []
gather s i (suc n) = byte_of (s i) ∷ gather s (i + 1) n

-- The state is what stands on the screen.
abbrev desk : Calls (List ℕ)
desk = record {
  ece391_read = λ w fd buf n. (w, buf, minus_one);
  ece391_write = λ w fd s n. (w ++ gather s 0 n, n);
  ece391_execute = λ w s. (w, minus_one);
}

shell_line-executes_example :
    shell_line desk [] (codes "ls" ++ 0x0A ∷ []) 3
    ≡ some (codes "no such command" ++ 0x0A ∷ [], codes "ls" ++ 0 ∷ [], none)
shell_line-executes_example = shell_line-executes desk [] (codes "ls") [] refl (omega arith)
