-- ===== src/Process/Command.antt =====
-- How `execute` of student-distrib/syscall.c divides a command line into the command and its
-- arguments.
--
-- A line is the array `arg_line` of 128 bytes with the command copied into it, and `len` is the
-- command's length. `none` is an access outside one of the three arrays.
use linux_simulation.Base.{
  ℕ, zero, suc, ◌+◌, ◌-◌, Option, some, List, ◌>>=◌, ◌==◌, ◌&&◌, if◌then◌else◌, store, get_elem?,
  replicate,
}
use linux_simulation.CString.{Reader, strlen, strcpy}

-- The first loop at `i`: `first_cmd` as it is filled, and the index where the loop ends.
unfoldable pub parse_command : ℕ → List ℕ → ℕ → ℕ → List ℕ → ℕ → Option (List ℕ × ℕ)
parse_command zero arg_line i space_indicator first_cmd first_cmd_index = some (first_cmd, i)
parse_command (suc left) arg_line i space_indicator first_cmd first_cmd_index = do
  c ← get_elem? arg_line i
  let skip = parse_command left arg_line (i + 1) space_indicator first_cmd first_cmd_index
  let keep = store first_cmd first_cmd_index c >>= λ cmd.
      parse_command left arg_line (i + 1) 1 cmd (first_cmd_index + 1)
  let stop = store first_cmd first_cmd_index 0 >>= λ cmd. some (cmd, i)
  if c == 0x20 then if space_indicator == 0 then skip else stop else keep

-- The second loop at `j`: the spaces in front of the arguments are left out, those behind are kept.
unfoldable pub parse_args : ℕ → List ℕ → ℕ → ℕ → List ℕ → ℕ → Option (List ℕ)
parse_args zero arg_line j space_indicator getargbuf index = some getargbuf
parse_args (suc left) arg_line j space_indicator getargbuf index = do
  c ← get_elem? arg_line j
  let skip = parse_args left arg_line (j + 1) space_indicator getargbuf index
  let keep = store getargbuf index c >>= λ buf. parse_args left arg_line (j + 1) 1 buf (index + 1)
  if c == 0x20 && space_indicator == 0 then skip else keep

-- The command and its arguments.
unfoldable pub parse_line : Reader → Option (List ℕ × List ℕ)
parse_line command = do
  arg_line ← strcpy (replicate 128 0) command
  len ← strlen command
  first ← parse_command len arg_line 0 0 (replicate 20 0) 0
  args ← parse_args (len - first.1) arg_line first.1 0 (replicate 30 0) 0
  some (first.0, args)
