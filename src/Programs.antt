-- ===== src/Programs.antt =====
-- syscalls/: the programs ece391hello.c and ece391shell.c.
--
-- The system calls are a record of functions on the state of the kernel: the stubs by which a program
-- makes them stand in assembly. A call that fills a buffer gives the new buffer. The loops, which end
-- by what the calls return, have a number of rounds; `none` is an access outside an array, or a loop
-- that has not ended by then.
pub mod Commands
mod Tests
use linux_simulation.Base.{
  ℕ, zero, suc, ◌+◌, ◌-◌, ◌^◌, ◌&&◌, Option, none, some, List, [], ◌∷◌, ◌++◌, codes, ◌>>=◌, ◌==◌,
  if◌then◌else◌, minus_one, lt_signed, store, get_elem?, get_or, replicate,
}
use linux_simulation.CString.{Reader, bytes_of}
use linux_simulation.UserLib.{ece391_fdputs, ece391_strcmp}

-- The system calls that the two programs make, on a state of the kernel and of what stands outside.
pub record Calls (W : Type 0) : Type 0 where
  pub ece391_read : W → ℕ → List ℕ → ℕ → W × List ℕ × ℕ
  pub ece391_write : W → ℕ → Reader → ℕ → W × ℕ
  pub ece391_execute : W → Reader → W × ℕ

-- The line without the newline at its end: `cnt` after the test.
pub line_end : List ℕ → ℕ → Option ℕ
line_end buf cnt =
    let tested = do ch ← get_elem? buf (cnt - 1); some (if ch == 0x0A then cnt - 1 else cnt)
    in if lt_signed 0 cnt then tested else some cnt

module _ {W : Type 0} (c : Calls W) where
  -- `ece391_fdputs(1, text)`
  abbrev pub say : W → List ℕ → Option W
  say w text = ece391_fdputs (c.ece391_write w) 1 (bytes_of (text ++ 0 ∷ [])) >>= λ out. some out.0

  -- A text, and then the end with a result.
  abbrev pub quit : W → List ℕ → ℕ → Option (W × ℕ)
  quit w text r = say w text >>= λ w'. some (w', r)

  -- The `main` of ece391hello.c.
  unfoldable pub hello : W → List ℕ → Option (W × ℕ)
  hello w buf = do
    w1 ← say w (codes "Hi, what's your name? ")
    let reading = c.ece391_read w1 0 buf 1023
    let failed = quit reading.0 (codes "Can't read name from keyboard." ++ 0x0A ∷ []) 3
    let greeting = do
      buf' ← store reading.1 reading.2 0
      w2 ← say reading.0 (codes "Hello, ")
      out ← ece391_fdputs (c.ece391_write w2) 1 (bytes_of buf')
      some (out.0, 0)
    if reading.2 == minus_one then failed else greeting

  -- What the shell says of the result of a command.
  unfoldable pub report : W → ℕ → Option W
  report w rval =
      if rval == minus_one
      then say w (codes "no such command" ++ 0x0A ∷ [])
      else if rval == 256
      then say w (codes "program terminated by exception" ++ 0x0A ∷ [])
      else if rval == 0
      then some w
      else say w (codes "program terminated abnormally" ++ 0x0A ∷ [])

  -- A round of the shell on a line that was read: the shell ends with a result, or goes on.
  pub shell_line : W → List ℕ → ℕ → Option (W × List ℕ × Option ℕ)
  shell_line w buf cnt = do
    end ← line_end buf cnt
    line ← store buf end 0
    order ← ece391_strcmp (bytes_of line) (bytes_of (codes "exit" ++ 0 ∷ []))
    first ← get_elem? line 0
    let running = c.ece391_execute w (bytes_of line)
    let told = report running.0 running.1 >>= λ w'. some (w', line, none)
    if order == 0 then some (w, line, some 0) else if first == 0 then some (w, line, none) else told

  unfoldable pub shell_loop : ℕ → W → List ℕ → Option (W × ℕ)
  shell_loop zero w buf = none
  shell_loop (suc rounds) w buf = do
    w1 ← say w (codes "391OS> ")
    let reading = c.ece391_read w1 0 buf 1023
    let failed = quit reading.0 (codes "read from keyboard failed" ++ 0x0A ∷ []) 3
    let answered = do
      out ← shell_line reading.0 reading.1 reading.2
      let rest = shell_loop rounds out.0 out.1
      elim out.2 [ none ↦ rest | some r ↦ some (out.0, r) ]
    if reading.2 == minus_one then failed else answered

  -- The `main` of ece391shell.c.
  unfoldable pub shell : ℕ → W → List ℕ → Option (W × ℕ)
  shell rounds w buf =
      say w (codes "Starting 391 Shell" ++ 0x0A ∷ []) >>= λ w1. shell_loop rounds w1 buf
