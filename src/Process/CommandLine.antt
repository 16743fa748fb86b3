-- ===== src/Process/CommandLine.antt =====
-- What `execute` of student-distrib/syscall.c takes from a command line.
use linux_simulation.Base.{
  ℕ, zero, suc, ◌+◌, ◌-◌, ◌≤◌, ◌<◌, ◌≡◌, inr, refl, ◌∙◌, some, List, get_or, length, ◌≢◌, sym, ap,
  replicate, get_elem?-eq-get_or, arith,
}
use linux_simulation.Process.Command.{parse_args, parse_command, parse_line}
use linux_simulation.CString.{Reader, strlen, strcpy}
use linux_simulation.CString.Length.{IsString, strlen-IsString_iff}
use linux_simulation.CString.Copy.{strcpy-CopiedFrom}
use linux_simulation.Process.Parsing.{HasPart, parse_args-HasPart, parse_command-HasPart}

get_or-replicate : (n j : ℕ) → get_or (replicate {A = ℕ} n 0) j 0 ≡ 0
get_or-replicate zero j = refl
get_or-replicate (suc n) zero = refl
get_or-replicate (suc n) (suc j) = get_or-replicate n j

-- A command line of `n` bytes: spaces up to `a`, a command up to `b`, spaces up to `c`, and arguments
-- that begin with another character, or none.
pub record IsCommandLine (command : Reader) (a b c n : ℕ) : Type 0 where
  pub string : IsString command n
  pub some_command : a < b
  pub command_inside : b ≤ c
  pub args_inside : c ≤ n
  pub front : (k : ℕ) → k < a → command k ≡ some 0x20
  pub word : (k : ℕ) → a ≤ k → k < b → command k ≢ some 0x20
  pub gap : (k : ℕ) → b ≤ k → k < c → command k ≡ some 0x20
  pub gap_before_args : b < n → b < c
  pub args : c < n → command c ≢ some 0x20

-- `buf` holds the bytes of the line from `from` up to `to`, and zeros behind.
pub record HoldsPart (command : Reader) (from to : ℕ) (buf : List ℕ) : Type 0 where
  pub part : (j : ℕ) → from + j < to → command (from + j) ≡ some (get_or buf j 0)
  pub zeros : (j : ℕ) → to - from ≤ j → get_or buf j 0 ≡ 0

-- A part of the line that was copied into a cleared buffer.
HoldsPart-HasPart :
    (command : Reader) (line : List ℕ) (size from to n : ℕ) (out : List ℕ)
    → ((j : ℕ) → j ≤ n → command j ≡ some (get_or line j 0))
    → to ≤ n
    → HasPart line (replicate size 0) from to 0 out
    → HoldsPart command from to out
HoldsPart-HasPart command line size from to n out at le t = record {
  part = λ j inside.
      at (from + j) (omega arith)
      ∙ ap some (
          sym (t.taken j inside) ∙ ap (λ m. get_or out m 0) (let e : 0 + j ≡ j = omega arith in e));
  zeros = λ j behind. t.kept j (inr (omega arith)) ∙ get_or-replicate size j;
}

parse_line_runs :
    (command : Reader) (line : List ℕ) (n b : ℕ) (cmd args : List ℕ)
    → strcpy (replicate 128 0) command ≡ some line
    → strlen command ≡ some n
    → parse_command n line 0 0 (replicate 20 0) 0 ≡ some (cmd, b)
    → parse_args (n - b) line b 0 (replicate 30 0) 0 ≡ some args
    → parse_line command ≡ some (cmd, args)
unfolding parse_line
parse_line_runs command line n b cmd args copies len parses takes =
    rw copies (rw len (rw parses (rw takes refl)))

-- `execute` divides a command line of less than 128 bytes, with a command of less than 20 and
-- arguments of less than 30: it takes the command without the spaces in front of it, and the
-- arguments from their first character to the end of the line, each with zeros behind.
pub parse_line-HoldsPart :
    (command : Reader) (a b c n : ℕ)
    → IsCommandLine command a b c n
    → n < 128
    → b - a < 20
    → n - c < 30
    → (first_cmd : List ℕ) × (getargbuf : List ℕ) × (parse_line command
        ≡ some (first_cmd, getargbuf))
      × HoldsPart command a b first_cmd
      × HoldsPart command c n getargbuf
parse_line-HoldsPart command a b c n h short short_cmd short_args =
    let lt = h.some_command in
    let le = h.command_inside in
    let most = h.args_inside in
    let (line, copies, cf) =
      strcpy-CopiedFrom (replicate 128 0) command n (omega arith) h.string (omega arith) in
    let size : length line ≡ 128 = cf.same_length in
    let len = (strlen-IsString_iff command n (omega arith)).1 h.string in
    let at : (j : ℕ) → j ≤ n → command j ≡ some (get_or line j 0) = λ j inside.
      sym (cf.copied j (omega arith) inside) ∙ get_elem?-eq-get_or line j 0 (omega arith) in
    let is_space : (k : ℕ) → k ≤ n → command k ≡ some 0x20 → get_or line k 0 ≡ 0x20 =
      λ k inside e. let f = at k inside in cc in
    let no_space : (k : ℕ) → k ≤ n → command k ≢ some 0x20 → get_or line k 0 ≢ 0x20 =
      λ k inside ne e. ne (at k inside ∙ ap some e) in
    let (cmd, parses, t) =
      parse_command-HasPart n line 0 a b n (replicate 20 0) (omega arith) (omega arith) lt
        (omega arith) (omega arith) (omega arith)
        (λ k lo hi. is_space k (omega arith) (h.front k hi))
        (λ k lo hi. no_space k (omega arith) (h.word k lo hi))
        (λ inside. is_space b (omega arith) (h.gap b (omega arith) (h.gap_before_args inside)))
        (get_or-replicate 20) in
    let (args, takes, u) =
      parse_args-HasPart (n - b) line b c n (replicate 30 0) (omega arith) le most (omega arith)
        (omega arith) (λ k lo hi. is_space k (omega arith) (h.gap k lo hi))
        (λ inside. no_space c (omega arith) (h.args inside)) in
    (
      cmd,
      args,
      parse_line_runs command line n b cmd args copies len parses takes,
      HoldsPart-HasPart command line 20 a b n cmd at (omega arith) t,
      HoldsPart-HasPart command line 30 c n n args at (omega arith) u,
    )
