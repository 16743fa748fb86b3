-- ===== src/Process/Args.antt =====
-- `getargs` of student-distrib/syscall.c: the argument string of a process, handed to the program.
use linux_simulation.Base.{
  ℕ, ◌≤◌, ◌<◌, ◌^◌, ◌≡◌, ◌⊎◌, inl, inr, refl, false, Bool-cases, ◌||◌, none, some, List, ◌==◌, ltb,
  length, minus_one, arith,
}
use linux_simulation.CString.{bytes_of, strlen}
use linux_simulation.CString.Length.{IsString, strlen-IsString_iff}
use linux_simulation.CString.Copy.{CopiedFrom, strcpy-CopiedFrom, strcpy_overflow}
use linux_simulation.Process.{Process}
use linux_simulation.Process.Files.{getargs}

module _ (p : Process) (buf : List ℕ) (n nbytes : ℕ) (small : n < 2 ^ 32)
    (args : IsString (bytes_of p.pcb.arg_buffer) n) where
  args-strlen : strlen (bytes_of p.pcb.arg_buffer) ≡ some n
  args-strlen = (strlen-IsString_iff (bytes_of p.pcb.arg_buffer) n small).1 args

  -- With an argument string of `n` bytes, a buffer with room for it and its zero: `getargs` copies the
  -- string and returns 0 when `n` is above 0 and at most `nbytes`; else it returns -1, and the buffer
  -- is as it was.
  pub getargs-CopiedFrom :
      n < length buf
      → ((0 < n)
          × (n ≤ nbytes)
          × (out : List ℕ) × (getargs p (some buf) nbytes ≡ some (some out, 0))
          × CopiedFrom buf (bytes_of p.pcb.arg_buffer) 0 n out)
        ⊎ (((n ≡ 0) ⊎ (nbytes < n)) × (getargs p (some buf) nbytes ≡ some (some buf, minus_one)))
  unfolding getargs
  getargs-CopiedFrom room =
      let (out, runs, copied) =
        strcpy-CopiedFrom buf (bytes_of p.pcb.arg_buffer) n small args room in
      elim (Bool-cases (ltb nbytes n || n == 0)) [
        | inl refused ↦ elim (Bool-cases (nbytes == 0)) [
          | inl nothing ↦ inr (ground arith, rw nothing refl)
          | inr something ↦ inr (ground arith, rw something (rw args-strlen (rw refused refl)))
        ]
        | inr taken ↦
            let something : (nbytes == 0) ≡ false = ground arith in
            inl (
              ground arith,
              ground arith,
              out,
              rw something (rw args-strlen (rw taken (rw runs refl))),
              copied,
            )
      ]

  -- `getargs` with a buffer of `nbytes` bytes and an argument string of just as many: the zero behind
  -- the string is written past the buffer, which is undefined.
  getargs_overrun : 0 < n → nbytes ≡ n → length buf ≡ nbytes → getargs p (some buf) nbytes ≡ none
  unfolding getargs
  getargs_overrun above same full =
      let past = strcpy_overflow buf (bytes_of p.pcb.arg_buffer) n args (omega arith) in
      let something : (nbytes == 0) ≡ false = ground arith in
      let taken : (ltb nbytes n || n == 0) ≡ false = ground arith in
      rw something (rw args-strlen (rw taken (rw past refl)))
