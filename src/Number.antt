-- ===== src/Number.antt =====
-- student-distrib/lib.c: itoa and strrev.
--
-- `none` is an access outside an array, or a division by zero.
pub mod Reverse
pub mod Written
pub mod Digits
pub mod Few
mod Tests
use linux_simulation.Base.{
  ℕ, zero, suc, ◌+◌, ◌-◌, ◌/◌, ◌%◌, ◌^◌, Option, none, some, List, [], ◌∷◌, ◌++◌, ◌>>=◌, ◌==◌, ltb,
  if◌then◌else◌, lt_signed, sub32, store, get_elem?, codes,
}
use linux_simulation.CString.{bytes_of, strlen}

-- The loop of `strrev`. Each round brings `beg` and `end` closer by two, so that as many rounds as
-- the string has bytes are enough.
unfoldable pub reverse_loop : ℕ → List ℕ → ℕ → ℕ → Option (List ℕ)
reverse_loop zero s beg end = some s
reverse_loop (suc fuel) s beg end =
    let body = do
      tmp ← get_elem? s end
      c ← get_elem? s beg
      s' ← store s end c
      s'' ← store s' beg tmp
      reverse_loop fuel s'' (beg + 1) (end - 1)
    in if lt_signed beg end then body else some s

unfoldable pub strrev : List ℕ → Option (List ℕ)
strrev s = strlen (bytes_of s) >>= λ len. reverse_loop len s 0 (sub32 len 1)

abbrev pub lookup : List ℕ
lookup = codes "0123456789ABCDEFGHIJKLMNOPQRSTUVWXYZ" ++ 0 ∷ []

-- The loop of `itoa` with `newbuf` at the index `pos`, which it returns with the buffer. A radix of
-- 1 leaves the number as it is: the fuel then ends, where the loop goes on.
unfoldable pub digits_loop : ℕ → ℕ → ℕ → ℕ → List ℕ → Option (List ℕ × ℕ)
digits_loop zero newval radix pos buf = if newval == 0 then some (buf, pos) else none
digits_loop (suc fuel) newval radix pos buf =
    let body = do
      digit ← get_elem? lookup (newval % radix)
      buf' ← store buf pos digit
      digits_loop fuel (newval / radix) radix (pos + 1) buf'
    in if newval == 0 then some (buf, pos) else if radix == 0 then none else body

unfoldable pub itoa : ℕ → List ℕ → ℕ → Option (List ℕ)
itoa value buf radix =
    let number = do
      written ← digits_loop 32 value radix 0 buf
      ended ← store written.0 written.1 0
      strrev ended
    in let nothing = store buf 0 0x30 >>= λ buf'. store buf' 1 0 in
      if value == 0 then nothing else number
