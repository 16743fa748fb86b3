-- ===== src/UserLib.antt =====
-- syscalls/ece391support.c: the string functions that the programs are linked with.
--
-- `none` is an access outside an array, a division by zero, or a loop that does not end. The system
-- call `ece391_write` stands in assembly, and is an argument.
pub mod Agreement
mod Tests
use linux_simulation.Base.{
  ℕ, zero, suc, ◌+◌, ◌-◌, ◌/◌, ◌%◌, ◌^◌, ◌||◌, Option, none, some, List, [], ◌∷◌, ◌++◌, ◌>>=◌, ◌==◌,
  if◌then◌else◌, is_negative, lt_signed, sub32, store, get_elem?, codes,
}
use linux_simulation.CString.{Reader, bytes_of}

-- `for (len = 0; '\0' != *s; s++, len++);`, with as many rounds as there are addresses.
unfoldable pub length_loop : ℕ → Reader → ℕ → Option ℕ
length_loop zero s len = none
length_loop (suc rounds) s len = do
  c ← s len
  let further = length_loop rounds s (len + 1)
  if c == 0 then some len else further

unfoldable pub ece391_strlen : Reader → Option ℕ
ece391_strlen s = length_loop (2 ^ 32) s 0

-- `while ('\0' != (*dst++ = *src++));` at the index `i`
unfoldable pub copy_loop : ℕ → List ℕ → Reader → ℕ → Option (List ℕ)
copy_loop zero dst src i = none
copy_loop (suc rounds) dst src i = do
  c ← src i
  dst' ← store dst i c
  let further = copy_loop rounds dst' src (i + 1)
  if c == 0 then some dst' else further

pub ece391_strcpy : List ℕ → Reader → Option (List ℕ)
ece391_strcpy dst src = copy_loop (2 ^ 32) dst src 0

unfoldable pub ece391_fdputs {ℓ} : {A : Type ℓ} → (ℕ → Reader → ℕ → A) → ℕ → Reader → Option A
ece391_fdputs ece391_write fd s = ece391_strlen s >>= λ len. some (ece391_write fd s len)

unfoldable pub compare_loop : ℕ → Reader → Reader → ℕ → Option ℕ
compare_loop zero s1 s2 i = none
compare_loop (suc rounds) s1 s2 i = do
  a ← s1 i
  b ← s2 i
  let further = compare_loop rounds s1 s2 (i + 1)
  if a == b then if a == 0 then some 0 else further else some (sub32 a b)

unfoldable pub ece391_strcmp : Reader → Reader → Option ℕ
ece391_strcmp s1 s2 = compare_loop (2 ^ 32) s1 s2 0

-- The loop of `ece391_strncmp` at the index `i`, with `n` above 0; the result for 0 is the `return 0`
-- in front of it.
pub compare_up_to : ℕ → Reader → Reader → ℕ → Option ℕ
compare_up_to zero s1 s2 i = some 0
compare_up_to (suc n) s1 s2 i = do
  a ← s1 i
  b ← s2 i
  let further = compare_up_to n s1 s2 (i + 1)
  if a == b then if a == 0 || n == 0 then some 0 else further else some (sub32 a b)

pub ece391_strncmp : Reader → Reader → ℕ → Option ℕ
ece391_strncmp s1 s2 n = compare_up_to n s1 s2 0

-- `while (beg < end)`, which has fewer rounds than the string has bytes.
pub swap_loop : ℕ → List ℕ → ℕ → ℕ → Option (List ℕ)
swap_loop zero s beg end = some s
swap_loop (suc rounds) s beg end =
    let swapped = do
      tmp ← get_elem? s end
      c ← get_elem? s beg
      first ← store s end c
      second ← store first beg tmp
      swap_loop rounds second (beg + 1) (end - 1)
    in if lt_signed beg end then swapped else some s

pub ece391_strrev : List ℕ → Option (List ℕ)
ece391_strrev s = do
  len ← ece391_strlen (bytes_of s)
  let end = sub32 len 1
  let loop = swap_loop len s 0 end
  if is_negative end || end == 0 then some s else loop

abbrev pub digit_table : List ℕ
digit_table = codes "0123456789ABCDEFGHIJKLMNOPQRSTUVWXYZ" ++ 0 ∷ []

-- `while (newval > 0)` with `newbuf` at the index `pos`; a radix from 2 on needs at most 32 rounds, and
-- a radix of 1 never ends.
pub number_loop : ℕ → ℕ → ℕ → ℕ → List ℕ → Option (List ℕ × ℕ)
number_loop zero newval radix pos buf = if newval == 0 then some (buf, pos) else none
number_loop (suc rounds) newval radix pos buf =
    let place = do
      c ← get_elem? digit_table (newval % radix)
      buf' ← store buf pos c
      number_loop rounds (newval / radix) radix (pos + 1) buf'
    in if newval == 0 then some (buf, pos) else if radix == 0 then none else place

pub ece391_itoa : ℕ → List ℕ → ℕ → Option (List ℕ)
ece391_itoa value buf radix =
    let digits = do
      written ← number_loop 32 value radix 0 buf
      ended ← store written.0 written.1 0
      ece391_strrev ended
    in let nothing = store buf 0 0x30 >>= λ buf'. store buf' 1 0 in
      if value == 0 then nothing else digits
