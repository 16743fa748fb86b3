-- ===== src/CString.antt =====
-- The string functions of student-distrib/lib.c: strlen, strncmp, strcpy, strncpy.
--
-- A source string is a reader: `s i` is the byte `s[i]`, and `none` when `s + i` lies outside the
-- object that `s` points into. A destination is the list of the bytes of its object from the
-- pointer on. `none` as a result is undefined behaviour or a loop that does not end.
pub mod Length
pub mod Compare
pub mod Copy
mod Tests
use linux_simulation.Base.{
  ℕ, zero, suc, ◌+◌, ◌^◌, Bool, true, not, ◌||◌, Option, none, some, List, ◌>>=◌, ◌==◌, ltb,
  if◌then◌else◌, sub32, sign_extend8, store, get_elem?,
}

abbrev pub Reader : Type 0
Reader = ℕ → Option ℕ

-- The bytes of an array, as a string.
abbrev pub bytes_of : List ℕ → Reader
bytes_of xs = get_elem? xs

-- `while(s[len] != '\0') len++;` from `len` on. There are 2 ^ 32 addresses, so a loop that has
-- not ended after as many rounds never does.
unfoldable pub strlen_from : ℕ → Reader → ℕ → Option ℕ
strlen_from zero s len = none
strlen_from (suc fuel) s len = do
  c ← s len
  let rest = strlen_from fuel s (len + 1)
  if c == 0 then some len else rest

unfoldable pub strlen : Reader → Option ℕ
strlen s = strlen_from (2 ^ 32) s 0

-- The loop of `strncmp` at index `i`, with `n - i` rounds left.
unfoldable pub strncmp_from : ℕ → Reader → Reader → ℕ → Option ℕ
strncmp_from zero s1 s2 i = some 0
strncmp_from (suc left) s1 s2 i = do
  a ← s1 i
  b ← s2 i
  let rest = strncmp_from left s1 s2 (i + 1)
  if not (a == b) || a == 0 then some (sub32 (sign_extend8 a) (sign_extend8 b)) else rest

unfoldable pub strncmp : Reader → Reader → ℕ → Option ℕ
strncmp s1 s2 n = strncmp_from n s1 s2 0

-- The loop of `strcpy` at index `i`, with the terminating zero that follows it.
unfoldable pub strcpy_from : ℕ → List ℕ → Reader → ℕ → Option (List ℕ)
strcpy_from zero dest src i = none
strcpy_from (suc fuel) dest src i = do
  c ← src i
  let stop = store dest i 0
  let go = store dest i c >>= λ dest'. strcpy_from fuel dest' src (i + 1)
  if c == 0 then stop else go

unfoldable pub strcpy : List ℕ → Reader → Option (List ℕ)
strcpy dest src = strcpy_from (2 ^ 32) dest src 0

-- The second loop of `strncpy`: zeros up to `n`, with `n - i` rounds left.
pub strncpy_pad : ℕ → List ℕ → ℕ → Option (List ℕ)
strncpy_pad zero dest i = some dest
strncpy_pad (suc left) dest i = store dest i 0 >>= λ dest'. strncpy_pad left dest' (i + 1)

-- The first loop: `src[i]` is read before `i < n` is tested.
pub strncpy_from : ℕ → List ℕ → Reader → ℕ → Option (List ℕ)
strncpy_from zero dest src i = src i >>= λ c. some dest
strncpy_from (suc left) dest src i = do
  c ← src i
  let stop = strncpy_pad (suc left) dest i
  let go = store dest i c >>= λ dest'. strncpy_from left dest' src (i + 1)
  if c == 0 then stop else go

pub strncpy : List ℕ → Reader → ℕ → Option (List ℕ)
strncpy dest src n = strncpy_from n dest src 0
