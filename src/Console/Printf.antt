-- ===== src/Console/Printf.antt =====
-- `printf` of student-distrib/lib.c.
--
-- A format is the list of its bytes in front of the terminating zero. An argument is a word on the
-- stack, or a pointer to a string; `none` is also a conversion whose argument is missing or of the
-- other kind, and a format that ends in the middle of a conversion.
use linux_simulation.Base.{
  ℕ, zero, suc, ◌+◌, ◌-◌, Bool, true, false, Option, none, some, List, [], ◌∷◌, ◌++◌, ◌>>=◌, ◌==◌,
  if◌then◌else◌, u8, is_negative, sub32, store, drop, replicate, length,
}
use linux_simulation.CString.{Reader, bytes_of, strlen}
use linux_simulation.Console.{Console}
use linux_simulation.Console.Output.{putc, puts}
use linux_simulation.Number.{itoa}

pub data Arg : Type 0 where
  word : ℕ → Arg
  pointer : Reader → Arg

-- The bytes of a string from `i` on.
unfoldable pub read_text : ℕ → Reader → ℕ → Option (List ℕ)
read_text zero s i = some []
read_text (suc left) s i = do c ← s i; cs ← read_text left s (i + 1); some (c ∷ cs)

-- `puts` of a string up to its terminating zero.
unfoldable pub put_string : Console → Reader → Option Console
put_string c s = do len ← strlen s; cs ← read_text len s 0; puts c cs

-- `itoa(value, &conv_buf[at], radix)`, in a buffer whose bytes are not initialised and are taken to be
-- zero.
unfoldable pub itoa_at : ℕ → ℕ → ℕ → ℕ → Option (List ℕ)
itoa_at size at value radix =
    itoa value (drop at (replicate size 0)) radix >>= λ row. some (replicate at 0 ++ row)

-- `while(i < 8) { conv_buf[i] = '0'; i++; }`, `left` rounds before its end.
unfoldable pub pad_zeros : ℕ → List ℕ → ℕ → Option (List ℕ)
pad_zeros zero conv_buf i = some conv_buf
pad_zeros (suc left) conv_buf i = store conv_buf i 0x30 >>= λ b. pad_zeros left b (i + 1)

-- The cases `x` and `#x`.
unfoldable pub put_hex : Console → ℕ → Option Console
put_hex c value = itoa_at 64 0 value 16 >>= λ conv_buf. put_string c (bytes_of conv_buf)

unfoldable pub put_hex_aligned : Console → ℕ → Option Console
put_hex_aligned c value = do
  conv_buf ← itoa_at 64 8 value 16
  starting_index ← strlen (bytes_of (drop 8 conv_buf))
  padded ← pad_zeros (8 - starting_index) conv_buf starting_index
  put_string c (bytes_of (drop starting_index padded))

-- The cases `u` and `d`.
unfoldable pub put_unsigned : Console → ℕ → Option Console
put_unsigned c value = itoa_at 36 0 value 10 >>= λ conv_buf. put_string c (bytes_of conv_buf)

unfoldable pub put_signed : Console → ℕ → Option Console
put_signed c value =
    let negative = do
      conv_buf ← itoa_at 36 1 (sub32 0 value) 10
      signed ← store conv_buf 0 0x2D
      put_string c (bytes_of signed)
    in if is_negative value then negative else put_unsigned c value

-- What a conversion does with the next argument.
unfoldable pub with_word : (ℕ → Option Console) → List Arg → Option (Console × List Arg)
with_word put [] = none
with_word put (pointer s ∷ args) = none
with_word put (word value ∷ args) = put value >>= λ c. some (c, args)

unfoldable pub with_pointer : (Reader → Option Console) → List Arg → Option (Console × List Arg)
with_pointer put [] = none
with_pointer put (word value ∷ args) = none
with_pointer put (pointer s ∷ args) = put s >>= λ c. some (c, args)

-- The inner `switch`, but for `#`.
unfoldable pub convert : Console → Bool → ℕ → List Arg → Option (Console × List Arg)
convert c alternate ch args =
    let hex =
      if alternate then with_word (put_hex_aligned c) args else with_word (put_hex c) args in
    let percent = putc c 0x25 >>= λ c'. some (c', args) in
    if ch == 0x25
    then percent
    else if ch == 0x78
    then hex
    else if ch == 0x75
    then with_word (put_unsigned c) args
    else if ch == 0x64
    then with_word (put_signed c) args
    else if ch == 0x63
    then with_word (λ value. putc c (u8 value)) args
    else if ch == 0x73
    then with_pointer (put_string c) args
    else some (c, args)

-- Where the loop stands: at a character, or in a conversion, with `alternate`.
pub data Mode : Type 0 where
  plain : Mode
  conversion : Bool → Mode

-- The loop over the format.
unfoldable pub printf_loop : Mode → Console → List ℕ → List Arg → Option Console
printf_loop plain c [] args = some c
printf_loop (conversion alternate) c [] args = none
printf_loop plain c (ch ∷ buf) args =
    let start = printf_loop (conversion false) c buf args in
    let other = putc c ch >>= λ c'. printf_loop plain c' buf args in
    if ch == 0x25 then start else other
printf_loop (conversion alternate) c (ch ∷ buf) args =
    let alternative = printf_loop (conversion true) c buf args in
    let converted = convert c alternate ch args >>= λ out. printf_loop plain out.0 buf out.1 in
    if ch == 0x23 then alternative else converted

-- `printf`, which returns the length of the format.
unfoldable pub printf : Console → List ℕ → List Arg → Option (Console × ℕ)
printf c format args = printf_loop plain c format args >>= λ c'. some (c', length format)
