-- ===== src/Base/Words.antt =====
-- Machine words as native numbers: an `int32_t` is its bit pattern, below 2 ^ 32.
use Prim.Native.Nat.{ℕ, ◌+◌, ◌-◌, ◌%◌, ◌^◌, ◌<◌}
use mathlib.Core.Path.{◌≡◌}
use mathlib.Core.Logic.{◌↔◌}
use mathlib.Core.Bool.{Bool}
use native.Mathlib.Omega.{arith}
use linux_simulation.Base.Tests.{ltb, leb, if◌then◌else◌}

abbrev pub u8 : ℕ → ℕ
u8 n = n % 2 ^ 8

abbrev pub u16 : ℕ → ℕ
u16 n = n % 2 ^ 16

abbrev pub u32 : ℕ → ℕ
u32 n = n % 2 ^ 32

-- `-` on ℕ stops at 0, so the modulus is added first.
abbrev pub add32 : ℕ → ℕ → ℕ
add32 a b = (a + b) % 2 ^ 32

abbrev pub sub32 : ℕ → ℕ → ℕ
sub32 a b = (a + 2 ^ 32 - b) % 2 ^ 32

-- The pattern of `-1` in an `int32_t`.
abbrev pub minus_one : ℕ
minus_one = 2 ^ 32 - 1

-- Is the `int32_t` with this pattern negative?
abbrev pub is_negative : ℕ → Bool
is_negative w = leb (2 ^ 31) w

-- `a < b` of two `int32_t`: the sign bit is turned over, and the patterns are compared.
abbrev pub lt_signed : ℕ → ℕ → Bool
lt_signed a b = ltb (add32 a (2 ^ 31)) (add32 b (2 ^ 31))

-- An `int8_t` with this pattern, widened to an `int32_t`.
abbrev pub sign_extend8 : ℕ → ℕ
sign_extend8 c = if ltb c 128 then c else c + (2 ^ 32 - 256)

-- The difference of two widened bytes is zero exactly when they are equal.
pub sub32-sign_extend8_iff :
    (a b : ℕ) → a < 256 → b < 256 → (sub32 (sign_extend8 a) (sign_extend8 b) ≡ 0) ↔ (a ≡ b)
sub32-sign_extend8_iff a b ha hb = ground arith
