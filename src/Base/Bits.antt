-- ===== src/Base/Bits.antt =====
-- `&` and `|`: on bytes, decided by looking at every value, and with masks, by their digits.
use Prim.Native.Nat.{
  ℕ, zero, suc, ◌+◌, ◌-◌, ◌*◌, ◌/◌, ◌%◌, ◌≤◌, ◌<◌, ◌^◌, min, max, bit_and, bit_or, digits,
  bit_and-bitwise, bit_or-bitwise,
}
use mathlib.Core.Path.{◌≡◌, refl, sym, ap, ap₂, ◌∙◌}
use mathlib.Core.Logic.{inl, inr}
use mathlib.Core.Bool.{Bool, true, false}
use native.Mathlib.Omega.{arith}
use linux_simulation.Base.Tests.{◌==◌, Bool-cases, if◌then◌else◌}

-- Does the test hold of all numbers below the bound?
unfoldable pub all_below : ℕ → (ℕ → Bool) → Bool
all_below zero test = true
all_below (suc top) test = let rest = all_below top test in if test top then rest else false

pub all_below_sound :
    (bound : ℕ) (test : ℕ → Bool) (k : ℕ) → all_below bound test ≡ true → k < bound → test k ≡ true
unfolding all_below
all_below_sound zero test k all inside = elim inside [ ]
all_below_sound (suc top) test k all inside = elim (Bool-cases (k == top)) [
  | inl last ↦
      let same : k ≡ top = ground arith in
      let holds : test top ≡ true = ground arith in rw same holds
  | inr other ↦
      let rest : all_below top test ≡ true = ground arith in
      all_below_sound top test k rest (ground arith)
]

-- The digits of `|` and `&`, as the native operations count them.
abbrev or_digits : ℕ → ℕ → ℕ → ℕ
or_digits = digits (λ b. b) max

abbrev and_digits : ℕ → ℕ → ℕ → ℕ
and_digits = digits (λ b. zero) min

-- The count does not matter when it is enough.
or_digits_enough : (n m a b : ℕ) → a ≤ n → a ≤ m → or_digits n a b ≡ or_digits m a b
or_digits_enough zero zero a b hn hm = refl
or_digits_enough zero (suc m) zero b hn hm = refl
or_digits_enough zero (suc m) (suc a) b hn hm = absurd (omega arith)
or_digits_enough (suc n) zero zero b hn hm = refl
or_digits_enough (suc n) zero (suc a) b hn hm = absurd (omega arith)
or_digits_enough (suc n) (suc m) zero b hn hm = refl
or_digits_enough (suc n) (suc m) (suc a) b hn hm =
    let halves = or_digits_enough n m (suc a / 2) (b / 2) (omega arith) (omega arith) in
    ap (λ d. d * 2 + max (suc a % 2) (b % 2)) halves

and_digits_enough : (n m a b : ℕ) → a ≤ n → a ≤ m → and_digits n a b ≡ and_digits m a b
and_digits_enough zero zero a b hn hm = refl
and_digits_enough zero (suc m) zero b hn hm = refl
and_digits_enough zero (suc m) (suc a) b hn hm = absurd (omega arith)
and_digits_enough (suc n) zero zero b hn hm = refl
and_digits_enough (suc n) zero (suc a) b hn hm = absurd (omega arith)
and_digits_enough (suc n) (suc m) zero b hn hm = refl
and_digits_enough (suc n) (suc m) (suc a) b hn hm =
    let halves = and_digits_enough n m (suc a / 2) (b / 2) (omega arith) (omega arith) in
    ap (λ d. d * 2 + min (suc a % 2) (b % 2)) halves

zero-bit_or : (b : ℕ) → bit_or 0 b ≡ b
zero-bit_or b = bit_or-bitwise 0 b

-- The lowest digit of `|` and `&`, and the others.
bit_or-halves : (a b : ℕ) → bit_or a b ≡ bit_or (a / 2) (b / 2) * 2 + max (a % 2) (b % 2)
bit_or-halves zero b = zero-bit_or b ∙ omega (arith, zero-bit_or (b / 2))
bit_or-halves (suc a) b =
    let fewer = or_digits_enough a (suc a / 2) (suc a / 2) (b / 2) (omega arith) (omega arith) in
    bit_or-bitwise (suc a) b
    ∙ ap (λ d. d * 2 + max (suc a % 2) (b % 2)) (fewer ∙ sym (bit_or-bitwise (suc a / 2) (b / 2)))

bit_and-halves : (a b : ℕ) → bit_and a b ≡ bit_and (a / 2) (b / 2) * 2 + min (a % 2) (b % 2)
bit_and-halves zero b = bit_and-bitwise 0 b ∙ omega (arith, bit_and-bitwise 0 (b / 2))
bit_and-halves (suc a) b =
    let fewer = and_digits_enough a (suc a / 2) (suc a / 2) (b / 2) (omega arith) (omega arith) in
    bit_and-bitwise (suc a) b
    ∙ ap (λ d. d * 2 + min (suc a % 2) (b % 2)) (fewer ∙ sym (bit_and-bitwise (suc a / 2) (b / 2)))

-- `2 ^ k * n`, and `2 ^ k`, by doubling.
abbrev pub shifted : ℕ → ℕ → ℕ
shifted zero n = n
shifted (suc k) n = shifted k n * 2

bit_or-zero_enough : (n a : ℕ) → a ≤ n → bit_or a 0 ≡ a
bit_or-zero_enough zero a h = let none_left : a ≡ 0 = omega arith in rw none_left (zero-bit_or 0)
bit_or-zero_enough (suc n) zero h = zero-bit_or 0
bit_or-zero_enough (suc n) (suc a) h =
    omega (arith, bit_or-halves (suc a) 0, bit_or-zero_enough n (suc a / 2) (omega arith))

-- `|` works on the digits from `k` on and on those below apart.
bit_or-shifted :
    (k n a m b : ℕ)
    → a < shifted k 1
    → b < shifted k 1
    → bit_or (shifted k n + a) (shifted k m + b) ≡ shifted k (bit_or n m) + bit_or a b
bit_or-shifted zero n a m b ha hb =
    let a_0 : a ≡ 0 = omega arith in
    let b_0 : b ≡ 0 = omega arith in
    let left : n + a ≡ n = omega arith in
    let right : m + b ≡ m = omega arith in
    ap₂ bit_or left right ∙ omega (arith, ap₂ bit_or a_0 b_0 ∙ zero-bit_or 0)
bit_or-shifted (suc k) n a m b ha hb =
    let x : (shifted k n * 2 + a) / 2 ≡ shifted k n + a / 2 = omega arith in
    let y : (shifted k m * 2 + b) / 2 ≡ shifted k m + b / 2 = omega arith in
    let upper = ap₂ bit_or x y ∙ bit_or-shifted k n (a / 2) m (b / 2) (omega arith) (omega arith) in
    let x' : (shifted k n * 2 + a) % 2 ≡ a % 2 = omega arith in
    let y' : (shifted k m * 2 + b) % 2 ≡ b % 2 = omega arith in
    let lowest = ap₂ max x' y' in
    omega (
      arith,
      bit_or-halves (shifted k n * 2 + a) (shifted k m * 2 + b),
      bit_or-halves a b,
      upper,
      lowest,
    )

-- `&` with a mask of ones keeps a number below it, and each zero digit in front clears one.
bit_and-ones : (k a : ℕ) → a < shifted k 1 → bit_and a (shifted k 1 - 1) ≡ a
bit_and-ones zero a h = let none_left : a ≡ 0 = omega arith in rw none_left (bit_and-bitwise 0 0)
bit_and-ones (suc k) a h =
    let even : (shifted k 1 * 2 - 1) / 2 ≡ shifted k 1 - 1 = omega arith in
    let rest : bit_and (a / 2) ((shifted k 1 * 2 - 1) / 2) ≡ a / 2 =
      rw even (bit_and-ones k (a / 2) (omega arith)) in
    bit_and-halves a (shifted k 1 * 2 - 1) ∙ omega (arith, rest)

bit_and-double : (a b : ℕ) → bit_and a (b * 2) ≡ bit_and (a / 2) b * 2
bit_and-double a b =
    let even : b * 2 / 2 ≡ b = omega arith in
    let halves : bit_and a (b * 2) ≡ bit_and (a / 2) (b * 2 / 2) * 2 + min (a % 2) (b * 2 % 2) =
      bit_and-halves a (b * 2) in
    let same : bit_and (a / 2) (b * 2 / 2) ≡ bit_and (a / 2) b = ap (bit_and (a / 2)) even in
    omega (arith, halves, same)

-- `n / 2 ^ k`, by halving.
abbrev pub halved : ℕ → ℕ → ℕ
halved zero n = n
halved (suc k) n = halved k (n / 2)

bit_and-shifted : (k a b : ℕ) → bit_and a (shifted k b) ≡ shifted k (bit_and (halved k a) b)
bit_and-shifted zero a b = refl
bit_and-shifted (suc k) a b =
    bit_and-double a (shifted k b) ∙ ap (λ x. x * 2) (bit_and-shifted k (a / 2) b)

-- The two masks of addresses: a page of 4096 bytes, and a block of 8192.
pub bit_and-page : (a : ℕ) → a < 2 ^ 32 → bit_and a 0xFFFFF000 ≡ a / 4096 * 4096
bit_and-page a h =
    let ones = bit_and-ones 20 (halved 12 a) (omega arith) in
    bit_and-shifted 12 a (2 ^ 20 - 1) ∙ ap (shifted 12) ones ∙ omega arith

-- The address of a page, with flags, and more flags.
pub bit_or-flags :
    (n a b : ℕ) → a < 4096 → b < 4096 → bit_or (n * 4096 + a) b ≡ n * 4096 + bit_or a b
bit_or-flags n a b ha hb =
    let x : n * 4096 + a ≡ shifted 12 n + a = omega arith in
    let above = bit_or-zero_enough n n (omega arith) in
    let split = bit_or-shifted 12 n a 0 b (omega arith) (omega arith) in
    let z : b ≡ shifted 12 0 + b = omega arith in ap₂ bit_or x z ∙ split ∙ omega (arith, above)

-- Flags, and the address of a page with more flags.
pub flags-bit_or :
    (n a b : ℕ) → a < 4096 → b < 4096 → bit_or a (n * 4096 + b) ≡ n * 4096 + bit_or a b
flags-bit_or n a b ha hb =
    let x : n * 4096 + b ≡ shifted 12 n + b = omega arith in
    let split = bit_or-shifted 12 0 a n b (omega arith) (omega arith) in
    let z : a ≡ shifted 12 0 + a = omega arith in
    ap₂ bit_or z x ∙ split ∙ omega (arith, zero-bit_or n)
