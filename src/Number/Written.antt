-- ===== src/Number/Written.antt =====
-- The digits that the loop of `itoa` of student-distrib/lib.c writes, the lowest one first.
use linux_simulation.Base.{
  ℕ, zero, suc, ◌+◌, ◌-◌, ◌*◌, ◌/◌, ◌%◌, ◌≤◌, ◌<◌, ◌^◌, ◌≡◌, ◌≢◌, inl, inr, refl, ◌∙◌, sym, true,
  false, not, ◌&&◌, Bool-cases, some, List, ◌==◌, ltb, if◌then◌else◌, store_lem, get_elem?, get_or,
  set, length, length-set, get_elem?-eq-get_or, get_or-set_self, get_or-set_ne, arith,
}
use linux_simulation.Base.Bits.{all_below, all_below_sound}
use native.Mathlib.Nat.{mod-lt, div-add-mod, div-lt_iff_lt-mul, mul-le-mul_left, pow-suc}
use linux_simulation.Number.{lookup, digits_loop}

-- The value of a digit's character, as a reader of the number takes it.
abbrev pub digit_of : ℕ → ℕ
digit_of c = if ltb c 58 then c - 48 else c - 55

-- The number that the first bytes are in a radix, the first digit being the highest.
abbrev pub value_of : ℕ → List ℕ → ℕ → ℕ
value_of radix r zero = 0
value_of radix r (suc n) = value_of radix r n * radix + digit_of (get_or r n 0)

-- The number that `count` bytes from `pos` are, the first digit being the lowest.
abbrev pub low_first : ℕ → List ℕ → ℕ → ℕ → ℕ
low_first radix b zero pos = 0
low_first radix b (suc count) pos =
    digit_of (get_or b pos 0) + radix * low_first radix b count (pos + 1)

lookup_digit :
    (d : ℕ)
    → d < 36
    → (digit_of (get_or lookup d 0) ≡ d)
      × (get_or lookup d 0 ≢ 0)
      × (get_elem? lookup d ≡ some (get_or lookup d 0))
lookup_digit d lt =
    let all : (digit_of (get_or lookup d 0) == d && not (get_or lookup d 0 == 0)) ≡ true =
      all_below_sound 36 (λ i. digit_of (get_or lookup i 0) == i && not (get_or lookup i 0 == 0)) d
        (unfold all_below in refl) lt in
    (ground arith, ground arith, get_elem?-eq-get_or lookup d 0 (omega arith))

pub low_first_agree :
    (radix : ℕ) (a b : List ℕ) (count pos : ℕ)
    → ((j : ℕ) → pos ≤ j → j < pos + count → get_or a j 0 ≡ get_or b j 0)
    → low_first radix a count pos ≡ low_first radix b count pos
low_first_agree radix a b zero pos h = refl
low_first_agree radix a b (suc count) pos h =
    let first = h pos (omega arith) (omega arith) in
    let rest =
      low_first_agree radix a b count (pos + 1) (λ j lo hi. h j (omega arith) (omega arith)) in
    rw (first, rest) refl

-- Digits turned round, read from the highest one on.
pub value_of-low_first :
    (radix : ℕ) (r b : List ℕ) (n k : ℕ)
    → k ≤ n
    → ((j : ℕ) → j < n → get_or r j 0 ≡ get_or b (n - 1 - j) 0)
    → value_of radix r k ≡ low_first radix b k (n - k)
value_of-low_first radix r b n zero le h = refl
value_of-low_first radix r b n (suc k) le h =
    let at_k = h k (omega arith) in
    let rest = value_of-low_first radix r b n k (omega arith) h in
    let here : n - 1 - k ≡ n - suc k = omega arith in
    let next : n - suc k + 1 ≡ n - k = omega arith in
    rw next (rw at_k (rw here (rw rest (omega arith))))

-- What the loop has written: `count` digits, the lowest one first, that are `newval`.
pub record Written (newval radix pos : ℕ) (buf buf' : List ℕ) (count : ℕ) : Type 0 where
  pub same_length : length buf' ≡ length buf
  pub number : low_first radix buf' count pos ≡ newval
  pub digits : (j : ℕ) → pos ≤ j → j < pos + count → get_or buf' j 0 ≢ 0
  pub kept : (j : ℕ) → j < pos → get_or buf' j 0 ≡ get_or buf j 0
  pub any : newval ≢ 0 → 0 < count

no_digits_left :
    (newval radix pos : ℕ) (buf : List ℕ) → newval ≡ 0 → Written newval radix pos buf buf 0
no_digits_left newval radix pos buf is_0 = record {
  same_length = refl;
  number = sym is_0;
  digits = λ j lo hi. absurd (omega arith);
  kept = λ j lt. refl;
  any = λ ne. absurd (ne is_0);
}

quotient_below :
    (newval radix fuel : ℕ) → 2 ≤ radix → newval < 2 ^ suc fuel → newval / radix < 2 ^ fuel
quotient_below newval radix fuel two small =
    let most = mul-le-mul_left {m = 2} {n = radix} (2 ^ fuel) two in
    let power = pow-suc 2 fuel in
    (div-lt_iff_lt-mul {k = radix} {x = newval} {y = 2 ^ fuel} (omega arith)).1 (omega arith)

-- A digit in front of those that the rest of the loop writes.
one_digit_more :
    (newval radix pos count : ℕ) (buf buf' : List ℕ)
    → 2 ≤ radix
    → radix ≤ 36
    → pos < length buf
    → Written
        (newval / radix)
        radix
        (pos + 1)
        (set buf pos (get_or lookup (newval % radix) 0))
        buf'
        count
    → Written newval radix pos buf buf' (suc count)
one_digit_more newval radix pos count buf buf' two most room w =
    let fewer = mod-lt newval {m = radix} (omega arith) in
    let digit : ℕ = get_or lookup (newval % radix) 0 in
    let (value, nonzero, _) = lookup_digit (newval % radix) (omega arith) in
    let at_pos : get_or buf' pos 0 ≡ digit =
      w.kept pos (omega arith) ∙ get_or-set_self buf pos digit 0 room in
    record {
      same_length = w.same_length ∙ length-set buf pos digit;
      number = rw at_pos (rw value (rw w.number (let e = div-add-mod newval radix in omega arith)));
      digits = λ j lo hi. elim (Bool-cases (j == pos)) [
        | inl eq ↦ let e : j ≡ pos = ground arith in rw e (rw at_pos nonzero)
        | inr ne ↦ w.digits j (ground arith) (omega arith)
      ];
      kept = λ j lt. w.kept j (omega arith) ∙ get_or-set_ne buf pos j digit 0 (omega arith);
      any = λ ne. omega arith;
    }

pub digits_loop-Written :
    (fuel newval radix pos : ℕ) (buf : List ℕ)
    → 2 ≤ radix
    → radix ≤ 36
    → newval < 2 ^ fuel
    → pos + fuel ≤ length buf
    → (count : ℕ) × (buf' : List ℕ) × (count ≤ fuel)
      × (end : ℕ) × (end ≡ pos + count)
      × (digits_loop fuel newval radix pos buf ≡ some (buf', end))
      × Written newval radix pos buf buf' count
unfolding digits_loop
digits_loop-Written zero newval radix pos buf two most small room =
    let is_0 : newval ≡ 0 = omega arith in
    let nothing : (newval == 0) ≡ true = ground arith in
    (
      0,
      buf,
      omega arith,
      pos,
      omega arith,
      rw nothing refl,
      no_digits_left newval radix pos buf is_0,
    )
digits_loop-Written (suc fuel) newval radix pos buf two most small room =
    elim (Bool-cases (newval == 0)) [
      | inl nothing ↦ (
        0,
        buf,
        omega arith,
        pos,
        omega arith,
        rw nothing refl,
        no_digits_left newval radix pos buf (ground arith),
      )
      | inr more ↦
          let fewer = mod-lt newval {m = radix} (omega arith) in
          let digit : ℕ = get_or lookup (newval % radix) 0 in
          let (_, _, at_digit) = lookup_digit (newval % radix) (omega arith) in
          let fits = store_lem buf pos digit (omega arith) in
          let len = length-set buf pos digit in
          let below : newval / radix < 2 ^ fuel = quotient_below newval radix fuel two small in
          let (count, buf', bound, end, at_end, runs, w) =
            digits_loop-Written fuel (newval / radix) radix (pos + 1) (set buf pos digit) two most
              below (omega arith) in
          let some_radix : (radix == 0) ≡ false = ground arith in
          (
            suc count,
            buf',
            omega arith,
            end,
            omega arith,
            rw more (rw some_radix (rw at_digit (rw fits runs))),
            one_digit_more newval radix pos count buf buf' two most (omega arith) w,
          )
    ]
