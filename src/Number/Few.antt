-- ===== src/Number/Few.antt =====
-- How many digits `itoa` of student-distrib/lib.c writes for a word in hexadecimal.
use linux_simulation.Base.{
  ℕ, zero, suc, ◌+◌, ◌*◌, ◌/◌, ◌%◌, ◌^◌, ◌≤◌, ◌<◌, ◌≡◌, inl, inr, true, Bool-cases, some, List,
  ◌==◌, ltb, >>=-eq-some, if-eq-some, store, store_lem, get_elem?, set, length, length-set,
  get_elem?-set_self, arith,
}
use linux_simulation.CString.{bytes_of}
use linux_simulation.CString.Length.{IsString}
use linux_simulation.Number.{lookup, digits_loop, itoa}
use linux_simulation.Number.Digits.{ended_turned, itoa_runs}
use linux_simulation.Number.Written.{digits_loop-Written}

-- 16 ^ k
abbrev hex_limit : ℕ → ℕ
hex_limit zero = 1
hex_limit (suc k) = 16 * hex_limit k

digits_loop-few :
    (fuel value pos k : ℕ) (buf : List ℕ) (out : List ℕ × ℕ)
    → value < hex_limit k
    → digits_loop fuel value 16 pos buf ≡ some out
    → out.1 ≤ pos + k
unfolding digits_loop
digits_loop-few zero value pos k buf out h e = elim (if-eq-some (value == 0) e) [
  | inl (done, e1) ↦ let same : pos ≡ out.1 = cc in omega arith
  | inr (more, e1) ↦ cc
]
digits_loop-few (suc fuel) value pos zero buf out h e =
    let is_0 : (value == 0) ≡ true = ground arith in
    let e0 = rw is_0 at e in let same : pos ≡ out.1 = cc in omega arith
digits_loop-few (suc fuel) value pos (suc k) buf out h e = elim (if-eq-some (value == 0) e) [
  | inl (done, e1) ↦ let same : pos ≡ out.1 = cc in omega arith
  | inr (more, e1) ↦
      let (digit, is_digit, e2) = >>=-eq-some (get_elem? lookup (value % 16)) _ e1 in
      let (buf', stores, e3) = >>=-eq-some (store buf pos digit) _ e2 in
      let fewer = digits_loop-few fuel (value / 16) (pos + 1) k buf' out (omega arith) e3 in
      omega arith
]

-- A string has one length.
IsString-le : (r : List ℕ) (n m : ℕ) → IsString (bytes_of r) n → IsString (bytes_of r) m → m ≤ n
IsString-le r n m a b = elim (Bool-cases (ltb n m)) [
  | inl longer ↦
      let (c, at_n, not_0) = b.inside n (omega arith) (ground arith) in
      let ended = a.at_end in let is_0 : c ≡ 0 = cc in absurd (not_0 is_0)
  | inr fits ↦ ground arith
]

-- A number has at most 32 digits, and at most eight in hexadecimal.
pub itoa-few :
    (value radix n : ℕ) (buf r : List ℕ)
    → value < 2 ^ 32
    → 2 ≤ radix
    → radix ≤ 36
    → 33 ≤ length buf
    → itoa value buf radix ≡ some r
    → IsString (bytes_of r) n
    → (n ≤ 32) × (radix ≡ 16 → n ≤ 8)
unfolding itoa
itoa-few value radix n buf r small two most room e is_string = elim (Bool-cases (value == 0)) [
  | inl zero_value ↦
      let e0 = rw zero_value at e in
      let len = length-set buf 0 0x30 in
      let e1 = rw (store_lem buf 0 0x30 (omega arith)) at e0 in
      let e2 = rw (store_lem (set buf 0 0x30) 1 0 (omega arith)) at e1 in
      let ended : get_elem? r 1 ≡ some 0 =
        (let is : set (set buf 0 0x30) 1 0 ≡ r = cc in
          rw (← is) (get_elem?-set_self (set buf 0 0x30) 1 0 (omega arith))) in
      let short : n ≤ 1 = elim (Bool-cases (ltb 1 n)) [
        | inl long ↦
            let (c, at_1, not_0) = is_string.inside 1 (omega arith) (ground arith) in
            let is_0 : c ≡ 0 = cc in absurd (not_0 is_0)
        | inr no_more ↦ ground arith
      ] in
      (omega arith, λ is_16. omega arith)
  | inr more ↦
      let (count, buf', bound, end, at_end, runs, w) =
        digits_loop-Written 32 value radix 0 buf two most small (omega arith) in
      let len = w.same_length in
      let at_count : end ≡ count = omega arith in
      let (r', turns, is_string', number) =
        ended_turned value radix count buf buf' (omega arith) bound w in
      let ends = store_lem buf' count 0 (omega arith) in
      let whole =
        itoa_runs value radix end count buf buf' (set buf' count 0) r' more runs at_count ends
          turns in
      let same : r' ≡ r = (let a = whole in cc) in
      let n_count = IsString-le r count n (rw (← same) is_string') is_string in
      (
        omega arith,
        λ is_16.
            let few =
              digits_loop-few 32 value 0 8 buf (buf', end) (omega arith) (rw is_16 at runs) in
            omega arith,
      )
]
