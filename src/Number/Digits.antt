-- ===== src/Number/Digits.antt =====
-- `itoa` of student-distrib/lib.c writes a number out: its digits give the number back.
use linux_simulation.Base.{
  ℕ, ◌+◌, ◌-◌, ◌*◌, ◌≤◌, ◌<◌, ◌^◌, ◌≡◌, ◌≢◌, inl, inr, ◌∙◌, ap, false, Bool-cases, some, List, ◌==◌,
  store, store_lem, get_or, set, length, length-set, get_elem?-eq-get_or, get_elem?-set_self,
  get_or-set_self, get_or-set_ne, arith,
}
use linux_simulation.CString.{bytes_of}
use linux_simulation.CString.Length.{IsString}
use linux_simulation.Number.{digits_loop, itoa, strrev}
use linux_simulation.Number.Reverse.{strrev-Turned}
use linux_simulation.Number.Written.{
  value_of, low_first, low_first_agree, value_of-low_first, Written, digits_loop-Written,
}

-- The zero behind the digits, and the turning round.
pub ended_turned :
    (value radix count : ℕ) (buf buf' : List ℕ)
    → count < length buf'
    → count ≤ 32
    → Written value radix 0 buf buf' count
    → (r : List ℕ) × (strrev (set buf' count 0) ≡ some r)
      × IsString (bytes_of r) count
      × (value_of radix r count ≡ value)
ended_turned value radix count buf buf' room few w =
    let ended : List ℕ = set buf' count 0 in
    let len : length ended ≡ length buf' = length-set buf' count 0 in
    let same : (j : ℕ) → j < count → get_or ended j 0 ≡ get_or buf' j 0 =
      λ j lt. get_or-set_ne buf' count j 0 0 (omega arith) in
    let is_string : IsString (bytes_of ended) count = record {
      before = omega arith;
      inside = λ j lo hi. (
        get_or ended j 0,
        get_elem?-eq-get_or ended j 0 (omega arith),
        rw (same j hi) (w.digits j lo (omega arith)),
      );
      at_end = get_elem?-set_self buf' count 0 room;
    } in
    let (r, runs, same_length, turned, kept) =
      strrev-Turned ended count is_string (omega arith) (omega arith) in
    let digit : (j : ℕ) → j < count → get_or r j 0 ≢ 0 = λ j lt. rw (turned j lt) (
      rw (same (count - 1 - j) (omega arith))
        (w.digits (count - 1 - j) (omega arith) (omega arith))) in
    (
      r,
      runs,
      record {
        before = omega arith;
        inside = λ j lo hi. (get_or r j 0, get_elem?-eq-get_or r j 0 (omega arith), digit j hi);
        at_end =
            get_elem?-eq-get_or r count 0 (omega arith)
            ∙ ap some (kept count (omega arith) ∙ get_or-set_self buf' count 0 0 room);
      },
      value_of-low_first radix r ended count count (omega arith) turned
          ∙ ap (low_first radix ended count) (let e : count - count ≡ 0 = omega arith in e)
          ∙ low_first_agree radix ended buf' count 0 (λ j lo hi. same j (omega arith))
          ∙ w.number,
    )

pub itoa_runs :
    (value radix end count : ℕ) (buf buf' ended r : List ℕ)
    → (value == 0) ≡ false
    → digits_loop 32 value radix 0 buf ≡ some (buf', end)
    → end ≡ count
    → store buf' count 0 ≡ some ended
    → strrev ended ≡ some r
    → itoa value buf radix ≡ some r
unfolding itoa
itoa_runs value radix end count buf buf' ended r more runs at_count ends turns =
    rw more (rw runs (rw at_count (rw ends turns)))

-- `itoa` of a number in a radix from 2 to 36, into a buffer of 33 bytes or more: it ends, and the
-- buffer holds a string of one digit or more, of which the number is the value, read from the first
-- digit on as the highest.
pub itoa-value_of :
    (value radix : ℕ) (buf : List ℕ)
    → value < 2 ^ 32
    → 2 ≤ radix
    → radix ≤ 36
    → 33 ≤ length buf
    → (r : List ℕ) × (n : ℕ) × (itoa value buf radix ≡ some r)
      × (0 < n)
      × IsString (bytes_of r) n
      × (value_of radix r n ≡ value)
unfolding itoa
itoa-value_of value radix buf small two most room = elim (Bool-cases (value == 0)) [
  | inl zero_value ↦
      let is_0 : value ≡ 0 = ground arith in
      let first = store_lem buf 0 0x30 (omega arith) in
      let len = length-set buf 0 0x30 in
      let second = store_lem (set buf 0 0x30) 1 0 (omega arith) in
      let digit : get_or (set (set buf 0 0x30) 1 0) 0 0 ≡ 0x30 =
        get_or-set_ne (set buf 0 0x30) 1 0 0 0 (omega arith)
        ∙ get_or-set_self buf 0 0x30 0 (omega arith) in
      (
        set (set buf 0 0x30) 1 0,
        1,
        rw zero_value (rw first second),
        omega arith,
        record {
          before = omega arith;
          inside = λ j lo hi.
              let e : j ≡ 0 = omega arith in
              rw e (
                0x30,
                get_elem?-eq-get_or (set (set buf 0 0x30) 1 0) 0 0
                      (let l = length-set (set buf 0 0x30) 1 0 in omega arith)
                    ∙ ap some digit,
                omega arith,
              );
          at_end = get_elem?-set_self (set buf 0 0x30) 1 0 (omega arith);
        },
        rw digit (let v : 0 * radix + 0 ≡ value = omega arith in v),
      )
  | inr more ↦
      let (count, buf', bound, end, at_end, runs, w) =
        digits_loop-Written 32 value radix 0 buf two most small (omega arith) in
      let len = w.same_length in
      let at_count : end ≡ count = omega arith in
      let (r, turns, is_string, number) =
        ended_turned value radix count buf buf' (omega arith) bound w in
      let ends = store_lem buf' count 0 (omega arith) in
      (
        r,
        count,
        itoa_runs value radix end count buf buf' (set buf' count 0) r more runs at_count ends turns,
        w.any (ground arith),
        is_string,
        number,
      )
]
