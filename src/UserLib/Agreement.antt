-- ===== src/UserLib/Agreement.antt =====
-- The string functions of syscalls/ece391support.c give what those of student-distrib/lib.c give.
use linux_simulation.Base.{
  ℕ, zero, suc, ◌+◌, ◌-◌, ◌/◌, ◌%◌, ◌^◌, ◌≡◌, ◌↔◌, inl, inr, refl, sym, ◌||◌, false, Bool-cases,
  Option-cases, Option, none, some, List, ◌>>=◌, ◌==◌, if◌then◌else◌, is_negative, lt_signed, sub32,
  sign_extend8, sub32-sign_extend8_iff, store, get_elem?, arith,
}
use linux_simulation.CString.{
  Reader, bytes_of, strlen, strlen_from, strcpy, strcpy_from, strncmp, strncmp_from,
}
use linux_simulation.CString.Compare.{IsByteReader}
use linux_simulation.Number.{reverse_loop, strrev, digits_loop, itoa}
use linux_simulation.UserLib.{
  length_loop, ece391_strlen, copy_loop, ece391_strcpy, compare_up_to, ece391_strncmp, swap_loop,
  ece391_strrev, number_loop, ece391_itoa, digit_table,
}

>>=-some : (m : Option (List ℕ)) → (m >>= some) ≡ m
>>=-some none = refl
>>=-some (some a) = refl

length_loop-strlen_from : (n : ℕ) (s : Reader) (i : ℕ) → length_loop n s i ≡ strlen_from n s i
unfolding length_loop strlen_from
length_loop-strlen_from zero s i = refl
length_loop-strlen_from (suc n) s i = rw (length_loop-strlen_from n s (i + 1)) refl

pub ece391_strlen-strlen : (s : Reader) → ece391_strlen s ≡ strlen s
unfolding ece391_strlen strlen
ece391_strlen-strlen s = length_loop-strlen_from (2 ^ 32) s 0

copy_loop-strcpy_from :
    (n : ℕ) (dst : List ℕ) (src : Reader) (i : ℕ) → copy_loop n dst src i ≡ strcpy_from n dst src i
unfolding copy_loop strcpy_from
copy_loop-strcpy_from zero dst src i = refl
copy_loop-strcpy_from (suc n) dst src i = elim (Option-cases (src i)) [
  | inl e ↦ rw e refl
  | inr (c, e) ↦ elim (Bool-cases (c == 0)) [
    | inl z ↦ let c_0 : c ≡ 0 = ground arith in rw e (rw c_0 (>>=-some (store dst i 0)))
    | inr nz ↦
        rw e (rw nz (λ j. store dst i c >>= λ dst'. copy_loop-strcpy_from n dst' src (i + 1) j))
  ]
]

-- The `strcpy` of the programs does what the kernel's does, also where that writes past its
-- destination.
pub ece391_strcpy-strcpy : (dst : List ℕ) (src : Reader) → ece391_strcpy dst src ≡ strcpy dst src
unfolding ece391_strcpy strcpy
ece391_strcpy-strcpy dst src = copy_loop-strcpy_from (2 ^ 32) dst src 0

module _ (s t : Reader) (hs : IsByteReader s) (ht : IsByteReader t) where
  compare_up_to-strncmp_from :
      (n i : ℕ) → (compare_up_to n s t i ≡ some 0) ↔ (strncmp_from n s t i ≡ some 0)
  unfolding compare_up_to strncmp_from
  compare_up_to-strncmp_from zero i = (λ h. h, λ h. h)
  compare_up_to-strncmp_from (suc n) i = elim (Option-cases (s i)) [
    | inl e ↦ rw e (λ h. h, λ h. h)
    | inr (a, e) ↦ elim (Option-cases (t i)) [
      | inl f ↦ rw (e, f) (λ h. h, λ h. h)
      | inr (b, f) ↦
          rw (e, f)
            (elim (Bool-cases (a == b)) [
              | inl same ↦ elim (Bool-cases (a == 0)) [
                | inl end ↦
                    let a_0 : a ≡ 0 = ground arith in
                    let b_0 : b ≡ 0 = ground arith in rw (a_0, b_0) (λ h. refl, λ h. refl)
                | inr more ↦ elim (Bool-cases (n == 0)) [
                  | inl over ↦
                      let n_0 : n ≡ 0 = ground arith in
                      let ends : strncmp_from n s t (i + 1) ≡ some 0 = rw n_0 refl in
                      rw (same, more, over) (λ h. ends, λ h. refl)
                  | inr on ↦ rw (same, more, on) (compare_up_to-strncmp_from n (i + 1))
                ]
              ]
              | inr differ ↦
                  let iff = sub32-sign_extend8_iff a b (hs i a e) (ht i b f) in
                  let ba = hs i a e in
                  let bb = ht i b f in
                  rw differ (
                    λ h. absurd (let q : sub32 a b ≡ 0 = cc in ground arith),
                    λ h. absurd (
                        let q : sub32 (sign_extend8 a) (sign_extend8 b) ≡ 0 = cc in
                        let same = iff.0 q in ground arith),
                  )
            ])
    ]
  ]

  -- The `strncmp` of the programs, which compares bytes without a sign and stops as soon as the count
  -- is used up, calls two strings of bytes equal exactly when the kernel's does.
  pub ece391_strncmp-strncmp_iff :
      (n : ℕ) → (ece391_strncmp s t n ≡ some 0) ↔ (strncmp s t n ≡ some 0)
  unfolding ece391_strncmp strncmp
  ece391_strncmp-strncmp_iff n = compare_up_to-strncmp_from n 0

swap_loop-reverse_loop :
    (n : ℕ) (s : List ℕ) (beg end : ℕ) → swap_loop n s beg end ≡ reverse_loop n s beg end
unfolding swap_loop reverse_loop
swap_loop-reverse_loop zero s beg end = refl
swap_loop-reverse_loop (suc n) s beg end = λ j.
    if lt_signed beg end
    then get_elem? s end >>= (λ tmp. get_elem? s beg >>= (λ c. store s end c >>= (λ first.
      store first beg tmp >>= (λ second. swap_loop-reverse_loop n second (beg + 1) (end - 1) j))))
    else some s

reverse_loop-stop :
    (n : ℕ) (s : List ℕ) (end : ℕ) → lt_signed 0 end ≡ false → reverse_loop n s 0 end ≡ some s
unfolding reverse_loop
reverse_loop-stop zero s end h = refl
reverse_loop-stop (suc n) s end h = rw h refl

-- The `strrev` of the programs, which returns at once for a string of at most one byte, does what the
-- kernel's does.
pub ece391_strrev-strrev : (s : List ℕ) → ece391_strrev s ≡ strrev s
unfolding ece391_strrev strrev
ece391_strrev-strrev s =
    rw (ece391_strlen-strlen (bytes_of s)) (elim (Option-cases (strlen (bytes_of s))) [
      | inl e ↦ rw e refl
      | inr (len, e) ↦ rw e (elim (Bool-cases (is_negative (sub32 len 1) || sub32 len 1 == 0)) [
        | inl short ↦
            let stop : lt_signed 0 (sub32 len 1) ≡ false = ground arith in
            rw short (sym (reverse_loop-stop len s (sub32 len 1) stop))
        | inr long ↦ rw long (swap_loop-reverse_loop len s 0 (sub32 len 1))
      ])
    ])

number_loop-digits_loop :
    (n newval radix pos : ℕ) (buf : List ℕ)
    → number_loop n newval radix pos buf ≡ digits_loop n newval radix pos buf
unfolding number_loop digits_loop
number_loop-digits_loop zero newval radix pos buf = refl
number_loop-digits_loop (suc n) newval radix pos buf = λ j.
    if newval == 0
    then some (buf, pos)
    else if radix == 0
    then none
    else get_elem? digit_table (newval % radix) >>= (λ c.
      store buf pos c
      >>= (λ buf'. number_loop-digits_loop n (newval / radix) radix (pos + 1) buf' j))

-- The `itoa` of the programs writes what the kernel's writes, in every radix.
pub ece391_itoa-itoa :
    (value : ℕ) (buf : List ℕ) (radix : ℕ) → ece391_itoa value buf radix ≡ itoa value buf radix
unfolding ece391_itoa itoa
ece391_itoa-itoa value buf radix = λ j.
    if value == 0
    then store buf 0 0x30 >>= (λ buf'. store buf' 1 0)
    else number_loop-digits_loop 32 value radix 0 buf j
      >>= (λ written. store written.0 written.1 0 >>= (λ ended. ece391_strrev-strrev ended j))
