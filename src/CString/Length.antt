-- ===== src/CString/Length.antt =====
-- `strlen` finds the first zero byte.
use linux_simulation.Base.{
  ℕ, zero, suc, ◌+◌, ◌^◌, ◌≤◌, ◌<◌, ◌≡◌, ◌≢◌, ◌↔◌, inl, inr, some, none, ◌==◌, arith, Bool-cases,
  Option-cases, Option, ap, ◌∙◌, ltb,
}
use linux_simulation.CString.{Reader, strlen_from, strlen}

-- From index `i` on, the reader gives bytes other than zero up to `n`, and a zero there.
pub record IsStringFrom (s : Reader) (i n : ℕ) : Type 0 where
  pub before : i ≤ n
  pub inside : (j : ℕ) → i ≤ j → j < n → (c : ℕ) × (s j ≡ some c) × (c ≢ 0)
  pub at_end : s n ≡ some 0

-- `s` is a terminated string of `n` bytes.
abbrev pub IsString : Reader → ℕ → Type 0
IsString s n = IsStringFrom s 0 n

pub IsStringFrom-suc :
    {s : Reader} {i n : ℕ} → i < n → IsStringFrom s i n → IsStringFrom s (i + 1) n
IsStringFrom-suc h t = record {
  before = omega arith;
  inside = λ j p q. t.inside j (omega arith) q;
  at_end = t.at_end;
}

pub IsStringFrom-cons :
    {s : Reader} {i n : ℕ} (c : ℕ)
    → s i ≡ some c
    → c ≢ 0
    → IsStringFrom s (i + 1) n
    → IsStringFrom s i n
IsStringFrom-cons {s} {i} {n} c e ne t = record {
  before = let b = t.before in omega arith;
  inside = λ j p q. elim (Bool-cases (j == i)) [
    | inl eq ↦ (c, ground arith, ne)
    | inr other ↦ t.inside j (ground arith) q
  ];
  at_end = t.at_end;
}

pub strlen_from_lem :
    (fuel : ℕ) (s : Reader) (i n : ℕ)
    → n < i + fuel
    → IsStringFrom s i n
    → strlen_from fuel s i ≡ some n
unfolding strlen_from
strlen_from_lem zero s i n h t = let p = t.before in absurd (omega arith)
strlen_from_lem (suc fuel) s i n h t = elim (Bool-cases (i == n)) [
  | inl e ↦ let e' : i ≡ n = ground arith in rw e' (rw (t.at_end))
  | inr e ↦
      let p : i ≤ n = t.before in
      let q : i < n = ground arith in
      let (c, eq, ne) = t.inside i (omega arith) q in
      ground (arith, eq, strlen_from_lem fuel s (i + 1) n (omega arith) (IsStringFrom-suc q t))
]

pub strlen_from-IsStringFrom :
    (fuel : ℕ) (s : Reader) (i n : ℕ) → strlen_from fuel s i ≡ some n → IsStringFrom s i n
unfolding strlen_from
strlen_from-IsStringFrom zero s i n h = cc
strlen_from-IsStringFrom (suc fuel) s i n h = elim (Option-cases (s i)) [
  | inl e ↦ let h' : ◌≡◌ {A = Option ℕ} none (some n) = rw e at h in cc
  | inr (c, e) ↦ elim (Bool-cases (c == 0)) [
    | inl z ↦
        let z' : c ≡ 0 = ground arith in
        let eq : i ≡ n = ground arith in
        record {
          before = omega arith;
          inside = λ j p q. absurd (omega arith);
          at_end = ground arith;
        }
    | inr nz ↦
        let rec = strlen_from-IsStringFrom fuel s (i + 1) n (ground arith) in
        record {
          before = let p = rec.before in omega arith;
          inside = λ j p q. elim (Bool-cases (j == i)) [
            | inl eq ↦ (c, ground arith, ground arith)
            | inr ne ↦ rec.inside j (ground arith) q
          ];
          at_end = rec.at_end;
        }
  ]
]

-- `strlen` returns `n` exactly when the first `n` bytes of the string are readable and not zero
-- and a zero follows them, for every `n` that an address space of 2 ^ 32 bytes can hold.
pub strlen-IsString_iff : (s : Reader) (n : ℕ) → n < 2 ^ 32 → (strlen s ≡ some n) ↔ IsString s n
unfolding strlen
strlen-IsString_iff s n h =
    (strlen_from-IsStringFrom (2 ^ 32) s 0 n, strlen_from_lem (2 ^ 32) s 0 n (omega arith))

-- A readable stretch that ends in a zero byte holds a terminated string.
pub first_zero :
    (left : ℕ) (s : Reader) (i : ℕ)
    → ((j : ℕ) → i ≤ j → j < i + left → (c : ℕ) × (s j ≡ some c))
    → s (i + left) ≡ some 0
    → (n : ℕ) × (n ≤ i + left) × IsStringFrom s i n
first_zero zero s i readable z =
    let e : i + 0 ≡ i = omega arith in
    (
      i,
      omega arith,
      record { before = omega arith; inside = λ j p q. absurd (omega arith); at_end = rw e at z },
    )
first_zero (suc left) s i readable z =
    let (c, p) = readable i (omega arith) (omega arith) in
    elim (Bool-cases (c == 0)) [
      | inl zc ↦ (
        i,
        omega arith,
        record {
          before = omega arith;
          inside = λ j a b. absurd (omega arith);
          at_end = p ∙ ap some (ground arith);
        },
      )
      | inr nz ↦
          let e : i + suc left ≡ i + 1 + left = omega arith in
          let (n, lim, t) =
            first_zero left s (i + 1) (λ j a b. readable j (omega arith) (omega arith))
              (rw e at z) in
          (n, omega arith, IsStringFrom-cons c p (ground arith) t)
    ]

-- A string that starts with a stretch of other bytes.
pub IsStringFrom-prepend :
    (s : Reader) (i k n : ℕ)
    → i ≤ k
    → ((j : ℕ) → i ≤ j → j < k → (c : ℕ) × (s j ≡ some c) × (c ≢ 0))
    → IsStringFrom s k n
    → IsStringFrom s i n
IsStringFrom-prepend s i k n h stretch t = record {
  before = let b = t.before in omega arith;
  inside = λ j p q. elim (Bool-cases (ltb j k)) [
    | inl lt ↦ stretch j p (ground arith)
    | inr ge ↦ t.inside j (ground arith) q
  ];
  at_end = t.at_end;
}
