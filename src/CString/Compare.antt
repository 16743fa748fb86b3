-- ===== src/CString/Compare.antt =====
-- `strncmp` returns zero exactly when the strings agree.
use linux_simulation.Base.{
  ltb, Bool, true, List, [], ◌∷◌, ◌&&◌, ℕ, zero, suc, ◌+◌, ◌≤◌, ◌<◌, ◌≡◌, ◌≢◌, ◌↔◌, ◌⊎◌, inl, inr,
  refl, some, none, ◌==◌, arith, Bool-cases, Option-cases, sub32, sign_extend8,
  sub32-sign_extend8_iff, Option, not, ◌||◌,
}
use linux_simulation.CString.{Reader, bytes_of, strncmp_from, strncmp}

-- What is read is a byte.
abbrev pub IsByteReader : Reader → Type 0
IsByteReader s = (i c : ℕ) → s i ≡ some c → c < 256

-- Are all bytes of an array below 256?
abbrev pub all_bytes : List ℕ → Bool
all_bytes [] = true
all_bytes (x ∷ xs) = ltb x 256 && all_bytes xs

pub bytes_of-IsByteReader : (xs : List ℕ) → all_bytes xs ≡ true → IsByteReader (bytes_of xs)
bytes_of-IsByteReader [] h i c e = absurd cc
bytes_of-IsByteReader (x ∷ xs) h zero c e = let same : x ≡ c = cc in ground arith
bytes_of-IsByteReader (x ∷ xs) h (suc i) c e = bytes_of-IsByteReader xs (ground arith) i c e

-- From index `i` on both give the same bytes other than zero, up to `n` or to a zero in both.
pub record Agree (s t : Reader) (i n : ℕ) : Type 0 where
  pub end : ℕ
  pub after : i ≤ end
  pub within : end ≤ n
  pub same : (j : ℕ) → i ≤ j → j < end → (c : ℕ) × (s j ≡ some c) × (t j ≡ some c) × (c ≢ 0)
  pub stop : (end ≡ n) ⊎ ((s end ≡ some 0) × (t end ≡ some 0))

module _ (s t : Reader) where
  Agree-head :
      (i n c : ℕ)
      → s i ≡ some c
      → t i ≡ some c
      → c ≢ 0
      → i < n
      → Agree s t (i + 1) n
      → Agree s t i n
  Agree-head i n c p q ne lt rest = record {
    end = rest.end;
    after = let a = rest.after in omega arith;
    within = rest.within;
    same = λ j a b. elim (Bool-cases (j == i)) [
      | inl eq ↦ (c, ground arith, ground arith, ne)
      | inr other ↦ rest.same j (ground arith) b
    ];
    stop = rest.stop;
  }

  Agree-tail : (i n c : ℕ) → s i ≡ some c → c ≢ 0 → i < n → Agree s t i n → Agree s t (i + 1) n
  Agree-tail i n c p ne lt a = record {
    end = a.end;
    after = let x = a.after in let y = a.stop in ground arith;
    within = a.within;
    same = λ j x y. a.same j (omega arith) y;
    stop = a.stop;
  }

  -- At an index below `n` the two agree on the byte there.
  Agree-byte : (i n : ℕ) → i < n → Agree s t i n → (c : ℕ) × (s i ≡ some c) × (t i ≡ some c)
  Agree-byte i n lt a = elim (Bool-cases (a.end == i)) [
    | inl eq ↦ let x = a.stop in (0, ground arith, ground arith)
    | inr ne ↦
        let x = a.after in let (c, p, q, r) = a.same i (omega arith) (ground arith) in (c, p, q)
  ]

  module _ (hs : IsByteReader s) (ht : IsByteReader t) where
    pub strncmp_from-Agree :
        (left i : ℕ) → strncmp_from left s t i ≡ some 0 → Agree s t i (i + left)
    unfolding strncmp_from
    strncmp_from-Agree zero i h = record {
      end = i;
      after = omega arith;
      within = omega arith;
      same = λ j p q. absurd (omega arith);
      stop = inl (omega arith);
    }
    strncmp_from-Agree (suc left) i h = elim (Option-cases (s i)) [
      | inl e ↦ let h' : ◌≡◌ {A = Option ℕ} none (some 0) = rw e at h in cc
      | inr (a, e) ↦ elim (Option-cases (t i)) [
        | inl f ↦ let h' : ◌≡◌ {A = Option ℕ} none (some 0) = rw (e, f) at h in cc
        | inr (b, f) ↦
            let same : a ≡ b = ground (arith, sub32-sign_extend8_iff a b (hs i a e) (ht i b f)) in
            elim (Bool-cases (a == 0)) [
              | inl z ↦ record {
                end = i;
                after = omega arith;
                within = omega arith;
                same = λ j p q. absurd (omega arith);
                stop = inr (ground arith, ground arith);
              }
              | inr nz ↦
                  let rest : Agree s t (i + 1) (i + 1 + left) =
                    strncmp_from-Agree left (i + 1) (ground arith) in
                  let eq : i + 1 + left ≡ i + suc left = omega arith in
                  Agree-head i (i + suc left) a e (ground arith) (ground arith) (omega arith)
                    (rw eq at rest)
            ]
      ]
    ]

    pub strncmp_from-zero : (left i : ℕ) → Agree s t i (i + left) → strncmp_from left s t i ≡ some 0
    unfolding strncmp_from
    strncmp_from-zero zero i a = refl
    strncmp_from-zero (suc left) i a =
        let (c, p, q) = Agree-byte i (i + suc left) (omega arith) a in
        rw (p, q)
          (elim (Bool-cases (c == 0)) [
            | inl z ↦ ground arith
            | inr nz ↦
                let rest : Agree s t (i + 1) (i + suc left) =
                  Agree-tail i (i + suc left) c p (ground arith) (omega arith) a in
                let eq : i + suc left ≡ i + 1 + left = omega arith in
                ground (arith, strncmp_from-zero left (i + 1) (rw eq at rest))
          ])

    -- `strncmp` of two strings of bytes returns zero exactly when they give the same bytes up to
    -- the first zero of both or, failing that, for `n` bytes.
    pub strncmp-Agree_iff : (n : ℕ) → (strncmp s t n ≡ some 0) ↔ Agree s t 0 n
    unfolding strncmp
    strncmp-Agree_iff n =
        let eq : 0 + n ≡ n = omega arith in
        (λ h. rw eq at (strncmp_from-Agree n 0 h), λ a. strncmp_from-zero n 0 (rw eq a))

-- Where both strings are readable for `n` bytes, `strncmp` returns.
pub strncmp_from_total :
    (left i : ℕ) (s t : Reader)
    → ((j : ℕ) → j < i + left → (c : ℕ) × (s j ≡ some c))
    → ((j : ℕ) → j < i + left → (c : ℕ) × (t j ≡ some c))
    → (r : ℕ) × (strncmp_from left s t i ≡ some r)
unfolding strncmp_from
strncmp_from_total zero i s t hs ht = (0, refl)
strncmp_from_total (suc left) i s t hs ht =
    let (a, p) = hs i (omega arith) in
    let (b, q) = ht i (omega arith) in
    let (r, rest) =
      strncmp_from_total left (i + 1) s t (λ j h. hs j (omega arith)) (λ j h. ht j (omega arith)) in
    elim (Bool-cases (not (a == b) || a == 0)) [
      | inl stop ↦ (sub32 (sign_extend8 a) (sign_extend8 b), rw (p, q) (rw stop))
      | inr go ↦ (r, rw (p, q) (rw go rest))
    ]

pub strncmp_total :
    (s t : Reader) (n : ℕ)
    → ((j : ℕ) → j < n → (c : ℕ) × (s j ≡ some c))
    → ((j : ℕ) → j < n → (c : ℕ) × (t j ≡ some c))
    → (r : ℕ) × (strncmp s t n ≡ some r)
unfolding strncmp
strncmp_total s t n hs ht =
    strncmp_from_total n 0 s t (λ j h. hs j (omega arith)) (λ j h. ht j (omega arith))
