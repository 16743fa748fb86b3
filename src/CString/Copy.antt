-- ===== src/CString/Copy.antt =====
-- What `strcpy` and `strncpy` leave in the destination.
use linux_simulation.Base.{
  ℕ, zero, suc, ◌+◌, ◌^◌, ◌≤◌, ◌<◌, ◌≡◌, ◌⊎◌, inl, inr, refl, ◌∙◌, some, none, ◌==◌, arith, List,
  Bool-cases, length, get_elem?, set, store_lem, store-none, length-set, get_elem?-set_self,
  get_elem?-set_ne, ltb,
}
use linux_simulation.CString.{Reader, strcpy_from, strcpy, strncpy_pad, strncpy_from, strncpy}
use linux_simulation.CString.Length.{IsStringFrom, IsString, IsStringFrom-suc}

-- `r` is `dest` with the bytes of `src` from index `i` up to and including `n` written over it.
pub record CopiedFrom (dest : List ℕ) (src : Reader) (i n : ℕ) (r : List ℕ) : Type 0 where
  pub same_length : length r ≡ length dest
  pub copied : (j : ℕ) → i ≤ j → j ≤ n → get_elem? r j ≡ src j
  pub kept : (j : ℕ) → (j < i) ⊎ (n < j) → get_elem? r j ≡ get_elem? dest j

CopiedFrom-cons :
    (dest : List ℕ) (src : Reader) (i n c : ℕ) (r : List ℕ)
    → i < length dest
    → i < n
    → src i ≡ some c
    → CopiedFrom (set dest i c) src (i + 1) n r
    → CopiedFrom dest src i n r
CopiedFrom-cons dest src i n c r h lt e d = record {
  same_length = d.same_length ∙ length-set dest i c;
  copied = λ j p q. elim (Bool-cases (j == i)) [
    | inl eq ↦ ground (arith, d.kept j, get_elem?-set_self dest i c)
    | inr ne ↦ d.copied j (ground arith) q
  ];
  kept = λ j p. ground (arith, d.kept j, get_elem?-set_ne dest i j c);
}

CopiedFrom-end :
    (dest : List ℕ) (src : Reader) (i : ℕ)
    → i < length dest
    → src i ≡ some 0
    → CopiedFrom dest src i i (set dest i 0)
CopiedFrom-end dest src i h e = record {
  same_length = length-set dest i 0;
  copied = λ j p q. ground (arith, get_elem?-set_self dest i 0);
  kept = λ j p. ground (arith, get_elem?-set_ne dest i j 0);
}

pub strcpy_from_lem :
    (fuel : ℕ) (dest : List ℕ) (src : Reader) (i n : ℕ)
    → n < i + fuel
    → IsStringFrom src i n
    → n < length dest
    → (r : List ℕ) × (strcpy_from fuel dest src i ≡ some r) × CopiedFrom dest src i n r
unfolding strcpy_from
strcpy_from_lem zero dest src i n h t room = let p = t.before in absurd (omega arith)
strcpy_from_lem (suc fuel) dest src i n h t room = elim (Bool-cases (i == n)) [
  | inl e ↦
      let e' : i ≡ n = ground arith in
      rw (← e') (
        set dest i 0,
        rw (rw (← e') at t.at_end) (store_lem dest i 0 (omega arith)),
        CopiedFrom-end dest src i (omega arith) (rw (← e') at t.at_end),
      )
  | inr e ↦
      let p : i ≤ n = t.before in
      let q : i < n = ground arith in
      let (c, eq, ne) = t.inside i (omega arith) q in
      let room' : n < length (set dest i c) = omega (arith, length-set dest i c) in
      let (r, runs, d) =
        strcpy_from_lem fuel (set dest i c) src (i + 1) n (omega arith) (IsStringFrom-suc q t)
          room' in
      (
        r,
        ground (arith, eq, store_lem dest i c (omega arith), runs),
        CopiedFrom-cons dest src i n c r (omega arith) q eq d,
      )
]

-- `strcpy` of a string of `n` bytes into a destination with room for more than `n` copies the
-- bytes and the terminating zero, and leaves the rest of the destination as it was.
pub strcpy-CopiedFrom :
    (dest : List ℕ) (src : Reader) (n : ℕ)
    → n < 2 ^ 32
    → IsString src n
    → n < length dest
    → (r : List ℕ) × (strcpy dest src ≡ some r) × CopiedFrom dest src 0 n r
unfolding strcpy
strcpy-CopiedFrom dest src n h t room = strcpy_from_lem (2 ^ 32) dest src 0 n (omega arith) t room

strcpy_from-none :
    (fuel : ℕ) (dest : List ℕ) (src : Reader) (i n : ℕ)
    → IsStringFrom src i n
    → length dest ≤ n
    → strcpy_from fuel dest src i ≡ none
unfolding strcpy_from
strcpy_from-none zero dest src i n t room = refl
strcpy_from-none (suc fuel) dest src i n t room = elim (Bool-cases (i == n)) [
  | inl e ↦ let e' : i ≡ n = ground arith in rw (e', t.at_end) (store-none dest n 0 room)
  | inr e ↦
      let p : i ≤ n = t.before in
      let q : i < n = ground arith in
      let (c, eq, ne) = t.inside i (omega arith) q in
      let room' : length (set dest i c) ≤ n = omega (arith, length-set dest i c) in
      let rec = strcpy_from-none fuel (set dest i c) src (i + 1) n (IsStringFrom-suc q t) room' in
      elim (Bool-cases (ltb i (length dest))) [
        | inl lt ↦ ground (arith, eq, store_lem dest i c (ground arith), rec)
        | inr ge ↦ ground (arith, eq, store-none dest i c (ground arith))
      ]
]

-- `strcpy` writes past its destination when the string and its zero do not fit.
pub strcpy_overflow :
    (dest : List ℕ) (src : Reader) (n : ℕ)
    → IsString src n
    → length dest ≤ n
    → strcpy dest src ≡ none
unfolding strcpy
strcpy_overflow dest src n t room = strcpy_from-none (2 ^ 32) dest src 0 n t room

pub strncpy_pad_lem :
    (left : ℕ) (dest : List ℕ) (i : ℕ)
    → i + left ≤ length dest
    → (r : List ℕ) × (strncpy_pad left dest i ≡ some r)
      × (length r ≡ length dest)
      × ((j : ℕ) → i ≤ j → j < i + left → get_elem? r j ≡ some 0)
      × ((j : ℕ) → (j < i) ⊎ (i + left ≤ j) → get_elem? r j ≡ get_elem? dest j)
unfolding strncpy_pad
strncpy_pad_lem zero dest i room = (dest, refl, refl, λ j p q. absurd (omega arith), λ j p. refl)
strncpy_pad_lem (suc left) dest i room =
    let (r, runs, len, zeros, kept) =
      strncpy_pad_lem left (set dest i 0) (i + 1) (omega (arith, length-set dest i 0)) in
    (
      r,
      ground (arith, store_lem dest i 0 (omega arith), runs),
      len ∙ length-set dest i 0,
      λ j p q. elim (Bool-cases (j == i)) [
        | inl eq ↦ ground (arith, kept j, get_elem?-set_self dest i 0)
        | inr ne ↦ zeros j (ground arith) (omega arith)
      ],
      λ j p. ground (arith, kept j, get_elem?-set_ne dest i j 0),
    )

-- What `strncpy` leaves: the bytes of the string below `min m n`, zeros from there to `n`, and
-- the destination as it was from `n` on.
pub record Padded (dest : List ℕ) (src : Reader) (i m n : ℕ) (r : List ℕ) : Type 0 where
  pub same_length : length r ≡ length dest
  pub copied : (j : ℕ) → i ≤ j → j < m → j < n → get_elem? r j ≡ src j
  pub zeros : (j : ℕ) → m ≤ j → j < n → get_elem? r j ≡ some 0
  pub kept : (j : ℕ) → (j < i) ⊎ (n ≤ j) → get_elem? r j ≡ get_elem? dest j

strncpy_from_lem :
    (left : ℕ) (dest : List ℕ) (src : Reader) (i m n : ℕ)
    → IsStringFrom src i m
    → i + left ≡ n
    → n ≤ length dest
    → (r : List ℕ) × (strncpy_from left dest src i ≡ some r) × Padded dest src i m n r
unfolding strncpy_from
strncpy_from_lem zero dest src i m n t e room = (
  dest,
  elim (Bool-cases (i == m)) [
    | inl eq ↦ let eq' : i ≡ m = ground arith in rw eq' (rw t.at_end)
    | inr ne ↦
        let p = t.before in let (c, eq, nz) = t.inside i (omega arith) (ground arith) in rw eq
  ],
  record {
    same_length = refl;
    copied = λ j p q r. absurd (omega arith);
    zeros = λ j p q. let b = t.before in absurd (omega arith);
    kept = λ j p. refl;
  },
)
strncpy_from_lem (suc left) dest src i m n t e room = elim (Bool-cases (i == m)) [
  | inl eq ↦
      let eq' : i ≡ m = ground arith in
      let (r, runs, len, zeros, kept) = strncpy_pad_lem (suc left) dest i (omega arith) in
      (
        r,
        ground (arith, t.at_end, runs),
        record {
          same_length = len;
          copied = λ j p q s. absurd (omega arith);
          zeros = λ j p q. zeros j (omega arith) (omega arith);
          kept = λ j p. kept j (ground arith);
        },
      )
  | inr ne ↦
      let p : i ≤ m = t.before in
      let q : i < m = ground arith in
      let (c, ci, nz) = t.inside i (omega arith) q in
      let (r, runs, d) =
        strncpy_from_lem left (set dest i c) src (i + 1) m n (IsStringFrom-suc q t) (omega arith)
          (omega (arith, length-set dest i c)) in
      (
        r,
        ground (arith, ci, store_lem dest i c (omega arith), runs),
        record {
          same_length = d.same_length ∙ length-set dest i c;
          copied = λ j a b s. elim (Bool-cases (j == i)) [
            | inl eq ↦ ground (arith, d.kept j, get_elem?-set_self dest i c)
            | inr other ↦ d.copied j (ground arith) b s
          ];
          zeros = d.zeros;
          kept = λ j a. ground (arith, d.kept j, get_elem?-set_ne dest i j c);
        },
      )
]

-- `strncpy` of a string of `m` bytes writes exactly `n` bytes: the string's, cut off at `n`, then
-- zeros; with room for `n` it is defined, and the rest of the destination stays.
pub strncpy-Padded :
    (dest : List ℕ) (src : Reader) (m n : ℕ)
    → IsString src m
    → n ≤ length dest
    → (r : List ℕ) × (strncpy dest src n ≡ some r) × Padded dest src 0 m n r
unfolding strncpy
strncpy-Padded dest src m n t room = strncpy_from_lem n dest src 0 m n t (omega arith) room
