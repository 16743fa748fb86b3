-- ===== src/Filesys/Lookup.antt =====
-- `read_dentry_by_name` and `read_dentry_by_index` find the right entry.
use linux_simulation.Base.{
  ℕ, zero, suc, ◌+◌, ◌^◌, ◌≤◌, ◌<◌, min, ◌≡◌, ◌⊎◌, inl, inr, refl, ◌∙◌, ap, some, ◌==◌, arith, true,
  false, Bool-cases, length, leb, minus_one, ◌||◌,
}
use linux_simulation.CString.{Reader, strlen}
use linux_simulation.CString.Length.{IsString, strlen-IsString_iff}
use linux_simulation.CString.Compare.{IsByteReader, Agree, strncmp-Agree_iff, strncmp_total}
use linux_simulation.Filesys.{
  Filesys, Dentry, Memory, load32, string_at, dentry_addr, dentry_matches, find_dentry,
  read_dentry_by_name, read_dentry_by_index,
}
use linux_simulation.Filesys.Data.{load8-lt}
use linux_simulation.Filesys.Entry.{IsEntry, copy_dentry-IsEntry}

-- The name of entry `i`, as a string.
abbrev pub entry_name : Filesys → ℕ → Reader
entry_name fs i = string_at fs.memory (dentry_addr fs i)

-- Every name in the directory ends within its entry: `size i` is the length of the `i`-th.
pub record HasNames (fs : Filesys) (size : ℕ → ℕ) : Type 0 where
  pub fits : (i : ℕ) → i < 63 → size i < 64
  pub is_string : (i : ℕ) → i < 63 → IsString (entry_name fs i) (size i)

-- The rule by which an entry is taken for the first `len` bytes of a name: those bytes agree, and
-- the entry's name has `len` bytes, or fills its field.
pub record Takes (fs : Filesys) (size : ℕ → ℕ) (fname : Reader) (len i : ℕ) : Type 0 where
  pub long_enough : (size i ≡ len) ⊎ (32 ≤ size i)
  pub agrees : Agree fname (entry_name fs i) 0 len

string_at-IsByteReader : (m : Memory) (a : ℕ) → IsByteReader (string_at m a)
string_at-IsByteReader m a i c h = let lt = load8-lt m (a + i) in ground arith

module _ (fs : Filesys) (size : ℕ → ℕ) (names : HasNames fs size) (fname : Reader) (len : ℕ)
    (bytes : IsByteReader fname) (short : len ≤ 32) where
  strlen-entry : (i : ℕ) → i < 63 → strlen (entry_name fs i) ≡ some (size i)
  strlen-entry i h =
      let lt = names.fits i h in
      (strlen-IsString_iff (entry_name fs i) (size i) (omega arith)).1 (names.is_string i h)

  module _ (readable : (j : ℕ) → j < len → (c : ℕ) × (fname j ≡ some c)) where
    -- The test of the loop decides the rule.
    dentry_matches_lem :
        (i : ℕ)
        → i < 63
        → ((dentry_matches fs fname len i ≡ some true) × Takes fs size fname len i)
          ⊎ ((dentry_matches fs fname len i ≡ some false) × ¬ (Takes fs size fname len i))
    unfolding dentry_matches
    dentry_matches_lem i h =
        let e = strlen-entry i h in
        let (r, runs) = strncmp_total fname (entry_name fs i) len readable (λ j q. (_, refl)) in
        let agree =
          strncmp-Agree_iff fname (entry_name fs i) bytes (string_at-IsByteReader _ _) len in
        elim (Bool-cases (size i == len || leb 32 (size i))) [
          | inr wrong ↦ inr (rw e (rw wrong), λ t. let p = t.long_enough in ground arith)
          | inl right ↦ elim (Bool-cases (r == 0)) [
            | inl same ↦
                let z : r ≡ 0 = ground arith in
                inl (
                  rw e (rw right (rw (runs, same))),
                  record { long_enough = ground arith; agrees = agree.0 (runs ∙ ap some z) },
                )
            | inr other ↦ inr (
              rw e (rw right (rw (runs, other))),
              λ t. let z = agree.1 t.agrees in ground (arith, z, runs),
            )
          ]
        ]

    -- What a search that started at entry `i` ends with.
    find_dentry_lem :
        (left i : ℕ) (dentry : Dentry)
        → i + left ≡ 63
        → length dentry ≡ 64
        → ((find_dentry left fs fname len i dentry ≡ some (fs, dentry, minus_one))
            × ((j : ℕ) → i ≤ j → j < 63 → ¬ (Takes fs size fname len j)))
          ⊎ ((k : ℕ) × (d : Dentry) × (find_dentry left fs fname len i dentry
                ≡ some (record fs { file_pos_keeper = k }, d, 0))
              × (i ≤ k)
              × (k < 63)
              × Takes fs size fname len k
              × IsEntry fs k (size k) d
              × ((j : ℕ) → i ≤ j → j < k → ¬ (Takes fs size fname len j)))
    unfolding find_dentry
    find_dentry_lem zero i dentry e l = inl (refl, λ j p q. absurd (omega arith))
    find_dentry_lem (suc left) i dentry e l = elim (dentry_matches_lem i (omega arith)) [
      | inl (found, takes) ↦
          let (d, runs, is) =
            copy_dentry-IsEntry fs i (size i) dentry (names.is_string i (omega arith))
              (names.fits i (omega arith)) l in
          inr (
            i,
            d,
            rw found (rw runs),
            omega arith,
            omega arith,
            takes,
            is,
            λ j p q. absurd (omega arith),
          )
      | inr (missed, not_takes) ↦ elim (find_dentry_lem left (i + 1) dentry (omega arith) l) [
        | inl (runs, none_takes) ↦ inl (
          rw missed runs,
          λ j p q t. elim (Bool-cases (j == i)) [
            | inl eq ↦ let eq' : j ≡ i = ground arith in not_takes (rw eq' at t)
            | inr ne ↦ none_takes j (ground arith) q t
          ],
        )
        | inr (k, d, runs, p, q, takes, is, first) ↦ inr (
          k,
          d,
          rw missed runs,
          omega arith,
          q,
          takes,
          is,
          λ j a b t. elim (Bool-cases (j == i)) [
            | inl eq ↦ let eq' : j ≡ i = ground arith in not_takes (rw eq' at t)
            | inr ne ↦ first j (ground arith) b t
          ],
        )
      ]
    ]

-- Looking a non-empty name up by its first `len = min n 32` bytes. Either no entry takes them, the
-- result is -1 and nothing changes; or the result is 0, the entry copied and remembered in
-- `file_pos_keeper` is the first that takes them, and nothing else changes.
pub read_dentry_by_name-Takes :
    (fs : Filesys) (size : ℕ → ℕ) (fname : Reader) (n : ℕ) (dentry : Dentry)
    → HasNames fs size
    → IsByteReader fname
    → IsString fname n
    → 0 < n
    → n < 2 ^ 32
    → length dentry ≡ 64
    → ((read_dentry_by_name fs (some fname) (some dentry) ≡ some (fs, some dentry, minus_one))
        × ((j : ℕ) → j < 63 → ¬ (Takes fs size fname (min n 32) j)))
      ⊎ ((k : ℕ) × (d : Dentry) × (read_dentry_by_name fs (some fname) (some dentry)
            ≡ some (record fs { file_pos_keeper = k }, some d, 0))
          × (k < 63)
          × Takes fs size fname (min n 32) k
          × IsEntry fs k (size k) d
          × ((j : ℕ) → j < k → ¬ (Takes fs size fname (min n 32) j)))
unfolding read_dentry_by_name
read_dentry_by_name-Takes fs size fname n dentry names bytes t pos lim l =
    let len = (strlen-IsString_iff fname n lim).1 t in
    let ne : (min n 32 == 0) ≡ false = ground arith in
    let readable : (j : ℕ) → j < min n 32 → (c : ℕ) × (fname j ≡ some c) =
      λ j h. let (c, p, q) = t.inside j (omega arith) (omega arith) in (c, p) in
    elim (find_dentry_lem fs size names fname (min n 32) bytes (omega arith) readable 63 0 dentry
      (omega arith) l) [
        | inl (runs, none_takes) ↦
            inl (rw len (rw ne (rw runs)), λ j q. none_takes j (omega arith) q)
        | inr (k, d, runs, p, q, takes, is, first) ↦
            inr (k, d, rw len (rw ne (rw runs)), q, takes, is, λ j b. first j (omega arith) b)
      ]

-- `read_dentry_by_index` copies the entry at the index if it is below both the number of entries
-- and 63, and otherwise returns -1 and leaves the destination alone.
pub read_dentry_by_index-IsEntry :
    (fs : Filesys) (size : ℕ → ℕ) (index : ℕ) (dentry : Dentry)
    → HasNames fs size
    → length dentry ≡ 64
    → ((index < 63)
        × (index < load32 fs.memory fs.fs_bootblk)
        × ((d : Dentry) × (read_dentry_by_index fs index (some dentry) ≡ some (some d, 0))
            × IsEntry fs index (size index) d))
      ⊎ (((63 ≤ index) ⊎ (load32 fs.memory fs.fs_bootblk ≤ index))
          × (read_dentry_by_index fs index (some dentry) ≡ some (some dentry, minus_one)))
unfolding read_dentry_by_index
read_dentry_by_index-IsEntry fs size index dentry names l =
    elim (Bool-cases (leb 63 index || leb (load32 fs.memory fs.fs_bootblk) index)) [
      | inl out ↦ inr (ground arith, rw out)
      | inr inside ↦
          let p : index < 63 = ground arith in
          let q : index < load32 fs.memory fs.fs_bootblk = ground arith in
          let (d, runs, is) =
            copy_dentry-IsEntry fs index (size index) dentry (names.is_string index p)
              (names.fits index p) l in
          inl (p, q, (d, rw inside (rw runs), is))
    ]
