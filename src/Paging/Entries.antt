-- ===== src/Paging/Entries.antt =====
-- The entries that student-distrib/paging.c and its callers write.
use linux_simulation.Base.{
  ℕ, zero, suc, ◌+◌, ◌≤◌, ◌<◌, ◌≡◌, refl, ap, ◌∙◌, some, List, [], ◌∷◌, store_lem, get_elem?,
  get_elem?-set_self, get_elem?-set_ne, set, length, length-set, bit_or, Bool-cases, ◌==◌, inl, inr,
  arith,
}
use linux_simulation.Paging.{or_into, clear_entries, set_rw_not_present}

pub set-set {ℓ} : {A : Type ℓ} (xs : List A) (i : ℕ) (v w : A) → set (set xs i v) i w ≡ set xs i w
set-set [] i v w = refl
set-set (x ∷ xs) zero v w = refl
set-set (x ∷ xs) (suc i) v w = ap (λ ys. x ∷ ys) (set-set xs i v w)

-- An entry that was just written is read back.
pub or_into-set :
    (table : List ℕ) (i v bits : ℕ)
    → i < length table
    → or_into (set table i v) i bits ≡ some (set table i (bit_or v bits))
unfolding or_into
or_into-set table i v bits h =
    let len = length-set table i v in
    let fits = store_lem (set table i v) i (bit_or v bits) (omega arith) in
    rw (get_elem?-set_self table i v h) (rw fits (rw (set-set table i v (bit_or v bits)) refl))

pub or_into_lem :
    (table : List ℕ) (i v bits : ℕ)
    → get_elem? table i ≡ some v
    → i < length table
    → or_into table i bits ≡ some (set table i (bit_or v bits))
unfolding or_into
or_into_lem table i v bits e h = rw e (store_lem table i (bit_or v bits) h)

-- What the loop leaves: all entries from `i` on are "not present".
pub record IsCleared (table : List ℕ) (i : ℕ) (out : List ℕ) : Type 0 where
  pub size : length out ≡ length table
  pub before : (j : ℕ) → j < i → get_elem? out j ≡ get_elem? table j
  pub cleared : (j : ℕ) → i ≤ j → j < length table → get_elem? out j ≡ some set_rw_not_present

pub clear_entries-IsCleared :
    (left : ℕ) (table : List ℕ) (i : ℕ)
    → i + left ≡ length table
    → (out : List ℕ) × (clear_entries left table i ≡ some out) × IsCleared table i out
unfolding clear_entries
clear_entries-IsCleared zero table i h = (
  table,
  refl,
  record { size = refl; before = λ j lt. refl; cleared = λ j lo hi. absurd (omega arith) },
)
clear_entries-IsCleared (suc left) table i h =
    let len = length-set table i set_rw_not_present in
    let (out, runs, c) =
      clear_entries-IsCleared left (set table i set_rw_not_present) (i + 1) (omega arith) in
    (
      out,
      rw (store_lem table i set_rw_not_present (omega arith)) runs,
      record {
        size = c.size ∙ len;
        before = λ j lt.
            c.before j (omega arith) ∙ get_elem?-set_ne table i j set_rw_not_present (omega arith);
        cleared = λ j lo hi. elim (Bool-cases (j == i)) [
          | inl eq ↦
              let j_i : j ≡ i = ground arith in
              rw j_i (
                c.before i (omega arith)
                ∙ get_elem?-set_self table i set_rw_not_present (omega arith))
          | inr ne ↦ c.cleared j (ground arith) (omega arith)
        ];
      },
    )
