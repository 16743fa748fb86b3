-- ===== src/Console/Scroll.antt =====
-- What `scrolling` does to the screen, and that it is defined.
use linux_simulation.Base.{
  ℕ, zero, suc, ◌+◌, ◌-◌, ◌≤◌, ◌<◌, ◌≡◌, ◌≢◌, inl, inr, refl, ◌∙◌, ◌==◌, arith, Bool-cases,
}
use linux_simulation.Console.{Video, num_cols, num_rows, poke, cell}
use linux_simulation.Console.Scrolling.{copy_row, copy_rows, clear_row}

copy_row-other :
    (left row col : ℕ) (v : Video) (a : ℕ)
    → ((j : ℕ) → col ≤ j → j < col + left → a ≢ cell row j)
    → copy_row left row col v a ≡ v a
unfolding copy_row
copy_row-other zero row col v a h = refl
copy_row-other (suc left) row col v a h =
    let here = h col (omega arith) (omega arith) in
    copy_row-other left row (col + 1) _ a (λ j p q. h j (omega arith) (omega arith)) ∙ ground arith

copy_row-cell :
    (left row col : ℕ) (v : Video) (j : ℕ)
    → col ≤ j
    → j < col + left
    → col + left ≤ num_cols
    → copy_row left row col v (cell row j) ≡ v (cell (row + 1) j)
unfolding copy_row
copy_row-cell zero row col v j p q r = absurd (omega arith)
copy_row-cell (suc left) row col v j p q r =
    let v' : Video = poke v (cell row col) (v (cell (row + 1) col)) in
    elim (Bool-cases (j == col)) [
      | inl eq ↦
          let e : j ≡ col = ground arith in
          rw e (
            copy_row-other left row (col + 1) v' (cell row col) (λ k a b. omega arith)
            ∙ ground arith)
      | inr ne ↦
          copy_row-cell left row (col + 1) v' j (ground arith) (omega arith) (omega arith)
          ∙ ground arith
    ]

copy_rows-other :
    (left row : ℕ) (v : Video) (a : ℕ)
    → ((r j : ℕ) → row ≤ r → r < row + left → j < num_cols → a ≢ cell r j)
    → copy_rows left row v a ≡ v a
unfolding copy_rows
copy_rows-other zero row v a h = refl
copy_rows-other (suc left) row v a h =
    copy_rows-other left (row + 1) _ a (λ r j p q s. h r j (omega arith) (omega arith) s)
    ∙ copy_row-other num_cols row 0 v a (λ j p q. h row j (omega arith) (omega arith) (omega arith))

copy_rows-cell :
    (left row : ℕ) (v : Video) (r j : ℕ)
    → row ≤ r
    → r < row + left
    → j < num_cols
    → copy_rows left row v (cell r j) ≡ v (cell (r + 1) j)
unfolding copy_rows
copy_rows-cell zero row v r j p q s = absurd (omega arith)
copy_rows-cell (suc left) row v r j p q s = elim (Bool-cases (r == row)) [
  | inl eq ↦
      let e : r ≡ row = ground arith in
      rw e (
        copy_rows-other left (row + 1) _ (cell row j) (λ r' j' a b d. omega arith)
        ∙ copy_row-cell num_cols row 0 v j (omega arith) (omega arith) (omega arith))
  | inr ne ↦
      copy_rows-cell left (row + 1) _ r j (ground arith) (omega arith) s
      ∙ copy_row-other num_cols row 0 v (cell (r + 1) j) (λ j' a b. omega arith)
]

clear_row-other :
    (left row col : ℕ) (v : Video) (a : ℕ)
    → ((j : ℕ) → col ≤ j → j < col + left → a ≢ cell row j)
    → clear_row left row col v a ≡ v a
unfolding clear_row
clear_row-other zero row col v a h = refl
clear_row-other (suc left) row col v a h =
    let here = h col (omega arith) (omega arith) in
    clear_row-other left row (col + 1) _ a (λ j p q. h j (omega arith) (omega arith)) ∙ ground arith

clear_row-cell :
    (left row col : ℕ) (v : Video) (j : ℕ)
    → col ≤ j
    → j < col + left
    → clear_row left row col v (cell row j) ≡ 0x20
unfolding clear_row
clear_row-cell zero row col v j p q = absurd (omega arith)
clear_row-cell (suc left) row col v j p q = elim (Bool-cases (j == col)) [
  | inl eq ↦
      let e : j ≡ col = ground arith in
      rw e
        (clear_row-other left row (col + 1) _ (cell row col) (λ k a b. omega arith) ∙ ground arith)
  | inr ne ↦ clear_row-cell left row (col + 1) _ j (ground arith) (omega arith)
]

-- The screen `w` is the screen `v` moved up by one row: every character comes from the row below,
-- the last row is blank, and no attribute and no byte behind the 25 rows changes.
pub record MovedUp (v w : Video) : Type 0 where
  pub moved : (r j : ℕ) → r < 24 → j < num_cols → w (cell r j) ≡ v (cell (r + 1) j)
  pub blank : (j : ℕ) → j < num_cols → w (cell 24 j) ≡ 0x20
  pub attributes : (r j : ℕ) → r < num_rows → j < num_cols → w (cell r j + 1) ≡ v (cell r j + 1)
  pub behind : (a : ℕ) → 4000 ≤ a → w a ≡ v a

pub copy_rows-MovedUp :
    (v : Video) → MovedUp v (clear_row num_cols (num_rows - 1) 0 (copy_rows (num_rows - 1) 0 v))
copy_rows-MovedUp v = record {
  moved = λ r j p q.
      clear_row-other 80 24 0 _ (cell r j) (λ k a b. omega arith)
      ∙ copy_rows-cell 24 0 v r j (omega arith) (omega arith) q;
  blank = λ j q. clear_row-cell 80 24 0 _ j (omega arith) (omega arith);
  attributes = λ r j p q.
      clear_row-other 80 24 0 _ (cell r j + 1) (λ k a b. omega arith)
      ∙ copy_rows-other 24 0 v (cell r j + 1) (λ r' k a b d. omega arith);
  behind = λ a h.
      clear_row-other 80 24 0 _ a (λ k p q. omega arith)
      ∙ copy_rows-other 24 0 v a (λ r k p q d. omega arith);
}
