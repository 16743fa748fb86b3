-- ===== src/Tasks/Slots.antt =====
-- Which slot `execute` of student-distrib/syscall.c takes.
use linux_simulation.Base.{
  ℕ, zero, suc, ◌+◌, ◌≤◌, ◌<◌, ◌≡◌, ◌≢◌, ◌⊎◌, inl, inr, refl, true, false, ◌&&◌, Bool-cases, some,
  List, [], ◌∷◌, ◌==◌, get_or, get_elem?-eq-get_or, length, arith,
}
use linux_simulation.Tasks.Execute.{free, find_slot}
use linux_simulation.Tasks.Stack.{mem, busy, total}

-- A slot is the first one that no task of the stack has.
pub record IsFirstFree (s : List ℕ) (i : ℕ) : Type 0 where
  pub in_range : i < 6
  pub unused : mem i s ≡ false
  pub before : (j : ℕ) → j < i → mem j s ≡ true

-- The loop from `i` on finds the first slot whose bit is 0, if there is one.
find_slot_lem :
    (left : ℕ) (bits : List ℕ) (i runn : ℕ)
    → i + left ≡ 6
    → length bits ≡ 6
    → runn < 6
    → ((j : ℕ) × (find_slot left bits i runn ≡ some (free j))
        × (i ≤ j)
        × (j < 6)
        × (get_or bits j 0 ≡ 0)
        × ((m : ℕ) → i ≤ m → m < j → get_or bits m 0 ≢ 0))
      ⊎ ((m : ℕ) → i ≤ m → m < 6 → get_or bits m 0 ≢ 0)
unfolding find_slot
find_slot_lem zero bits i runn e size few = inr (λ m lo hi. absurd (omega arith))
find_slot_lem (suc left) bits i runn e size few =
    let at_i = get_elem?-eq-get_or bits i 0 (omega arith) in
    elim (Bool-cases (get_or bits i 0 == 0)) [
      | inl is_free ↦ inl (
        i,
        rw at_i (rw is_free refl),
        omega arith,
        omega arith,
        ground arith,
        λ m lo hi. absurd (omega arith),
      )
      | inr is_taken ↦
          let here : get_or bits i 0 ≢ 0 = ground arith in
          let more : (i == 5 && runn == 6) ≡ false = ground arith in
          let at_m : (m : ℕ) → m ≡ i → get_or bits m 0 ≢ 0 = λ m eq. rw eq here in
          elim (find_slot_lem left bits (i + 1) runn (omega arith) size few) [
            | inl (j, finds, lo, hi, zero_bit, before) ↦ inl (
              j,
              rw at_i (rw is_taken (rw more finds)),
              omega arith,
              hi,
              zero_bit,
              λ m l h. elim (Bool-cases (m == i)) [
                | inl eq ↦ at_m m (ground arith)
                | inr ne ↦ before m (ground arith) h
              ],
            )
            | inr all_taken ↦ inr (λ m l h. elim (Bool-cases (m == i)) [
              | inl eq ↦ at_m m (ground arith)
              | inr ne ↦ all_taken m (ground arith) h
            ])
          ]
    ]

total-ge :
    (bits : List ℕ) → ((i : ℕ) → i < length bits → get_or bits i 0 ≢ 0) → length bits ≤ total bits
total-ge [] h = omega arith
total-ge (b ∷ bits) h =
    let first = h 0 (omega arith) in omega (arith, total-ge bits (λ i lt. h (suc i) (omega arith)))

-- With fewer than six tasks, the first free slot is found.
pub find_slot-IsFirstFree :
    (bits : List ℕ) (s : List ℕ) (runn : ℕ)
    → length bits ≡ 6
    → ((i : ℕ) → i < 6 → get_or bits i 0 ≡ busy s i)
    → total bits ≡ runn
    → runn < 6
    → (i : ℕ) × (find_slot 6 bits 0 runn ≡ some (free i)) × IsFirstFree s i
find_slot-IsFirstFree bits s runn size is_busy counted few =
    elim (find_slot_lem 6 bits 0 runn (omega arith) size few) [
      | inl (i, finds, lo, hi, zero_bit, before) ↦ (
        i,
        finds,
        record {
          in_range = hi;
          unused = let b = is_busy i hi in ground arith;
          before = λ j lt.
              let b = is_busy j (omega arith) in let ne = before j (omega arith) lt in ground arith;
        },
      )
      | inr all_taken ↦
          let all = total-ge bits (λ i lt. all_taken i (omega arith) (omega arith)) in
          absurd (omega arith)
    ]
