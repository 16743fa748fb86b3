-- ===== src/Scheduler/Choice.antt =====
-- Which process `get_next_availble_process` of student-distrib/sche.c chooses.
use linux_simulation.Base.{
  ℕ, zero, suc, ◌+◌, ◌-◌, ◌%◌, ◌≤◌, ◌<◌, ◌≡◌, ◌≢◌, ◌⊎◌, inl, inr, refl, ap, ◌∙◌, Bool-cases, some,
  List, ◌==◌, minus_one, length, get_or, get_elem?-eq-get_or, arith,
}
use linux_simulation.Scheduler.{next_from, get_next_availble_process}

-- The position `i` steps on, in the circle of five.
abbrev pub ahead : ℕ → ℕ → ℕ
ahead curr i = (curr + i) % 5

-- The first process ahead that runs, with idle ones before it.
pub record Next (states : List ℕ) (curr i d : ℕ) : Type 0 where
  pub low : i ≤ d
  pub high : d < 6
  pub runs : get_or states (ahead curr d) 0 ≢ 0
  pub idle : (j : ℕ) → i ≤ j → j < d → get_or states (ahead curr j) 0 ≡ 0

next_from-Next :
    (left : ℕ) (states : List ℕ) (curr i : ℕ)
    → length states ≡ 6
    → i + left ≡ 6
    → ((d : ℕ) × (next_from left states curr i ≡ some (ahead curr d)) × Next states curr i d)
      ⊎ ((next_from left states curr i ≡ some minus_one)
          × ((j : ℕ) → i ≤ j → j < 6 → get_or states (ahead curr j) 0 ≡ 0))
unfolding next_from
next_from-Next zero states curr i size e = inr (refl, λ j lo hi. absurd (omega arith))
next_from-Next (suc left) states curr i size e =
    let here = get_elem?-eq-get_or states (ahead curr i) 0 (omega arith) in
    elim (Bool-cases (get_or states (ahead curr i) 0 == 0)) [
      | inr runs ↦ inl (
        i,
        rw here (rw runs refl),
        record {
          low = omega arith;
          high = omega arith;
          runs = ground arith;
          idle = λ j lo hi. absurd (omega arith);
        },
      )
      | inl idle ↦
          let before : (k d : ℕ)
              → ((j : ℕ) → i + 1 ≤ j → j < d → get_or states (ahead curr j) 0 ≡ 0)
              → i ≤ k
              → k < d
              → get_or states (ahead curr k) 0 ≡ 0 =
            λ k d rest lo hi. elim (Bool-cases (k == i)) [
              | inl eq ↦
                  let same : k ≡ i = ground arith in
                  rw same (let z : get_or states (ahead curr i) 0 ≡ 0 = ground arith in z)
              | inr ne ↦ rest k (ground arith) hi
            ] in
          elim (next_from-Next left states curr (i + 1) size (omega arith)) [
            | inl (d, found, n) ↦ inl (
              d,
              rw here (rw idle found),
              record {
                low = let l = n.low in omega arith;
                high = n.high;
                runs = n.runs;
                idle = λ j lo hi. before j d n.idle lo hi;
              },
            )
            | inr (none_runs, all) ↦
                inr (rw here (rw idle none_runs), λ j lo hi. before j 6 all lo hi)
          ]
    ]

-- The choice among six processes, from any current position: the first of the next five positions in
-- the circle of the first five that runs, with idle ones in front of it; or -1, when all the first
-- five are idle. The sixth process is not chosen, whatever it does.
pub get_next_availble_process-Next :
    (states : List ℕ) (curr : ℕ)
    → length states ≡ 6
    → ((d : ℕ) × (get_next_availble_process states curr ≡ some (ahead curr d))
        × Next states curr 1 d
        × (ahead curr d < 5))
      ⊎ ((get_next_availble_process states curr ≡ some minus_one)
          × ((p : ℕ) → p < 5 → get_or states p 0 ≡ 0))
unfolding get_next_availble_process
get_next_availble_process-Next states curr size = elim (next_from-Next 5 states curr 1 size refl) [
  | inl (d, found, n) ↦ inl (d, found, n, omega arith)
  | inr (nothing, all) ↦ inr (
    nothing,
    λ p lt. elim (Bool-cases (p == curr % 5)) [
      | inl eq ↦
          ap (λ m. get_or states m 0) (let e : p ≡ ahead curr 5 = ground arith in e)
          ∙ all 5 (omega arith) (omega arith)
      | inr ne ↦
          let j : ℕ = (p + 5 - curr % 5) % 5 in
          ap (λ m. get_or states m 0) (let e : p ≡ ahead curr j = ground arith in e)
          ∙ all j (ground arith) (omega arith)
    ],
  )
]
