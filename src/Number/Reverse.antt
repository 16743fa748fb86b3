-- ===== src/Number/Reverse.antt =====
-- `strrev` of student-distrib/lib.c turns a string round.
use linux_simulation.Base.{
  ℕ, zero, suc, ◌+◌, ◌-◌, ◌*◌, ◌≤◌, ◌<◌, ◌^◌, ◌≡◌, ◌⊎◌, inl, inr, refl, ◌∙◌, ap, Bool-cases, some,
  List, ◌==◌, lt_signed, sub32, store_lem, get_or, set, length, length-set, get_elem?-eq-get_or,
  get_or-set_self, get_or-set_ne, arith,
}
use linux_simulation.CString.{bytes_of, strlen}
use linux_simulation.CString.Length.{IsString, strlen-IsString_iff}
use linux_simulation.Number.{reverse_loop, strrev}

-- `r` is `s` with the bytes from `beg` to `end` in reverse order.
pub record Turned (s : List ℕ) (beg end : ℕ) (r : List ℕ) : Type 0 where
  pub same_length : length r ≡ length s
  pub turned : (j : ℕ) → beg ≤ j → j ≤ end → get_or r j 0 ≡ get_or s (beg + end - j) 0
  pub kept : (j : ℕ) → (j < beg) ⊎ (end < j) → get_or r j 0 ≡ get_or s j 0

-- One swap, and the bytes between the two turned.
Turned-swap :
    (s : List ℕ) (beg end : ℕ) (r : List ℕ)
    → beg < end
    → end < length s
    → Turned (set (set s end (get_or s beg 0)) beg (get_or s end 0)) (beg + 1) (end - 1) r
    → Turned s beg end r
Turned-swap s beg end r lt inside t =
    let s1 : List ℕ = set s end (get_or s beg 0) in
    let l1 : length s1 ≡ length s = length-set s end (get_or s beg 0) in
    let l2 = length-set s1 beg (get_or s end 0) in
    record {
      same_length = t.same_length ∙ l2 ∙ l1;
      turned = λ j lo hi. elim (Bool-cases (j == beg)) [
        | inl first ↦
            let e : j ≡ beg = ground arith in
            let back : beg + end - beg ≡ end = omega arith in
            rw e (
              rw back (
                t.kept beg (inl (omega arith))
                ∙ get_or-set_self s1 beg (get_or s end 0) 0 (omega arith)))
        | inr not_first ↦ elim (Bool-cases (j == end)) [
          | inl last ↦
              let e : j ≡ end = ground arith in
              let back : beg + end - end ≡ beg = omega arith in
              rw e (
                rw back (
                  t.kept end (inr (omega arith))
                  ∙ get_or-set_ne s1 beg end (get_or s end 0) 0 (omega arith)
                  ∙ get_or-set_self s end (get_or s beg 0) 0 (omega arith)))
          | inr not_last ↦
              let same : beg + 1 + (end - 1) - j ≡ beg + end - j = omega arith in
              t.turned j (ground arith) (ground arith)
              ∙ rw same (
                  get_or-set_ne s1 beg (beg + end - j) (get_or s end 0) 0 (ground arith)
                  ∙ get_or-set_ne s end (beg + end - j) (get_or s beg 0) 0 (ground arith))
        ]
      ];
      kept = λ j o.
          t.kept j (omega arith)
          ∙ get_or-set_ne s1 beg j (get_or s end 0) 0 (omega arith)
          ∙ get_or-set_ne s end j (get_or s beg 0) 0 (omega arith);
    }

reverse_loop-Turned :
    (fuel : ℕ) (s : List ℕ) (beg end : ℕ)
    → end < length s
    → end + 1 < 2 ^ 31
    → beg ≤ end + 1
    → end < beg + 2 * fuel
    → (r : List ℕ) × (reverse_loop fuel s beg end ≡ some r) × Turned s beg end r
unfolding reverse_loop
reverse_loop-Turned zero s beg end inside small le enough = (
  s,
  refl,
  record { same_length = refl; turned = λ j lo hi. absurd (omega arith); kept = λ j o. refl },
)
reverse_loop-Turned (suc fuel) s beg end inside small le enough =
    elim (Bool-cases (lt_signed beg end)) [
      | inl less ↦
          let lt : beg < end = ground arith in
          let at_end = get_elem?-eq-get_or s end 0 inside in
          let at_beg = get_elem?-eq-get_or s beg 0 (omega arith) in
          let s1 : List ℕ = set s end (get_or s beg 0) in
          let l1 : length s1 ≡ length s = length-set s end (get_or s beg 0) in
          let l2 = length-set s1 beg (get_or s end 0) in
          let first = store_lem s end (get_or s beg 0) inside in
          let second = store_lem s1 beg (get_or s end 0) (omega arith) in
          let (r, runs, t) =
            reverse_loop-Turned fuel (set s1 beg (get_or s end 0)) (beg + 1) (end - 1) (omega arith)
              (omega arith) (omega arith) (omega arith) in
          (
            r,
            rw less (rw at_end (rw at_beg (rw first (rw second runs)))),
            Turned-swap s beg end r lt inside t,
          )
      | inr done ↦
          let le' : end ≤ beg = ground arith in
          (
            s,
            rw done refl,
            record {
              same_length = refl;
              turned = λ j lo hi. ap (λ m. get_or s m 0) (omega arith);
              kept = λ j o. refl;
            },
          )
    ]

strrev_runs :
    (s : List ℕ) (n last : ℕ) (r : List ℕ)
    → strlen (bytes_of s) ≡ some n
    → sub32 n 1 ≡ last
    → reverse_loop n s 0 last ≡ some r
    → strrev s ≡ some r
unfolding strrev
strrev_runs s n last r len e runs = rw len (rw e runs)

-- `strrev` of a string of `n` bytes, `n` below 2 ^ 31, turns the bytes round and leaves the zero and
-- what stands behind it.
pub strrev-Turned :
    (s : List ℕ) (n : ℕ)
    → IsString (bytes_of s) n
    → n < length s
    → n < 2 ^ 31
    → (r : List ℕ) × (strrev s ≡ some r)
      × (length r ≡ length s)
      × ((j : ℕ) → j < n → get_or r j 0 ≡ get_or s (n - 1 - j) 0)
      × ((j : ℕ) → n ≤ j → get_or r j 0 ≡ get_or s j 0)
unfolding reverse_loop
strrev-Turned s n h inside small =
    let len = (strlen-IsString_iff (bytes_of s) n (omega arith)).1 h in
    elim (Bool-cases (n == 0)) [
      | inl empty ↦
          let n_0 : n ≡ 0 = ground arith in
          (
            s,
            strrev_runs s n (sub32 n 1) s len refl (rw n_0 refl),
            refl,
            λ j lt. absurd (omega arith),
            λ j le. refl,
          )
      | inr some_bytes ↦
          let last : sub32 n 1 ≡ n - 1 = ground arith in
          let (r, runs, t) =
            reverse_loop-Turned n s 0 (n - 1) (omega arith) (omega arith) (omega arith)
              (ground arith) in
          (
            r,
            strrev_runs s n (n - 1) r len last runs,
            t.same_length,
            λ j lt. t.turned j (omega arith) (omega arith) ∙ ap (λ m. get_or s m 0) (omega arith),
            λ j le. t.kept j (inr (ground arith)),
          )
    ]
