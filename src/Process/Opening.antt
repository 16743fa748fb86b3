-- ===== src/Process/Opening.antt =====
-- Opening a file of student-distrib/syscall.c: which descriptor is taken, and what is set up.
use linux_simulation.Base.{
  ℕ, zero, suc, ◌+◌, ◌≤◌, ◌<◌, ◌≡◌, ◌⊎◌, inl, inr, refl, ◌∙◌, ap, true, false, Bool-cases, none,
  some, List, [], ◌∷◌, ◌==◌, if◌then◌else◌, get_or, length, get_elem?-eq-get_or, arith,
}
use linux_simulation.Process.{FileNode, closed_node}
use linux_simulation.Process.Files.{find_fd}

-- The node and the flag of a descriptor.
abbrev pub node_at : List FileNode → ℕ → FileNode
node_at files fd = get_or files fd closed_node

abbrev pub flag_at : List FileNode → ℕ → ℕ
flag_at files fd = (node_at files fd).flags

abbrev pub opened_count : List FileNode → ℕ
opened_count [] = 0
opened_count (n ∷ files) = n.flags + opened_count files

-- Eight nodes, each of which is open or not.
pub record IsFileArray (files : List FileNode) : Type 0 where
  pub size : length files ≡ 8
  pub flag : (fd : ℕ) → fd < 8 → flag_at files fd ≤ 1

-- What the loop finds from `i` on: a free descriptor with taken ones in front of it, and the last
-- descriptor is free unless the found one is `i`.
pub record FirstFree (files : List FileNode) (i fd : ℕ) : Type 0 where
  pub low : i ≤ fd
  pub high : fd < 8
  pub free : flag_at files fd ≡ 0
  pub taken : (j : ℕ) → i ≤ j → j < fd → flag_at files j ≡ 1
  pub last : (fd ≡ i) ⊎ (flag_at files 7 ≡ 0)

-- One round of the search.
find_fd-round :
    (left : ℕ) (files : List FileNode) (i : ℕ)
    → IsFileArray files
    → i < 8
    → find_fd (suc left) files i ≡ (
        if flag_at files i == 0
        then some (some i)
        else if flag_at files 7 == 1
        then some none
        else find_fd left files (i + 1))
unfolding find_fd
find_fd-round left files i h lt =
    let size = h.size in
    let here = get_elem?-eq-get_or files i closed_node (omega arith) in
    let at_7 = get_elem?-eq-get_or files 7 closed_node (omega arith) in rw here (rw at_7 refl)

-- A free descriptor is found at once.
found_here :
    (files : List FileNode) (i : ℕ) → i < 8 → (flag_at files i == 0) ≡ true → FirstFree files i i
found_here files i lt free = record {
  low = omega arith;
  high = lt;
  free = ground arith;
  taken = λ j lo hi. absurd (omega arith);
  last = inl refl;
}

-- A free descriptor behind a taken one, when the last one is free.
further :
    (files : List FileNode) (i fd : ℕ)
    → IsFileArray files
    → flag_at files i ≤ 1
    → (flag_at files i == 0) ≡ false
    → (flag_at files 7 == 1) ≡ false
    → FirstFree files (i + 1) fd
    → FirstFree files i fd
further files i fd h bound taken room f =
    let bound_7 = h.flag 7 (omega arith) in
    record {
      low = let l = f.low in omega arith;
      high = f.high;
      free = f.free;
      taken = λ j lo hi. elim (Bool-cases (j == i)) [
        | inl eq ↦
            ap (flag_at files) (let q : j ≡ i = ground arith in q)
            ∙ (let q : flag_at files i ≡ 1 = ground arith in q)
        | inr ne ↦ f.taken j (ground arith) hi
      ];
      last = inr (ground arith);
    }

find_fd-from :
    (left : ℕ) (files : List FileNode) (i : ℕ)
    → IsFileArray files
    → i + suc left ≡ 8
    → ((fd : ℕ) × (find_fd (suc left) files i ≡ some (some fd)) × FirstFree files i fd)
      ⊎ ((find_fd (suc left) files i ≡ some none) × (flag_at files i ≡ 1) × (flag_at files 7 ≡ 1))
find_fd-from zero files i h e =
    let bound_i = h.flag i (omega arith) in
    let same : flag_at files i ≡ flag_at files 7 = ap (flag_at files) (omega arith) in
    let round = find_fd-round 0 files i h (omega arith) in
    elim (Bool-cases (flag_at files i == 0)) [
      | inl free ↦ inl (i, rw round (rw free refl), found_here files i (omega arith) free)
      | inr taken ↦
          let full : (flag_at files 7 == 1) ≡ true = ground arith in
          inr (rw round (rw taken (rw full refl)), ground arith, ground arith)
    ]
find_fd-from (suc left) files i h e =
    let bound_i = h.flag i (omega arith) in
    let bound_7 = h.flag 7 (omega arith) in
    let round = find_fd-round (suc left) files i h (omega arith) in
    elim (Bool-cases (flag_at files i == 0)) [
      | inl free ↦ inl (i, rw round (rw free refl), found_here files i (omega arith) free)
      | inr taken ↦ elim (Bool-cases (flag_at files 7 == 1)) [
        | inl full ↦ inr (rw round (rw taken (rw full refl)), ground arith, ground arith)
        | inr room ↦ elim (find_fd-from left files (i + 1) h (omega arith)) [
          | inl (fd, runs, f) ↦
              inl
                (fd, rw round (rw taken (rw room runs)), further files i fd h bound_i taken room f)
          | inr (runs, one, full) ↦ absurd (ground arith)
        ]
      ]
    ]

-- The search of `open` in a file array: it takes descriptor 2 when it is free; else it gives up
-- when descriptor 7 is open, whether or not another one is free; else it takes the first free one.
pub find_fd-FirstFree :
    (files : List FileNode)
    → IsFileArray files
    → ((fd : ℕ) × (find_fd 6 files 2 ≡ some (some fd)) × FirstFree files 2 fd)
      ⊎ ((find_fd 6 files 2 ≡ some none) × (flag_at files 2 ≡ 1) × (flag_at files 7 ≡ 1))
find_fd-FirstFree files h = find_fd-from 5 files 2 h refl
