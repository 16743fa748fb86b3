-- ===== src/Programs/Commands.antt =====
-- What ece391shell.c of syscalls/ does with a line.
use linux_simulation.Base.{
  ℕ, zero, suc, ◌+◌, ◌-◌, ◌^◌, ◌<◌, ◌≡◌, ◌∙◌, refl, sym, ap, inl, inr, Bool, true, false, ◌&&◌, not,
  Bool-cases, Option, minus_one, none, some, List, [], ◌∷◌, ◌++◌, ◌==◌, ltb, codes, get_elem?,
  length, if◌then◌else◌, lt_signed, sub32, arith, length-append, store, store_lem, set,
  get_elem?-append_left,
}
use linux_simulation.CString.{Reader, bytes_of}
use linux_simulation.Programs.{Calls, line_end, report, shell_line}
use linux_simulation.UserLib.{
  ece391_fdputs, ece391_strlen, length_loop, ece391_strcmp, compare_loop,
}

-- The bytes of a text: no zero.
abbrev pub letters : List ℕ → Bool
letters [] = true
letters (x ∷ xs) = not (x == 0) && ltb x 256 && letters xs

abbrev pub same : List ℕ → List ℕ → Bool
same [] [] = true
same [] (y ∷ ys) = false
same (x ∷ xs) [] = false
same (x ∷ xs) (y ∷ ys) = (x == y) && same xs ys

-- The text, with a zero behind it, stands at an index.
record StandsAt (s : Reader) (i : ℕ) (xs : List ℕ) : Type 0 where
  text : (j : ℕ) → j < length xs → s (i + j) ≡ get_elem? xs j
  ending : s (i + length xs) ≡ some 0

unequal : (a b : ℕ) → a < 256 → b < 256 → (a == b) ≡ false → (sub32 a b == 0) ≡ false
unequal a b h h' ne = ground arith

stands_first : (s : Reader) (i x : ℕ) (xs : List ℕ) → StandsAt s i (x ∷ xs) → s i ≡ some x
stands_first s i x xs h = let at : i ≡ i + 0 = omega arith in ap s at ∙ h.text 0 (omega arith)

stands_end : (s : Reader) (i : ℕ) → StandsAt s i [] → s i ≡ some 0
stands_end s i h = let at : i ≡ i + 0 = omega arith in ap s at ∙ h.ending

stands_rest : (s : Reader) (i x : ℕ) (xs : List ℕ) → StandsAt s i (x ∷ xs) → StandsAt s (i + 1) xs
stands_rest s i x xs h = record {
  text = λ j lt.
      let at : i + 1 + j ≡ i + suc j = omega arith in ap s at ∙ h.text (suc j) (omega arith);
  ending = let at : i + 1 + length xs ≡ i + suc (length xs) = omega arith in ap s at ∙ h.ending;
}

-- The comparison gives 0 for equal texts, and for no others.
compare_loop-same :
    (rounds : ℕ) (s t : Reader) (i : ℕ) (xs ys : List ℕ)
    → letters xs ≡ true
    → letters ys ≡ true
    → StandsAt s i xs
    → StandsAt t i ys
    → length xs < rounds
    → (r : ℕ) × (compare_loop rounds s t i ≡ some r) × ((r == 0) ≡ same xs ys)
unfolding compare_loop
compare_loop-same zero s t i xs ys lx ly hs ht enough = absurd (omega arith)
compare_loop-same (suc rounds) s t i [] [] lx ly hs ht enough =
    (0, rw (stands_end s i hs) (rw (stands_end t i ht) refl), refl)
compare_loop-same (suc rounds) s t i [] (y ∷ ys) lx ly hs ht enough =
    let ne : (0 == y) ≡ false = ground arith in
    (
      sub32 0 y,
      rw (stands_end s i hs) (rw (stands_first t i y ys ht) (rw ne refl)),
      unequal 0 y (omega arith) (ground arith) ne,
    )
compare_loop-same (suc rounds) s t i (x ∷ xs) [] lx ly hs ht enough =
    let ne : (x == 0) ≡ false = ground arith in
    (
      sub32 x 0,
      rw (stands_first s i x xs hs) (rw (stands_end t i ht) (rw ne refl)),
      unequal x 0 (ground arith) (omega arith) ne,
    )
compare_loop-same (suc rounds) s t i (x ∷ xs) (y ∷ ys) lx ly hs ht enough =
    let x_ne : (x == 0) ≡ false = ground arith in
    elim (Bool-cases (x == y)) [
      | inl eq ↦
          let (r, runs, means) =
            compare_loop-same rounds s t (i + 1) xs ys (ground arith) (ground arith)
              (stands_rest s i x xs hs) (stands_rest t i y ys ht) (omega arith) in
          (
            r,
            rw (stands_first s i x xs hs) (rw (stands_first t i y ys ht) (rw eq (rw x_ne runs))),
            means ∙ ap (λ b. b && same xs ys) (sym eq),
          )
      | inr ne ↦ (
        sub32 x y,
        rw (stands_first s i x xs hs) (rw (stands_first t i y ys ht) (rw ne refl)),
        unequal x y (ground arith) (ground arith) ne ∙ ap (λ b. b && same xs ys) (sym ne),
      )
    ]

middle : (xs ys : List ℕ) (y : ℕ) → get_elem? (xs ++ y ∷ ys) (length xs) ≡ some y
middle [] ys y = refl
middle (x ∷ xs) ys y = middle xs ys y

set_middle : (xs ys : List ℕ) (y z : ℕ) → set (xs ++ y ∷ ys) (length xs) z ≡ xs ++ z ∷ ys
set_middle [] ys y z = refl
set_middle (x ∷ xs) ys y z = ap (λ l. x ∷ l) (set_middle xs ys y z)

text_stands : (xs more : List ℕ) → StandsAt (bytes_of (xs ++ 0 ∷ more)) 0 xs
text_stands xs more = record {
  text = λ j lt.
      let at : 0 + j ≡ j = omega arith in
      ap (bytes_of (xs ++ 0 ∷ more)) at ∙ get_elem?-append_left xs (0 ∷ more) j lt;
  ending =
      let at : 0 + length xs ≡ length xs = omega arith in
      ap (bytes_of (xs ++ 0 ∷ more)) at ∙ middle xs more 0;
}

-- The newline behind the text is found.
line_end_newline :
    (cmd more : List ℕ)
    → length cmd < 1023
    → line_end (cmd ++ 0x0A ∷ more) (length cmd + 1) ≡ some (length cmd)
unfolding line_end
line_end_newline cmd more short =
    let some_read : lt_signed 0 (length cmd + 1) ≡ true = ground arith in
    let last : length cmd + 1 - 1 ≡ length cmd = omega arith in
    let newline : get_elem? (cmd ++ 0x0A ∷ more) (length cmd + 1 - 1) ≡ some 0x0A =
      ap (get_elem? (cmd ++ 0x0A ∷ more)) last ∙ middle cmd more 0x0A in
    rw some_read (rw newline (ap some last))

first_test :
    (cmd more : List ℕ)
    → letters cmd ≡ true
    → (first : ℕ) × (get_elem? (cmd ++ 0 ∷ more) 0 ≡ some first) × ((first == 0) ≡ same cmd [])
first_test [] more h = (0, refl, refl)
first_test (x ∷ xs) more h = (x, refl, ground arith)

-- What the user is told of a result, if anything.
abbrev pub answer : ℕ → Option (List ℕ)
answer r =
    if r == minus_one
    then some (codes "no such command" ++ 0x0A ∷ [])
    else if r == 256
    then some (codes "program terminated by exception" ++ 0x0A ∷ [])
    else if r == 0
    then none
    else some (codes "program terminated abnormally" ++ 0x0A ∷ [])

module _ {W : Type 0} (c : Calls W) where
  -- A text that is written to the screen, whole.
  abbrev pub told : W → Option (List ℕ) → W
  told w none = w
  told w (some text) = (c.ece391_write w 1 (bytes_of (text ++ 0 ∷ [])) (length text)).0

  report-answer : (w : W) (r : ℕ) → report c w r ≡ some (told w (answer r))
  unfolding report ece391_fdputs ece391_strlen length_loop
  report-answer w r = elim (Bool-cases (r == minus_one)) [
    | inl none_such ↦ rw none_such refl
    | inr ran ↦ elim (Bool-cases (r == 256)) [
      | inl exception ↦ rw ran (rw exception refl)
      | inr ended ↦ elim (Bool-cases (r == 0)) [
        | inl well ↦ rw ran (rw ended (rw well refl))
        | inr badly ↦ rw ran (rw ended (rw badly refl))
      ]
    ]
  ]

  -- The shell, on a line of at most 1022 bytes, none of them zero, and the newline: it ends with 0 for the word `exit`; it does
  -- nothing for an empty line; for any other it has the system execute exactly the text of the line,
  -- with a zero in the newline's place, and writes what the result calls for: that there is no such
  -- command, that an exception ended the program, nothing for 0, or that it terminated abnormally.
  pub shell_line-executes :
      (w : W) (cmd more : List ℕ)
      → letters cmd ≡ true
      → length cmd < 1023
      → let line = cmd ++ 0 ∷ more in
        shell_line c w (cmd ++ 0x0A ∷ more) (length cmd + 1) ≡ (
          if same cmd (codes "exit")
          then some (w, line, some 0)
          else if same cmd []
          then some (w, line, none)
          else some (
            told
                (c.ece391_execute w (bytes_of line)).0
                (answer (c.ece391_execute w (bytes_of line)).1),
            line,
            none,
          ))
  unfolding shell_line ece391_strcmp
  shell_line-executes w cmd more h short =
      let line = cmd ++ 0 ∷ more in
      let size = length-append cmd (0x0A ∷ more) in
      let cut : store (cmd ++ 0x0A ∷ more) (length cmd) 0 ≡ some line =
        store_lem (cmd ++ 0x0A ∷ more) (length cmd) 0 (omega arith)
        ∙ ap some (set_middle cmd more 0x0A 0) in
      let (order, compares, means) =
        compare_loop-same (2 ^ 32) (bytes_of line) (bytes_of (codes "exit" ++ 0 ∷ [])) 0 cmd
          (codes "exit") h refl (text_stands cmd more) (text_stands (codes "exit") [])
          (omega arith) in
      let (first, at_first, empty) = first_test cmd more h in
      let ran = c.ece391_execute w (bytes_of line) in
      let says = report-answer ran.0 ran.1 in
      rw (line_end_newline cmd more short)
        (rw cut (rw compares (rw at_first (rw means (rw empty (rw says refl))))))
