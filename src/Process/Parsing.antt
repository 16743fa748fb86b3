-- ===== src/Process/Parsing.antt =====
-- The two loops of `execute` of student-distrib/syscall.c over a command line.
use linux_simulation.Base.{
  ℕ, zero, suc, ◌+◌, ◌-◌, ◌≤◌, ◌<◌, ◌≡◌, ◌⊎◌, inl, inr, refl, ◌∙◌, false, Bool-cases, some, List,
  ◌==◌, ◌&&◌, store_lem, get_or, set, length, length-set, ◌≢◌, sym, true, get_elem?-eq-get_or,
  get_or-set_self, get_or-set_ne, arith,
}
use linux_simulation.Process.Command.{parse_args, parse_command}

-- `out` is `buf` with the bytes of `line` from `from` up to `to` written at `at`.
pub record HasPart (line buf : List ℕ) (from to at : ℕ) (out : List ℕ) : Type 0 where
  pub same_length : length out ≡ length buf
  pub taken : (j : ℕ) → from + j < to → get_or out (at + j) 0 ≡ get_or line (from + j) 0
  pub kept : (j : ℕ) → (j < at) ⊎ (at + (to - from) ≤ j) → get_or out j 0 ≡ get_or buf j 0

-- One more byte in front.
HasPart-suc :
    (line buf : List ℕ) (from to at : ℕ) (out : List ℕ)
    → from < to
    → at < length buf
    → HasPart line (set buf at (get_or line from 0)) (from + 1) to (at + 1) out
    → HasPart line buf from to at out
HasPart-suc line buf from to at out lt room t = record {
  same_length = t.same_length ∙ length-set buf at (get_or line from 0);
  taken = λ j inside. elim (Bool-cases (j == 0)) [
    | inl first ↦
        let j_0 : j ≡ 0 = ground arith in
        let here : at + 0 ≡ at = omega arith in
        let there : from + 0 ≡ from = omega arith in
        rw (j_0, here, there)
          (t.kept at (inl (omega arith)) ∙ get_or-set_self buf at (get_or line from 0) 0 room)
    | inr later ↦
        let a : at + j ≡ at + 1 + (j - 1) = ground arith in
        let f : from + j ≡ from + 1 + (j - 1) = ground arith in
        rw (a, f) (t.taken (j - 1) (ground arith))
  ];
  kept =
      λ j o. t.kept j (omega arith) ∙ get_or-set_ne buf at j (get_or line from 0) 0 (omega arith);
}

-- The second loop behind the spaces: everything up to the end is kept.
parse_args-keep :
    (left : ℕ) (line : List ℕ) (j : ℕ) (buf : List ℕ) (index : ℕ)
    → j + left ≤ length line
    → index + left ≤ length buf
    → (out : List ℕ) × (parse_args left line j 1 buf index ≡ some out)
      × HasPart line buf j (j + left) index out
unfolding parse_args
parse_args-keep zero line j buf index inside room = (
  buf,
  refl,
  record { same_length = refl; taken = λ k lt. absurd (omega arith); kept = λ k o. refl },
)
parse_args-keep (suc left) line j buf index inside room =
    let at_j = get_elem?-eq-get_or line j 0 (omega arith) in
    let c : ℕ = get_or line j 0 in
    let fits = store_lem buf index c (omega arith) in
    let len = length-set buf index c in
    let (out, runs, t) =
      parse_args-keep left line (j + 1) (set buf index c) (index + 1) (omega arith) (omega arith) in
    let to : j + 1 + left ≡ j + suc left = omega arith in
    let kept : (c == 0x20 && 1 == 0) ≡ false = ground arith in
    (
      out,
      rw at_j (rw kept (rw fits runs)),
      HasPart-suc line buf j (j + suc left) index out (omega arith) (omega arith) (rw to at t),
    )

same_start :
    (line buf : List ℕ) (i j to at : ℕ) (out : List ℕ)
    → i ≡ j
    → HasPart line buf i to at out
    → HasPart line buf j to at out
same_start line buf i j to at out e t = rw (sym e) t

-- The second loop: from `j` to `c` there are spaces, and at `c` the arguments begin, if any.
pub parse_args-HasPart :
    (left : ℕ) (line : List ℕ) (j c n : ℕ) (buf : List ℕ)
    → j + left ≡ n
    → j ≤ c
    → c ≤ n
    → n ≤ length line
    → n - c ≤ length buf
    → ((k : ℕ) → j ≤ k → k < c → get_or line k 0 ≡ 0x20)
    → (c < n → get_or line c 0 ≢ 0x20)
    → (out : List ℕ) × (parse_args left line j 0 buf 0 ≡ some out) × HasPart line buf c n 0 out
unfolding parse_args
parse_args-HasPart zero line j c n buf e le most inside room spaces args = (
  buf,
  refl,
  record { same_length = refl; taken = λ k lt. absurd (omega arith); kept = λ k o. refl },
)
parse_args-HasPart (suc left) line j c n buf e le most inside room spaces args =
    let at_j = get_elem?-eq-get_or line j 0 (omega arith) in
    elim (Bool-cases (j == c)) [
      | inl begins ↦
          let j_c : j ≡ c = ground arith in
          let char : get_or line j 0 ≢ 0x20 = rw j_c (args (omega arith)) in
          let kept : (get_or line j 0 == 0x20 && 0 == 0) ≡ false = ground arith in
          let fits = store_lem buf 0 (get_or line j 0) (omega arith) in
          let len = length-set buf 0 (get_or line j 0) in
          let (out, runs, t) =
            parse_args-keep left line (j + 1) (set buf 0 (get_or line j 0)) 1 (omega arith)
              (omega arith) in
          let to : j + 1 + left ≡ n = omega arith in
          let part : HasPart line buf j n 0 out =
            HasPart-suc line buf j n 0 out (omega arith) (omega arith) (rw to at t) in
          (out, rw at_j (rw kept (rw fits runs)), same_start line buf j c n 0 out j_c part)
      | inr before ↦
          let space : get_or line j 0 ≡ 0x20 = spaces j (omega arith) (ground arith) in
          let skipped : (get_or line j 0 == 0x20 && 0 == 0) ≡ true = ground arith in
          let (out, runs, t) =
            parse_args-HasPart left line (j + 1) c n buf (omega arith) (ground arith) most inside
              room (λ k lo hi. spaces k (omega arith) hi) args in
          (out, rw at_j (rw skipped runs), t)
    ]

-- The first loop in the command, from `i` to `b`, where a space or the end follows.
parse_command-word :
    (left : ℕ) (line : List ℕ) (i b n indicator : ℕ) (cmd : List ℕ) (index : ℕ)
    → i + left ≡ n
    → i ≤ b
    → b ≤ n
    → n ≤ length line
    → index + (b - i) < length cmd
    → (i < b) ⊎ (indicator ≡ 1)
    → ((k : ℕ) → i ≤ k → k < b → get_or line k 0 ≢ 0x20)
    → (b < n → get_or line b 0 ≡ 0x20)
    → ((k : ℕ) → index ≤ k → get_or cmd k 0 ≡ 0)
    → (out : List ℕ) × (parse_command left line i indicator cmd index ≡ some (out, b))
      × HasPart line cmd i b index out
unfolding parse_command
parse_command-word zero line i b n indicator cmd index e le most inside room one word space zeros =
    let same : i ≡ b = omega arith in
    (
      cmd,
      rw same refl,
      record { same_length = refl; taken = λ k lt. absurd (omega arith); kept = λ k o. refl },
    )
parse_command-word (suc left) line i b n indicator cmd index e le most inside room one word space
      zeros =
    let at_i = get_elem?-eq-get_or line i 0 (omega arith) in
    elim (Bool-cases (i == b)) [
      | inl over ↦
          let i_b : i ≡ b = ground arith in
          let is_space : (get_or line i 0 == 0x20) ≡ true =
            (let s : get_or line b 0 ≡ 0x20 = space (omega arith) in rw i_b (ground arith)) in
          let in_word : (indicator == 0) ≡ false = ground arith in
          let fits = store_lem cmd index 0 (omega arith) in
          (
            set cmd index 0,
            rw at_i (rw is_space (rw in_word (rw fits (rw i_b refl)))),
            record {
              same_length = length-set cmd index 0;
              taken = λ k lt. absurd (omega arith);
              kept = λ k o. elim (Bool-cases (k == index)) [
                | inl eq ↦
                    let k_i : k ≡ index = ground arith in
                    rw k_i (
                      get_or-set_self cmd index 0 0 (omega arith) ∙ sym (zeros index (omega arith)))
                | inr ne ↦ get_or-set_ne cmd index k 0 0 (ground arith)
              ];
            },
          )
      | inr more ↦
          let char : (get_or line i 0 == 0x20) ≡ false =
            (let w = word i (omega arith) (ground arith) in ground arith) in
          let fits = store_lem cmd index (get_or line i 0) (omega arith) in
          let len = length-set cmd index (get_or line i 0) in
          let (out, runs, t) =
            parse_command-word left line (i + 1) b n 1 (set cmd index (get_or line i 0)) (index + 1)
              (omega arith) (ground arith) most inside (ground arith) (inr refl)
              (λ k lo hi. word k (omega arith) hi) space
              (λ k lo.
                get_or-set_ne cmd index k (get_or line i 0) 0 (omega arith)
                ∙ zeros k (omega arith)) in
          (
            out,
            rw at_i (rw char (rw fits runs)),
            HasPart-suc line cmd i b index out (ground arith) (omega arith) t,
          )
    ]

-- The first loop from the front: spaces up to `a`, then the command.
pub parse_command-HasPart :
    (left : ℕ) (line : List ℕ) (i a b n : ℕ) (cmd : List ℕ)
    → i + left ≡ n
    → i ≤ a
    → a < b
    → b ≤ n
    → n ≤ length line
    → b - a < length cmd
    → ((k : ℕ) → i ≤ k → k < a → get_or line k 0 ≡ 0x20)
    → ((k : ℕ) → a ≤ k → k < b → get_or line k 0 ≢ 0x20)
    → (b < n → get_or line b 0 ≡ 0x20)
    → ((k : ℕ) → get_or cmd k 0 ≡ 0)
    → (out : List ℕ) × (parse_command left line i 0 cmd 0 ≡ some (out, b))
      × HasPart line cmd a b 0 out
unfolding parse_command
parse_command-HasPart zero line i a b n cmd e le lt most inside room spaces word space zeros =
    absurd (omega arith)
parse_command-HasPart (suc left) line i a b n cmd e le lt most inside room spaces word space zeros =
    elim (Bool-cases (i == a)) [
      | inl begins ↦
          let a_i : a ≡ i = ground arith in
          let (out, runs, t) =
            parse_command-word (suc left) line i b n 0 cmd 0 e (omega arith) most inside
              (omega arith) (inl (omega arith)) (λ k lo hi. word k (omega arith) hi) space
              (λ k lo. zeros k) in
          (out, runs, same_start line cmd i a b 0 out (sym a_i) t)
      | inr before ↦
          let at_i = get_elem?-eq-get_or line i 0 (omega arith) in
          let is_space : (get_or line i 0 == 0x20) ≡ true =
            (let s = spaces i (omega arith) (ground arith) in ground arith) in
          let (out, runs, t) =
            parse_command-HasPart left line (i + 1) a b n cmd (omega arith) (ground arith) lt most
              inside room (λ k lo hi. spaces k (omega arith) hi) word space zeros in
          (out, rw at_i (rw is_space runs), t)
    ]
