-- ===== src/Terminal/Read.antt =====
-- `terminal_read` of student-distrib/terminal.c hands over the line that the keyboard has ended.
use linux_simulation.Base.{
  ℕ, zero, suc, ◌+◌, ◌≤◌, ◌<◌, ◌^◌, ◌≡◌, ◌≢◌, ◌⊎◌, inl, inr, refl, ◌∙◌, true, false, Bool-cases,
  none, some, List, [], ◌∷◌, ◌==◌, ltb, minus_one, lt_signed, store_lem, get_elem?, get_or,
  get_elem?-eq-get_or, ap, ◌-◌, set, length, length-set, get_elem?-set_self, get_elem?-set_ne,
  arith,
}
use linux_simulation.Console.{buf_size}
use linux_simulation.Keyboard.{Keyboard, enter_line, keyboard_buffer_edit}
use linux_simulation.Keyboard.Edit.{HoldsLine}
use linux_simulation.Keyboard.Enter.{Handed}
use linux_simulation.Keyboard.Reader.{enter_line-Handed}
use linux_simulation.Keyboard.Scan.{keyboard_irq_handler, get_char, got}
use linux_simulation.Terminal.{wait_enter, copy_out, terminal_read}

-- `out` is `buf` with the bytes of `src` from `i` up to `n` written over it.
pub record ReadFrom (src buf : List ℕ) (i n : ℕ) (out : List ℕ) : Type 0 where
  pub same_length : length out ≡ length buf
  pub read : (j : ℕ) → i ≤ j → j < n → get_elem? out j ≡ get_elem? src j
  pub kept : (j : ℕ) → (j < i) ⊎ (n ≤ j) → get_elem? out j ≡ get_elem? buf j

-- The copying of `n` bytes that are not zero, with a zero behind them.
copy_out-ReadFrom :
    (left : ℕ) (src buf : List ℕ) (i n nbytes : ℕ)
    → ((j : ℕ) → i ≤ j → j < n → (c : ℕ) × (get_elem? src j ≡ some c) × (c ≢ 0))
    → get_elem? src n ≡ some 0
    → i ≤ n
    → n < i + left
    → n < nbytes
    → nbytes < 2 ^ 31
    → n ≤ length buf
    → (out : List ℕ) × (copy_out left src buf i nbytes ≡ some (out, n)) × ReadFrom src buf i n out
unfolding copy_out
copy_out-ReadFrom zero src buf i n nbytes text end le fuel lt small room = absurd (omega arith)
copy_out-ReadFrom (suc left) src buf i n nbytes text end le fuel lt small room =
    let inside : lt_signed i nbytes ≡ true = ground arith in
    elim (Bool-cases (i == n)) [
      | inl eq ↦
          let i_n : i ≡ n = ground arith in
          (
            buf,
            rw inside (rw i_n (rw end refl)),
            record {
              same_length = refl;
              read = λ j lo hi. absurd (omega arith);
              kept = λ j o. refl;
            },
          )
      | inr ne ↦
          let (c, at_i, nonzero) = text i (omega arith) (ground arith) in
          let differs : (c == 0) ≡ false = ground arith in
          let fits = store_lem buf i c (ground arith) in
          let len = length-set buf i c in
          let (out, runs, r) =
            copy_out-ReadFrom left src (set buf i c) (i + 1) n nbytes
              (λ j lo hi. text j (omega arith) hi) end (ground arith) (omega arith) lt small
              (omega arith) in
          (
            out,
            rw inside (rw at_i (rw differs (rw fits runs))),
            record {
              same_length = r.same_length ∙ len;
              read = λ j lo hi. elim (Bool-cases (j == i)) [
                | inl eq ↦
                    let j_i : j ≡ i = ground arith in
                    rw j_i (
                      r.kept i (inl (omega arith))
                      ∙ (rw at_i (get_elem?-set_self buf i c (ground arith))))
                | inr other ↦ r.read j (ground arith) hi
              ];
              kept = λ j o. r.kept j (omega arith) ∙ get_elem?-set_ne buf i j c (ground arith);
            },
          )
    ]

-- The text of a line and its newline, a byte that is left as it was, and a zero.
pub record HasLine (line buf out : List ℕ) : Type 0 where
  pub text : (j : ℕ) → j < length line → get_elem? out j ≡ get_elem? line j
  pub newline : get_elem? out (length line) ≡ some 0x0A
  pub gap : get_elem? out (length line + 1) ≡ get_elem? buf (length line + 1)
  pub end : get_elem? out (length line + 2) ≡ some 0

-- What follows the wait, when it has ended with a line handed over.
terminal_read-entered :
    (arrivals : List ℕ) (k entered : Keyboard) (line buf : List ℕ) (nbytes : ℕ)
    → wait_enter arrivals (record k { ter_read_indicator = 1 }) ≡ some entered
    → Handed line entered
    → k.console.enter_flag ≡ 0
    → length line < buf_size - 1
    → ((j c : ℕ) → get_elem? line j ≡ some c → c ≢ 0)
    → length line + 1 < nbytes
    → nbytes < 2 ^ 31
    → length line + 2 < length buf
    → (out : List ℕ) × (terminal_read arrivals k buf nbytes
        ≡ some
            (record entered { cross_enter_flag = 0; ter_read_indicator = 0 }, out, length line + 1))
      × HasLine line buf out
unfolding terminal_read
terminal_read-entered arrivals k entered line buf nbytes waited h normal short text lt small room =
    let size = h.size in
    let mode : (k.console.enter_flag == 0) ≡ true = ground arith in
    let chars : (j : ℕ)
        → 0 ≤ j
        → j < length line + 1
        → (c : ℕ) × (get_elem? entered.ter_read_buffer j ≡ some c) × (c ≢ 0) =
      λ j lo hi. elim (Bool-cases (j == length line)) [
        | inl eq ↦
            let e : j ≡ length line = ground arith in
            rw e (0x0A, h.newline (omega arith), omega arith)
        | inr ne ↦
            let at_j = get_elem?-eq-get_or line j 0 (ground arith) in
            (get_or line j 0, h.text j (ground arith) ∙ at_j, text j (get_or line j 0) at_j)
      ] in
    let (out, copies, r) =
      copy_out-ReadFrom buf_size entered.ter_read_buffer buf 0 (length line + 1) nbytes chars
        (h.end (omega arith)) (omega arith) (omega arith) lt small (omega arith) in
    let len = r.same_length in
    let ends = store_lem out (length line + 1 + 1) 0 (omega arith) in
    let whole : (ltb nbytes entered.ter_read_buf_size) ≡ false = ground arith in
    (
      set out (length line + 1 + 1) 0,
      rw mode (rw waited (rw copies (rw ends (rw whole refl)))),
      record {
        text = λ j lj.
            get_elem?-set_ne out (length line + 1 + 1) j 0 (omega arith)
            ∙ r.read j (omega arith) (omega arith)
            ∙ h.text j lj;
        newline =
            get_elem?-set_ne out (length line + 1 + 1) (length line) 0 (omega arith)
            ∙ r.read (length line) (omega arith) (omega arith)
            ∙ h.newline (omega arith);
        gap =
            get_elem?-set_ne out (length line + 1 + 1) (length line + 1) 0 (omega arith)
            ∙ r.kept (length line + 1) (inr (omega arith));
        end =
            ap (λ m. get_elem? (set out (length line + 1 + 1) 0) m) (omega arith)
            ∙ get_elem?-set_self out (length line + 1 + 1) 0 (omega arith);
      },
    )

-- The enter key outside text editing mode.
keyboard_irq_handler-enter_line :
    (k k' : Keyboard)
    → k.console.enter_flag ≡ 0
    → enter_line k ≡ some k'
    → keyboard_irq_handler k 0x1C ≡ some (got k' 0 none)
unfolding keyboard_irq_handler get_char keyboard_buffer_edit
keyboard_irq_handler-enter_line k k' normal runs =
    let mode : (k.console.enter_flag == minus_one) ≡ false = ground arith in rw mode (rw runs refl)

-- A program reads while a line stands in the line buffer, and the enter key is pressed. The line has
-- at most 126 characters, none of them zero; `nbytes` is above its length by two or more; and the
-- buffer has three bytes more than the line. The call returns the length of the line and its newline,
-- which the buffer then holds, with a zero one byte further than the end of the text and the byte
-- between as it was; both flags are put down, and the line buffer is empty.
pub terminal_read_enter :
    (k : Keyboard) (line buf : List ℕ) (nbytes : ℕ)
    → HoldsLine k.console line
    → length k.ter_read_buffer ≡ buf_size
    → k.cross_enter_flag ≡ 0
    → length line < buf_size - 1
    → ((j c : ℕ) → get_elem? line j ≡ some c → c ≢ 0)
    → length line + 1 < nbytes
    → nbytes < 2 ^ 31
    → length line + 2 < length buf
    → (k' : Keyboard) × (out : List ℕ) × (terminal_read (0x1C ∷ []) k buf nbytes
        ≡ some (k', out, length line + 1))
      × HasLine line buf out
      × HoldsLine k'.console []
      × (k'.cross_enter_flag ≡ 0)
      × (k'.ter_read_indicator ≡ 0)
unfolding wait_enter
terminal_read_enter k line buf nbytes h room waiting short text lt small fits =
    let reading : Keyboard = record k { ter_read_indicator = 1 } in
    let (e, runs, held, kind) = enter_line-Handed reading line h room (omega arith) in
    let handed : Handed line e = elim kind [
      | inl (_, is) ↦ is
      | inr (idle, _) ↦ absurd (idle refl)
    ] in
    let handles = keyboard_irq_handler-enter_line reading e h.normal runs in
    let up = handed.flag in
    let not_yet : (k.cross_enter_flag == 0) ≡ true = ground arith in
    let now : (e.cross_enter_flag == 0) ≡ false = ground arith in
    let waited : wait_enter (0x1C ∷ []) reading ≡ some e = rw not_yet (rw handles (rw now refl)) in
    let (out, reads, lines) =
      terminal_read-entered (0x1C ∷ []) k e line buf nbytes waited handed h.normal short text lt
        small fits in
    (record e { cross_enter_flag = 0; ter_read_indicator = 0 }, out, reads, lines, held, refl, refl)
