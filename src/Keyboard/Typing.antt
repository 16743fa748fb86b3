-- ===== src/Keyboard/Typing.antt =====
-- The interrupt handler of student-distrib/keyboard.c types what stands on the keys.
use linux_simulation.Base.{
  ℕ, ◌-◌, ◌≤◌, ◌<◌, ◌≡◌, ◌≢◌, ◌⊎◌, inl, inr, refl, sym, ap, ◌∙◌, Bool, true, false, ◌&&◌,
  Bool-cases, some, List, [], ◌==◌, ltb, leb, if◌then◌else◌, length, take, get_or, arith,
}
use linux_simulation.Keyboard.{Keyboard}
use linux_simulation.Keyboard.Handler.{
  IsKeyboard, code_char, typed, coded, keyboard_irq_handler-coded,
}
use linux_simulation.Keyboard.Keys.{capital, ascii_entry, shift_entry}
use linux_simulation.Keyboard.Scan.{
  Got, ascii_array, shift_array, print_table_size, ascii, shift, track_keys, keyboard_irq_handler,
}
use linux_simulation.Keyboard.Layout.{
  legend, put, edited, plain_fits, caps_fits, shift_fits, typed-put, off_legend,
}

-- A key that is no shift key leaves the state of the shift keys, and no key but caps lock moves that lock.
same_shift :
    (k : Keyboard) (s : ℕ)
    → s < print_table_size
    → s ≢ 0x2A
    → (track_keys k s).shift_flag ≡ k.shift_flag
same_shift k s h ne = unfold track_keys in ground arith

same_caps : (k : Keyboard) (s : ℕ) → (track_keys k s).cap_flag ≡ k.cap_flag
same_caps k s = unfold track_keys in ground arith

same_control : (k : Keyboard) → (track_keys k 0x26).control_flag ≡ k.control_flag
same_control k = unfold track_keys in ground arith

-- Outside the tables both of them give 255, which is not printable.
typed_outside :
    (k : Keyboard) (s : ℕ) (line : List ℕ)
    → print_table_size ≤ s
    → s ≢ 0x39
    → typed (code_char k s) line ≡ line
unfolding ascii shift
typed_outside k s line h ne =
    let space : (s == 0x39) ≡ false = ground arith in
    let out : leb print_table_size s ≡ true = ground arith in
    elim (Bool-cases ((track_keys k s).shift_flag == 1)) [
      | inl on ↦ rw space (rw on (rw out refl))
      | inr off ↦ rw space (rw off (rw out refl))
    ]

-- Inside them the character is that of the key.
typed_inside :
    (k : Keyboard) (s : ℕ) (line : List ℕ)
    → s < print_table_size
    → typed (code_char k s) line
      ≡ put (legend ((track_keys k s).shift_flag == 1) (k.cap_flag == 1) s) line
unfolding ascii shift
typed_inside k s line h =
    let space : (s == 0x39) ≡ false = ground arith in
    let inside : leb print_table_size s ≡ false = ground arith in
    let lock = same_caps k s in
    elim (Bool-cases ((track_keys k s).shift_flag == 1)) [
      | inl on ↦ rw space (
          rw on (
            rw inside (
              rw (shift_entry s h)
                (typed-put (get_or shift_array s 0) (legend true false s) line (shift_fits s h)))))
      | inr off ↦ elim (Bool-cases (k.cap_flag == 1)) [
        | inl caps ↦ rw space (
            rw off (
              rw inside (
                rw (ascii_entry s h) (
                  rw lock (
                    rw caps (
                      typed-put (capital (get_or ascii_array s 0)) (legend false true s) line
                        (caps_fits s h)))))))
        | inr plain ↦ rw space (
            rw off (
              rw inside (
                rw (ascii_entry s h) (
                  rw lock (
                    rw plain (
                      typed-put (get_or ascii_array s 0) (legend false false s) line
                        (plain_fits s h)))))))
      ]
    ]

-- The shift key itself types nothing.
shift_key : (held held' caps : Bool) → legend held caps 0x2A ≡ legend held' caps 0x2A
shift_key true true caps = refl
shift_key true false true = refl
shift_key true false false = refl
shift_key false true true = refl
shift_key false true false = refl
shift_key false false caps = refl

code_char-legend :
    (k : Keyboard) (s : ℕ) (line : List ℕ)
    → s ≢ 0x39
    → typed (code_char k s) line ≡ put (legend (k.shift_flag == 1) (k.cap_flag == 1) s) line
code_char-legend k s line ne = elim (Bool-cases (ltb s print_table_size)) [
  | inr out ↦
      let far : print_table_size ≤ s = ground arith in
      typed_outside k s line far ne
      ∙ ap (λ o. put o line) (sym (off_legend (k.shift_flag == 1) (k.cap_flag == 1) s far))
  | inl inside ↦
      let near : s < print_table_size = ground arith in
      typed_inside k s line near ∙ elim (Bool-cases (s == 0x2A)) [
        | inl eq ↦
            let is : s ≡ 0x2A = ground arith in
            rw is (
              ap (λ o. put o line)
                (shift_key ((track_keys k 0x2A).shift_flag == 1) (k.shift_flag == 1)
                  (k.cap_flag == 1)))
        | inr other ↦
            ap (λ f. put (legend (f == 1) (k.cap_flag == 1) s) line)
              (same_shift k s near (ground arith))
      ]
]

-- The test for control with L does not depend on whether the key has been tracked.
control_test :
    (k : Keyboard) (input : ℕ)
    → ((track_keys k input).control_flag == 1 && input == 0x26)
      ≡ (k.control_flag == 1 && input == 0x26)
control_test k input = elim (Bool-cases (input == 0x26)) [
  | inl l ↦
      let is : input ≡ 0x26 = ground arith in
      ap (λ f. f == 1 && input == 0x26)
        (ap (λ s. (track_keys k s).control_flag) is ∙ same_control k)
  | inr not_l ↦
      let now : ((track_keys k input).control_flag == 1 && input == 0x26) ≡ false = ground arith in
      let before : (k.control_flag == 1 && input == 0x26) ≡ false = ground arith in now ∙ sym before
]

same_tests :
    (back tracked clear space : Bool) (shorter text blank other : List ℕ)
    → tracked ≡ clear
    → (space ≡ true → text ≡ blank)
    → (space ≡ false → text ≡ other)
    → (if back then shorter else if tracked then [] else text)
      ≡ (if back then shorter else if clear then [] else if space then blank else other)
same_tests true tracked clear space shorter text blank other t s o = refl
same_tests false true true space shorter text blank other t s o = refl
same_tests false true false space shorter text blank other t s o = absurd cc
same_tests false false true space shorter text blank other t s o = absurd cc
same_tests false false false true shorter text blank other t s o = s refl
same_tests false false false false shorter text blank other t s o = o refl

space_key : (k : Keyboard) (line : List ℕ) → typed (code_char k 0x39) line ≡ put (some 0x20) line
space_key k line = refl

coded-edited : (k : Keyboard) (input : ℕ) (line : List ℕ) → coded k input line ≡ edited k input line
coded-edited k input line =
    same_tests (input == 0x0E) ((track_keys k input).control_flag == 1 && input == 0x26)
      (k.control_flag == 1 && input == 0x26) (input == 0x39) (take (length line - 1) line)
      (typed (code_char k input) line) (put (some 0x20) line)
      (put (legend (k.shift_flag == 1) (k.cap_flag == 1) input) line) (control_test k input)
      (λ space.
        let is : input ≡ 0x39 = ground arith in
        ap (λ s. typed (code_char k s) line) is ∙ space_key k line)
      (λ other. code_char-legend k input line (ground arith))

-- A key other than enter, and other than P under control, outside text editing mode and with a shift flag
-- of 0 or 1: the handler is defined, wherever the cursor stands and whatever control, alt and caps
-- lock are, and leaves the line with its last character taken off, emptied, or with what stands on the
-- key behind it, if there was room and the key has a character. A switch of terminals that the key asks
-- for is not made here.
pub keyboard_irq_handler-edited :
    (k : Keyboard) (input : ℕ) (line : List ℕ)
    → IsKeyboard k line
    → input ≢ 0x1C
    → (k.control_flag ≢ 1) ⊎ (input ≢ 0x19)
    → (g : Got) × (keyboard_irq_handler k input ≡ some g)
      × IsKeyboard g.keyboard (edited k input line)
keyboard_irq_handler-edited k input line v not_enter no_toggle =
    let free : ((track_keys k input).control_flag ≢ 1) ⊎ (input ≢ 0x19) =
      tracked_toggle k input no_toggle in
    let (g, runs, held) = keyboard_irq_handler-coded k input line v not_enter free in
    (g, runs, rw (← coded-edited k input line) held)
  where
    tracked_toggle :
        (k : Keyboard) (input : ℕ)
        → (k.control_flag ≢ 1) ⊎ (input ≢ 0x19)
        → ((track_keys k input).control_flag ≢ 1) ⊎ (input ≢ 0x19)
    tracked_toggle k input (inr other) = inr other
    tracked_toggle k input (inl off) = elim (Bool-cases (input == 0x19)) [
      | inl p ↦
          let is : input ≡ 0x19 = ground arith in
          let same : (track_keys k 0x19).control_flag ≡ k.control_flag =
            unfold track_keys in ground arith in
          inl (rw is (rw same off))
      | inr ne ↦ (let other : input ≢ 0x19 = ground arith in inr other)
    ]
