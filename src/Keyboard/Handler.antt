-- ===== src/Keyboard/Handler.antt =====
-- The interrupt handler edits the line as the tables of the code say.
use linux_simulation.Base.{
  ℕ, ◌-◌, ◌≤◌, ◌≡◌, ◌≢◌, ◌⊎◌, inl, inr, ap, sym, some, none, ◌==◌, arith, List, [], ◌∷◌, ◌++◌, true,
  false, not, Bool-cases, length, leb, if◌then◌else◌, ◌&&◌, take,
}
use linux_simulation.Console.{buf_size}
use linux_simulation.Keyboard.{Keyboard, keyboard_buffer_edit}
use linux_simulation.Keyboard.Edit.{HoldsLine, add_char-HoldsLine}
use linux_simulation.Keyboard.Enter.{delete_char-HoldsLine}
use linux_simulation.Keyboard.Reader.{reset-HoldsLine}
use linux_simulation.Keyboard.Scan.{
  Got, got, ascii, shift, track_keys, switch_request, get_combined, get_char, add_printable,
  keyboard_irq_handler,
}
use linux_simulation.Keyboard.Keys.{shift-IsKeyChar, ascii-IsKeyChar}

-- A keyboard whose line buffer holds the line.
pub record IsKeyboard (k : Keyboard) (line : List ℕ) : Type 0 where
  pub holds : HoldsLine k.console line
  pub read_room : length k.ter_read_buffer ≡ buf_size
  pub shift_bit : k.shift_flag ≤ 1

track_keys-IsKeyboard :
    (k : Keyboard) (input : ℕ) (line : List ℕ)
    → IsKeyboard k line
    → IsKeyboard (track_keys k input) line
unfolding track_keys
track_keys-IsKeyboard k input line v =
    let same : (track_keys k input).console ≡ k.console = unfold track_keys in ground arith in
    let room : (track_keys k input).ter_read_buffer ≡ k.ter_read_buffer =
      unfold track_keys in ground arith in
    let bit : (track_keys k input).shift_flag ≤ 1 =
      let b = v.shift_bit in unfold track_keys in ground arith in
    record { holds = rw same v.holds; read_room = rw room v.read_room; shift_bit = bit }

-- The character of a key, under the flags that hold once the key has been tracked.
abbrev pub code_char : Keyboard → ℕ → ℕ
code_char k input =
    if input == 0x39
    then 0x20
    else elim (if (track_keys k input).shift_flag == 1
        then shift input
        else ascii (track_keys k input) input) [ none ↦ 0 | some ch ↦ ch ]

-- A character goes behind the line if it is printable and there is room.
abbrev pub typed : ℕ → List ℕ → List ℕ
typed ch line =
    if leb 0x20 ch && leb ch 0x7E
    then (if length line == buf_size then line else line ++ ch ∷ [])
    else line

-- What a key does to the line by the tables: backspace deletes, control with L clears, the rest is typed.
abbrev pub coded : Keyboard → ℕ → List ℕ → List ℕ
coded k input line =
    if input == 0x0E
    then take (length line - 1) line
    else if (track_keys k input).control_flag == 1 && input == 0x26
    then []
    else typed (code_char k input) line

-- What the handler does with what `get_char` returned.
module _ (line : List ℕ) where
  printed :
      (g : Got)
      → IsKeyboard g.keyboard line
      → (g' : Got) × ((if leb 0x20 g.char && leb g.char 0x7E && not (g.char == 0)
            then add_printable g
            else some g)
          ≡ some g')
        × IsKeyboard g'.keyboard (typed g.char line)
  unfolding add_printable keyboard_buffer_edit
  printed g v = elim (Bool-cases (leb 0x20 g.char && leb g.char 0x7E)) [
    | inl shown ↦
        let (k', runs, held, same) = add_char-HoldsLine g.keyboard line g.char v.holds in
        let room : k'.ter_read_buffer ≡ g.keyboard.ter_read_buffer =
          ap (λ (t : Keyboard). t.ter_read_buffer) same in
        let bit : k'.shift_flag ≡ g.keyboard.shift_flag =
          ap (λ (t : Keyboard). t.shift_flag) same in
        let test : (leb 0x20 g.char && leb g.char 0x7E && not (g.char == 0)) ≡ true =
          ground arith in
        (
          record g { keyboard = k' },
          rw test (rw runs),
          rw shown (record {
            holds = held;
            read_room = rw room v.read_room;
            shift_bit = rw bit v.shift_bit;
          }),
        )
    | inr hidden ↦
        let test : (leb 0x20 g.char && leb g.char 0x7E && not (g.char == 0)) ≡ false =
          ground arith in
        (g, rw test, rw hidden v)
  ]

code_char-caps : (k : Keyboard) (line : List ℕ) → typed (code_char k 0x3A) line ≡ line
unfolding ascii shift
code_char-caps k line = elim (Bool-cases ((track_keys k 0x3A).shift_flag == 1)) [
  | inl on ↦ rw on
  | inr off ↦ rw off
]

-- The character of a key that is looked up, on either state of the shift key.
get_combined_lem :
    (k : Keyboard) (input : ℕ) (line : List ℕ)
    → IsKeyboard k line
    → input ≢ 0x39
    → input ≢ 0x0E
    → ((track_keys k input).control_flag ≢ 1) ⊎ (input ≢ 0x19)
    → (g : Got) × (get_combined k input ≡ some g)
      × (line' : List ℕ) × IsKeyboard g.keyboard line'
      × (typed g.char line' ≡ coded k input line)
unfolding get_combined keyboard_buffer_edit
get_combined_lem k input line v not_space not_back no_toggle =
    let t : Keyboard = track_keys k input in
    let tv : IsKeyboard t line = track_keys-IsKeyboard k input line v in
    let space : (input == 0x39) ≡ false = ground arith in
    let back : (input == 0x0E) ≡ false = ground arith in
    let toggle : (t.control_flag == 1 && input == 0x19) ≡ false = ground arith in
    elim (Bool-cases (t.control_flag == 1 && input == 0x26)) [
      | inl clears ↦
          let (c, runs, held) = reset-HoldsLine t.console tv.holds.console tv.holds.normal in
          (
            got (record t { console = c }) 0 (switch_request t input),
            rw clears (rw runs),
            [],
            record { holds = held; read_room = tv.read_room; shift_bit = tv.shift_bit },
            rw (back, clears),
          )
      | inr types ↦ elim (Bool-cases (t.shift_flag == 1)) [
        | inl shifted ↦
            let (ch, runs, is) = shift-IsKeyChar input in
            (
              got t ch (switch_request t input),
              rw types (rw toggle (rw shifted (rw runs))),
              line,
              tv,
              rw (back, types, space, shifted, runs),
            )
        | inr plain ↦
            let (ch, runs, is) = ascii-IsKeyChar t input in
            let zero_bit : (t.shift_flag == 0) ≡ true = let b = tv.shift_bit in ground arith in
            (
              got t ch (switch_request t input),
              rw types (rw toggle (rw plain (rw zero_bit (rw runs)))),
              line,
              tv,
              rw (back, types, space, plain, runs),
            )
      ]
    ]

coded-caps : (k : Keyboard) (line : List ℕ) → coded k 0x3A line ≡ line
coded-caps k line =
    let no_clear : ((track_keys k 0x3A).control_flag == 1 && 0x3A == 0x26) ≡ false = ground arith in
    rw no_clear (code_char-caps k line)

get_char-caps :
    (k : Keyboard) (line : List ℕ)
    → IsKeyboard k line
    → (g : Got) × (get_char k 0x3A ≡ some g)
      × (line' : List ℕ) × IsKeyboard g.keyboard line'
      × (typed g.char line' ≡ coded k 0x3A line)
unfolding get_char
get_char-caps k line v = elim (Bool-cases (k.cap_flag == 0)) [
  | inl off ↦ (
    got (record k { cap_flag = 1 }) 0 none,
    rw off,
    line,
    record { holds = v.holds; read_room = v.read_room; shift_bit = v.shift_bit },
    sym (coded-caps k line),
  )
  | inr on ↦ elim (Bool-cases (k.cap_flag == 1)) [
    | inl one ↦ (
      got (record k { cap_flag = 0 }) 0 none,
      rw on (rw one),
      line,
      record { holds = v.holds; read_room = v.read_room; shift_bit = v.shift_bit },
      sym (coded-caps k line),
    )
    | inr other ↦
        let (g, runs, line', gv, e) =
          get_combined_lem k 0x3A line v (omega arith) (omega arith) (inr (omega arith)) in
        (g, rw on (rw other runs), line', gv, e)
  ]
]

get_char_lem :
    (k : Keyboard) (input : ℕ) (line : List ℕ)
    → IsKeyboard k line
    → input ≢ 0x1C
    → ((track_keys k input).control_flag ≢ 1) ⊎ (input ≢ 0x19)
    → (g : Got) × (get_char k input ≡ some g)
      × (line' : List ℕ) × IsKeyboard g.keyboard line'
      × (typed g.char line' ≡ coded k input line)
unfolding get_char keyboard_buffer_edit
get_char_lem k input line v not_enter no_toggle =
    let enter : (input == 0x1C) ≡ false = ground arith in
    elim (Bool-cases (input == 0x3A)) [
      | inl caps ↦ let e : input ≡ 0x3A = ground arith in rw e (get_char-caps k line v)
      | inr not_caps ↦ elim (Bool-cases (input == 0x0E)) [
        | inl back ↦
            let (k', runs, held, same) = delete_char-HoldsLine k line v.holds in
            let room : k'.ter_read_buffer ≡ k.ter_read_buffer =
              ap (λ (t : Keyboard). t.ter_read_buffer) same in
            let bit : k'.shift_flag ≡ k.shift_flag = ap (λ (t : Keyboard). t.shift_flag) same in
            (
              got k' 0 none,
              rw enter (rw not_caps (rw back (rw runs))),
              take (length line - 1) line,
              record {
                holds = held;
                read_room = rw room v.read_room;
                shift_bit = rw bit v.shift_bit;
              },
              rw back,
            )
        | inr not_back ↦ elim (Bool-cases (input == 0x39)) [
          | inl space ↦
              let no_clear : ((track_keys k input).control_flag == 1 && input == 0x26) ≡ false =
                ground arith in
              (
                got k 0x20 none,
                rw enter (rw not_caps (rw not_back (rw space))),
                line,
                v,
                rw (not_back, no_clear, space),
              )
          | inr not_space ↦
              let (g, runs, line', gv, e) =
                get_combined_lem k input line v (ground arith) (ground arith) no_toggle in
              (g, rw enter (rw not_caps (rw not_back (rw not_space runs))), line', gv, e)
        ]
      ]
    ]

-- A key other than enter, and other than P under control, does to the line what the tables say.
pub keyboard_irq_handler-coded :
    (k : Keyboard) (input : ℕ) (line : List ℕ)
    → IsKeyboard k line
    → input ≢ 0x1C
    → ((track_keys k input).control_flag ≢ 1) ⊎ (input ≢ 0x19)
    → (g : Got) × (keyboard_irq_handler k input ≡ some g)
      × IsKeyboard g.keyboard (coded k input line)
unfolding keyboard_irq_handler
keyboard_irq_handler-coded k input line v not_enter no_toggle =
    let (g, runs, line', gv, e) = get_char_lem k input line v not_enter no_toggle in
    let (g', stores, held) = printed line' g gv in (g', rw runs stores, rw e at held)
