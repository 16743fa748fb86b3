-- ===== src/Terminal/Keys.antt =====
-- The interrupt of the keyboard with the switch of terminals that it calls for: `get_char` of
-- student-distrib/keyboard.c with student-distrib/terminal.c.
--
-- `get_char` calls `terminal_switch` in its midst. The keys that ask for one are no modifier keys, and
-- the tables have no character for them, so that what follows in `get_char` changes nothing; the
-- switch is made behind it here.
use linux_simulation.Base.{
  ℕ, zero, suc, ◌+◌, ◌<◌, ◌≡◌, ◌≢◌, inl, inr, refl, ◌∙◌, ap, Bool, true, false, Bool-cases, ◌&&◌,
  Option, none, some, ◌==◌, ◌>>=◌, get_elem?, arith,
}
use linux_simulation.Keyboard.{Keyboard}
use linux_simulation.Keyboard.Scan.{
  got, ascii, shift, track_keys, switch_request, get_combined, get_char, keyboard_irq_handler,
}
use linux_simulation.Pic.{send_eoi}
use linux_simulation.Tasks.{Outcome, returns, enters, resumes}
use linux_simulation.Terminal.Saving.{IsTerminals}
use linux_simulation.Terminal.Switch.{TerInfo, Terminals, terminal_switch}
use linux_simulation.Terminal.Switching.{Switched, terminal_switch-Switched}

-- The end of the handler, where it is reached.
pub acknowledge : Terminals × Outcome → Terminals × Outcome
acknowledge (m, returns r) = (record m { pic = send_eoi m.pic 1 }, returns r)
acknowledge (m, enters entry) = (m, enters entry)
acknowledge (m, resumes esp ebp status) = (m, resumes esp ebp status)

pub switch_asked : Terminals → Option ℕ → ℕ → ℕ → Option (Terminals × Outcome)
switch_asked m none esp ebp = some (m, returns 0)
switch_asked m (some i) esp ebp = terminal_switch m i esp ebp

-- `_idt_keyboard_irq_handler`
pub keyboard_interrupt : Terminals → ℕ → ℕ → ℕ → Option (Terminals × Outcome)
keyboard_interrupt m input esp ebp = do
  g ← keyboard_irq_handler m.keyboard input
  switched ← switch_asked (record m { keyboard = g.keyboard }) g.switch esp ebp
  some (acknowledge switched)

and_false : (b : Bool) → (b && false) ≡ false
and_false true = refl
and_false false = refl

-- A key that is no modifier and stands for no character.
combined_lem :
    (k : Keyboard) (input i : ℕ)
    → track_keys k input ≡ k
    → switch_request k input ≡ some i
    → (input == 0x26) ≡ false
    → (input == 0x19) ≡ false
    → shift input ≡ some 255
    → ascii k input ≡ some 255
    → k.shift_flag < 2
    → get_combined k input ≡ some (got k 255 (some i))
unfolding get_combined
combined_lem k input i tracked asked l p shifted plain flag =
    let b = k.control_flag == 1 in
    let not_l : (b && input == 0x26) ≡ false = ap (λ x. b && x) l ∙ and_false b in
    let not_p : (b && input == 0x19) ≡ false = ap (λ x. b && x) p ∙ and_false b in
    elim (Bool-cases (k.shift_flag == 1)) [
      | inl on ↦ rw tracked (rw not_l (rw not_p (rw on (rw shifted (rw asked refl)))))
      | inr off ↦
          let down : (k.shift_flag == 0) ≡ true = ground arith in
          rw tracked (rw not_l (rw not_p (rw off (rw down (rw plain (rw asked refl))))))
    ]

-- A function key with alt asks for a terminal, and does nothing else.
function_key :
    (k : Keyboard) (i : ℕ)
    → i < 3
    → k.alt_flag ≡ 1
    → k.shift_flag < 2
    → get_combined k (0x3B + i) ≡ some (got k 255 (some i))
unfolding track_keys switch_request ascii shift
function_key k zero lt alt flag = combined_lem k 0x3B 0 refl (rw alt refl) refl refl refl refl flag
function_key k (suc zero) lt alt flag =
    combined_lem k 0x3C 1 refl (rw alt refl) refl refl refl refl flag
function_key k (suc (suc zero)) lt alt flag =
    combined_lem k 0x3D 2 refl (rw alt refl) refl refl refl refl flag
function_key k (suc (suc (suc i))) lt alt flag = absurd (omega arith)

handler_asks :
    (k : Keyboard) (i : ℕ)
    → i < 3
    → k.alt_flag ≡ 1
    → k.shift_flag < 2
    → keyboard_irq_handler k (0x3B + i) ≡ some (got k 255 (some i))
unfolding keyboard_irq_handler get_char
handler_asks k i lt alt flag =
    let enter : (0x3B + i == 0x1C) ≡ false = ground arith in
    let caps : (0x3B + i == 0x3A) ≡ false = ground arith in
    let back : (0x3B + i == 0x0E) ≡ false = ground arith in
    let space : (0x3B + i == 0x39) ≡ false = ground arith in
    rw enter (rw caps (rw back (rw space (rw (function_key k i lt alt flag) refl))))

-- Alt with F1, F2 or F3, where the key's terminal is another one that has been booted: the interrupt
-- puts that terminal in front and keeps the one that was left, and it is acknowledged last.
pub keyboard_interrupt-Switched :
    (m : Terminals) (old : TerInfo) (i : ℕ) (t : TerInfo) (esp ebp : ℕ)
    → IsTerminals m
    → m.keyboard.alt_flag ≡ 1
    → m.keyboard.shift_flag < 2
    → get_elem? m.terminal_array m.current_terminal_idx ≡ some old
    → i < 3
    → i ≢ m.current_terminal_idx
    → get_elem? m.terminal_array i ≡ some t
    → t.terminal_state ≢ 0
    → (m' : Terminals) × Switched m old i t m'
      × (keyboard_interrupt m (0x3B + i) esp ebp
          ≡ some (record m' { pic = send_eoi m'.pic 1 }, returns 0))
unfolding keyboard_interrupt switch_asked acknowledge
keyboard_interrupt-Switched m old i t esp ebp h alt flag front lt ne there active =
    let asks = handler_asks m.keyboard i lt alt flag in
    let (m', switches, s) = terminal_switch-Switched m old i t esp ebp h front lt ne there active in
    (m', s, rw asks (rw switches refl))
