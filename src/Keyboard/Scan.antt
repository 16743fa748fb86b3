-- ===== src/Keyboard/Scan.antt =====
-- student-distrib/keyboard.c: the scan code tables, `get_char` and the interrupt handler.
--
-- The byte that the port gives is an argument. The call of `terminal_switch` is handed out as the
-- terminal that is asked for: what follows it in `get_char` only looks up the scan code.
use linux_simulation.Base.{
  ℕ, ◌-◌, not, ◌&&◌, ◌||◌, Option, none, some, List, ◌∷◌, ◌++◌, ◌>>=◌, ◌==◌, leb, if◌then◌else◌,
  minus_one, get_elem?, codes,
}
use linux_simulation.Console.Output.{puts}
use linux_simulation.Keyboard.{Keyboard, keyboard_buffer_edit}

abbrev pub print_table_size : ℕ
print_table_size = 54

abbrev pub ascii_array : List ℕ
ascii_array =
    0 ∷ 0 ∷ codes "1234567890-="
    ++ (0 ∷ 0 ∷ codes "qwertyuiop[]"
        ++ (0 ∷ 0 ∷ codes "asdfghjkl;'`" ++ (0 ∷ 0x5C ∷ codes "zxcvbnm,./")))

abbrev pub shift_array : List ℕ
shift_array =
    0 ∷ 0 ∷ codes "!@#$%^&*()_+"
    ++ (0 ∷ 0 ∷ codes "QWERTYUIOP{}"
        ++ (0 ∷ 0 ∷ codes "ASDFGHJKL:" ++ (0x22 ∷ codes "~" ++ (0 ∷ codes "|ZXCVBNM<>?"))))

-- `return -1` of a `uint8_t` is 255.
unfoldable pub ascii : Keyboard → ℕ → Option ℕ
ascii k scan_code =
    let looked_up = do
      ret ← get_elem? ascii_array scan_code
      some (if k.cap_flag == 1 && (leb 0x61 ret && leb ret 0x7A) then ret - 0x20 else ret)
    in if leb print_table_size scan_code then some 255 else looked_up

unfoldable pub shift : ℕ → Option ℕ
shift scan_code =
    let looked_up = get_elem? shift_array scan_code in
    if leb print_table_size scan_code then some 255 else looked_up

-- The flags of shift, control and alt follow the press and the release of their keys.
unfoldable pub track_keys : Keyboard → ℕ → Keyboard
track_keys k input =
    let k1 =
      if (input == 0x2A || input == 0x36) && k.shift_flag == 0
      then record k { shift_flag = 1 }
      else if (input == 0xAA || input == 0xB6) && k.shift_flag == 1
      then record k { shift_flag = 0 }
      else k in
    let k2 =
      if input == 0x1D && k1.control_flag == 0
      then record k1 { control_flag = 1 }
      else if input == 0x9D && k1.control_flag == 1
      then record k1 { control_flag = 0 }
      else k1 in
    if input == 0x38 && k2.alt_flag == 0
    then record k2 { alt_flag = 1 }
    else if input == 0xB8 && k2.alt_flag == 1
    then record k2 { alt_flag = 0 }
    else k2

-- The terminal that alt with F1, F2 or F3 asks for.
unfoldable pub switch_request : Keyboard → ℕ → Option ℕ
switch_request k input =
    if k.alt_flag == 1 && input == 0x3B
    then some 0
    else if k.alt_flag == 1 && input == 0x3C
    then some 1
    else if k.alt_flag == 1 && input == 0x3D
    then some 2
    else none

abbrev pub interface : List ℕ
interface = codes "391OS> "

abbrev pub text_mode_interface : List ℕ
text_mode_interface =
    codes "[[==================<text editing mode>==<history not saved>==================]]"

-- Control and P: the screen is cleared, and text editing mode turned over.
unfoldable pub toggle_mode : Keyboard → Option Keyboard
toggle_mode k = do
  k' ← keyboard_buffer_edit k 2 0x20
  let flag = minus_one - k'.console.enter_flag
  let c = record (k'.console) { enter_flag = flag }
  c' ←
      (if flag == 0
        then puts c interface
        else if flag == minus_one
        then puts (record c { first_scroll_indicator = 0 }) text_mode_interface
        else some c)
  some (record k' { console = c' })

-- What `get_char` comes to: the state, the character that it returns, and the terminal asked for.
pub record Got : Type 0 where
  pub keyboard : Keyboard
  pub char : ℕ
  pub switch : Option ℕ

abbrev pub got : Keyboard → ℕ → Option ℕ → Got
got k ch s = record { keyboard = k; char = ch; switch = s }

-- The part of `get_char` behind the keys that end it at once: control with L or P, or a look-up in
-- the table of the shift key's state.
unfoldable pub get_combined : Keyboard → ℕ → Option Got
get_combined k0 input =
    let k = track_keys k0 input in
    let request = switch_request k input in
    if k.control_flag == 1 && input == 0x26
    then (keyboard_buffer_edit k 2 0x20 >>= λ k'. some (got k' 0 request))
    else if k.control_flag == 1 && input == 0x19
    then (toggle_mode k >>= λ k'. some (got k' 0 request))
    else if k.shift_flag == 1
    then (shift input >>= λ ch. some (got k ch request))
    else if k.shift_flag == 0
    then (ascii k input >>= λ ch. some (got k ch request))
    else none

-- `get_char` at the byte `input` of the keyboard's port; a `break` returns 0.
unfoldable pub get_char : Keyboard → ℕ → Option Got
get_char k input =
    if input == 0x1C
    then ((if k.console.enter_flag == minus_one
          then keyboard_buffer_edit k 1 0x0A
          else keyboard_buffer_edit k 3 0x0A)
        >>= λ k'. some (got k' 0 none))
    else if input == 0x3A && k.cap_flag == 0
    then some (got (record k { cap_flag = 1 }) 0 none)
    else if input == 0x3A && k.cap_flag == 1
    then some (got (record k { cap_flag = 0 }) 0 none)
    else if input == 0x0E
    then (keyboard_buffer_edit k 0 0x20 >>= λ k'. some (got k' 0 none))
    else if input == 0x39
    then some (got k 0x20 none)
    else get_combined k input

unfoldable pub add_printable : Got → Option Got
add_printable g =
    keyboard_buffer_edit g.keyboard 1 g.char >>= λ k'. some (record g { keyboard = k' })

-- `_idt_keyboard_irq_handler`, between masking and unmasking the interrupts: a printable character
-- goes into the line buffer.
unfoldable pub keyboard_irq_handler : Keyboard → ℕ → Option Got
keyboard_irq_handler k input = do
  g ← get_char k input
  let stored = add_printable g
  if leb 0x20 g.char && leb g.char 0x7E && not (g.char == 0) then stored else some g
