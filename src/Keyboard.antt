-- ===== src/Keyboard.antt =====
-- student-distrib/keyboard.c: the state of the keyboard and the line buffer.
--
-- `none` is an access outside an array. `kb_buffer_position` is the byte that this file declares:
-- the low byte of the word that lib.c has.
pub mod Scan
pub mod Edit
pub mod Enter
pub mod Reader
pub mod Keys
pub mod Handler
pub mod Layout
pub mod Typing
mod Tests
use linux_simulation.Base.{
  ℕ, zero, suc, ◌+◌, ◌-◌, ◌*◌, ◌/◌, ◌%◌, ◌^◌, Bool, true, false, not, ◌&&◌, ◌||◌, Option, none,
  some, List, [], ◌∷◌, ◌++◌, ◌>>=◌, ◌==◌, ltb, leb, if◌then◌else◌, minus_one, store, get_elem?,
  codes,
}
use linux_simulation.Console.{Console, buf_size}
use linux_simulation.Console.Output.{putc, puts, backspace, reset, keyboard_buffer_reset}

pub record Keyboard : Type 0 where
  pub console : Console
  pub cap_flag : ℕ
  pub shift_flag : ℕ
  pub control_flag : ℕ
  pub alt_flag : ℕ
  pub ter_read_buffer : List ℕ
  pub ter_read_buf_size : ℕ
  pub ter_read_indicator : ℕ
  pub cross_enter_flag : ℕ

-- The byte `kb_buffer_position`, and the word with another low byte.
abbrev pub position : Console → ℕ
position c = c.kb_buffer_position % 256

abbrev pub with_position : Console → ℕ → Console
with_position c p = record c { kb_buffer_position = c.kb_buffer_position / 256 * 256 + p % 256 }

-- `keyboard_init`, without the unmasking of the interrupt line and the two variables of the RTC
-- test that nothing reads.
unfoldable pub keyboard_init : Keyboard → Option Keyboard
keyboard_init k = do
  kb ← linux_simulation.Console.Output.zero_fill buf_size k.console.keyboard_buffer 0
  tr ← linux_simulation.Console.Output.zero_fill 25 k.console.enter_tracker 0
  let c = record (with_position k.console 0) {
    keyboard_buffer = kb;
    enter_tracker = tr;
    enter_flag = 0;
    first_scroll_indicator = 0;
  }
  some (record k {
    console = c;
    cap_flag = 0;
    shift_flag = 0;
    control_flag = 0;
    alt_flag = 0;
    cross_enter_flag = 0;
  })

-- `ter_read_buffer[i] = keyboard_buffer[i]` for the `left` indices from `i` on
pub copy_line : ℕ → List ℕ → List ℕ → ℕ → Option (List ℕ)
copy_line zero src dest i = some dest
copy_line (suc left) src dest i = do
  c ← get_elem? src i
  dest' ← store dest i c
  copy_line left src dest' (i + 1)

-- `keyboard_buffer_edit(1, data)`
pub add_char : Keyboard → ℕ → Option Keyboard
add_char k ch =
    let added = do
      c ← putc k.console ch
      kb ← store c.keyboard_buffer (position c) ch
      some (record k {
        console = record (with_position c (position c + 1)) { keyboard_buffer = kb };
      })
    in if position k.console == buf_size then some k else added

-- `keyboard_buffer_edit(0, data)`
pub delete_char : Keyboard → Option Keyboard
delete_char k =
    let deleted = do
      c ← backspace k.console
      kb ← store c.keyboard_buffer (position c - 1) 0
      some (record k {
        console = record (with_position c (position c - 1)) { keyboard_buffer = kb };
      })
    in if position k.console == 0 then some k else deleted

-- The line is handed to a reader that waits: the buffer is copied, and an enter and a zero are
-- put behind the line if it is not full.
pub hand_over : Keyboard → Option Keyboard
hand_over k = do
  copied ← copy_line buf_size k.console.keyboard_buffer k.ter_read_buffer 0
  let p = position k.console
  let ended = do
    a ← store copied p 0x0A
    b ← store a (p + 1) 0
    some (record k { ter_read_buffer = b; ter_read_buf_size = p + 1; cross_enter_flag = 1 })
  let full =
      some
        (record k { ter_read_buffer = copied; ter_read_buf_size = buf_size; cross_enter_flag = 1 })
  if ltb p buf_size then ended else full

-- `keyboard_buffer_edit(3, data)`
pub enter_line : Keyboard → Option Keyboard
enter_line k = do
  k' ← (if k.ter_read_indicator == 1 then hand_over k else some k)
  c ← keyboard_buffer_reset k'.console
  c' ← putc c 0x0A
  some (record k' { console = c' })

unfoldable pub keyboard_buffer_edit : Keyboard → ℕ → ℕ → Option Keyboard
keyboard_buffer_edit k indicator ch =
    if indicator == 1
    then add_char k ch
    else if indicator == 0
    then delete_char k
    else if indicator == 2
    then (reset k.console >>= λ c. some (record k { console = c }))
    else if indicator == 3
    then enter_line k
    else some k
