-- ===== src/Terminal.antt =====
-- student-distrib/terminal.c: reading a line and writing to the screen. The switch between the
-- terminals is in Terminal.Switch.
--
-- `none` is an access outside an array, or a wait that does not end. Disabling the interrupts has no
-- counterpart: an interrupt is handled only where the code waits for one.
pub mod Read
pub mod Write
pub mod Switch
pub mod Saving
pub mod Restoring
pub mod Switching
pub mod Keys
mod Tests
use linux_simulation.Base.{
  ℕ, zero, suc, ◌+◌, ◌*◌, Option, none, some, List, [], ◌∷◌, ◌>>=◌, ◌==◌, ltb, if◌then◌else◌,
  minus_one, is_negative, lt_signed, store, get_elem?,
}
use linux_simulation.Console.{Console, buf_size}
use linux_simulation.Console.Output.{putc, reset}
use linux_simulation.Keyboard.{Keyboard}
use linux_simulation.Keyboard.Scan.{keyboard_irq_handler}

-- `terminal_open`, which returns 0.
unfoldable pub terminal_open : Keyboard → Option (Keyboard × ℕ)
terminal_open k = reset k.console >>= λ c. some (record k { console = c }, 0)

-- `while(cross_enter_flag == 0);` while the keyboard sends these scan codes. The switch of terminals
-- that a key asks for is not followed.
pub wait_enter : List ℕ → Keyboard → Option Keyboard
wait_enter [] k = if k.cross_enter_flag == 0 then none else some k
wait_enter (input ∷ later) k =
    let pressed = keyboard_irq_handler k input >>= λ g. wait_enter later g.keyboard in
    if k.cross_enter_flag == 0 then pressed else some k

-- The loop that copies the line, with `left` more bytes in `ter_read_buffer`: the buffer and `i`.
pub copy_out : ℕ → List ℕ → List ℕ → ℕ → ℕ → Option (List ℕ × ℕ)
copy_out zero src buffer i nbytes = some (buffer, i)
copy_out (suc left) src buffer i nbytes =
    let body = get_elem? src i >>= λ c.
    let copied = store buffer i c >>= λ buffer'. copy_out left src buffer' (i + 1) nbytes in
    if c == 0 then some (buffer, i) else copied in
    if lt_signed i nbytes then body else some (buffer, i)

-- What `terminal_read` returns after `i` bytes; the comparison is unsigned.
abbrev pub read_result : Keyboard → ℕ → ℕ → ℕ
read_result k i nbytes = if ltb nbytes k.ter_read_buf_size then nbytes else i

-- `terminal_read` into a buffer, while keys arrive.
pub terminal_read : List ℕ → Keyboard → List ℕ → ℕ → Option (Keyboard × List ℕ × ℕ)
terminal_read arrivals k buf nbytes =
    let reading = record k { ter_read_indicator = 1 } in
    let line = do
      entered ← wait_enter arrivals reading
      copied ← copy_out buf_size entered.ter_read_buffer buf 0 nbytes
      ended ← store copied.0 (copied.1 + 1) 0
      some (
        record entered { cross_enter_flag = 0; ter_read_indicator = 0 },
        ended,
        read_result entered copied.1 nbytes,
      )
    in if k.console.enter_flag == 0 then line else some (reading, buf, minus_one)

-- The loop of `terminal_write`, `left` bytes before its end.
pub write_bytes : ℕ → Console → List ℕ → ℕ → Option Console
write_bytes zero c buffer i = some c
write_bytes (suc left) c buffer i = do
  ch ← get_elem? buffer i
  c' ← putc c ch
  write_bytes left c' buffer (i + 1)

-- `terminal_write`; a count below 0 writes nothing.
pub terminal_write : Console → List ℕ → ℕ → Option (Console × ℕ)
terminal_write c buffer nbytes =
    let count = if is_negative nbytes then 0 else nbytes in
    write_bytes count c buffer 0 >>= λ c'. some (c', count + 1)

abbrev pub terminal_close : ℕ → ℕ
terminal_close fd = 0
