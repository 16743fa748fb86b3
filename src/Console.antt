-- ===== src/Console.antt =====
-- The console of student-distrib/lib.c: the cursor, the video memory, the line buffer and the
-- tracker of enters, with putc, puts, printf, backspace, scrolling, reset, clear and update_cursor.
--
-- The video memory is a function from the offset behind VIDEO to the byte there, since nothing
-- checks an offset before it is written. The arrays are lists, and `none` is an access outside one
-- (or a loop that does not end).
pub mod Scrolling
pub mod Output
pub mod Printf
pub mod Strings
pub mod Items
pub mod Conversions
pub mod Printing
pub mod Bounds
pub mod Scroll
pub mod Write
pub mod Putc
pub mod Line
pub mod Erase
pub mod Back
mod Tests
use linux_simulation.Base.{
  ℕ, zero, suc, ◌+◌, ◌-◌, ◌*◌, ◌/◌, ◌%◌, ◌^◌, Bool, true, false, ◌&&◌, ◌||◌, Option, none, some,
  List, [], ◌∷◌, ◌>>=◌, ◌==◌, ltb, leb, if◌then◌else◌, u8, u16, sub32, minus_one, store, get_elem?,
  replicate,
}

abbrev pub Video : Type 0
Video = ℕ → ℕ

abbrev pub num_cols : ℕ
num_cols = 80

abbrev pub num_rows : ℕ
num_rows = 25

abbrev pub buf_size : ℕ
buf_size = 128

abbrev pub attrib : ℕ
attrib = 0x7

-- OFFSET of lib.h, which keeps a tracked column apart from "no enter".
abbrev pub offset : ℕ
offset = 0xAF

pub record Console : Type 0 where
  pub screen_x : ℕ
  pub screen_y : ℕ
  pub video_mem : Video
  pub enter_tracker : List ℕ
  pub keyboard_buffer : List ℕ
  -- A word for lib.c; keyboard.c declares it as a byte, which is its low byte.
  pub kb_buffer_position : ℕ
  pub enter_flag : ℕ
  pub first_scroll_indicator : ℕ
  -- VGA registers 0x0F and 0x0E: the place of the blinking cursor.
  pub cursor_low : ℕ
  pub cursor_high : ℕ

abbrev pub poke : Video → ℕ → ℕ → Video
poke v a b k = if k == a then b else v k

-- The offsets of a cell: its character, and its attribute one further.
abbrev pub cell : ℕ → ℕ → ℕ
cell y x = (num_cols * y + x) * 2

-- A character and its attribute, written at a cell.
abbrev pub write_cell : Video → ℕ → ℕ → ℕ → Video
write_cell v y x c = poke (poke v (cell y x) c) (cell y x + 1) attrib

unfoldable pub update_cursor : Console → ℕ → ℕ → Console
update_cursor c row col =
    let position = u16 (u16 row * num_cols + u16 col) in
    record c { cursor_low = position % 256; cursor_high = position / 2 ^ 8 % 256 }
