-- ===== src/Console/Output.antt =====
-- Output of student-distrib/lib.c: putc, puts, backspace, clear, reset and keyboard_buffer_reset.
use linux_simulation.Base.{
  ℕ, zero, suc, ◌+◌, ◌-◌, ◌*◌, ◌&&◌, ◌||◌, Option, none, some, List, [], ◌∷◌, ◌>>=◌, ◌==◌, ltb,
  if◌then◌else◌, u8, sub32, minus_one, lt_signed, is_negative, store, get_elem?,
}
use linux_simulation.Console.{
  Console, Video, num_cols, num_rows, buf_size, attrib, offset, poke, write_cell, update_cursor,
}
use linux_simulation.Console.Scrolling.{scrolling}

-- A newline: the column is tracked, and the cursor goes to the start of the next row.
unfoldable pub putc_newline : Console → Option Console
putc_newline c = do
  tr ← store c.enter_tracker c.screen_y (c.screen_x + offset)
  let tracked = record c { enter_tracker = tr }
  let scrolled = scrolling tracked >>= λ c'. some (record c' { screen_x = 0 })
  let moved = some (record tracked { screen_y = c.screen_y + 1; screen_x = 0 })
  if c.screen_y == num_rows - 1 then scrolled else moved

-- Any other character, on the three branches of the source. On the last one the character is
-- written in the row above, where scrolling has moved the row that it ends.
unfoldable pub putc_char : Console → ℕ → Option Console
putc_char c ch =
    let here = write_cell c.video_mem c.screen_y c.screen_x ch in
    let scrolled = do
      c' ← scrolling c
      some (record c' {
        video_mem = write_cell c'.video_mem (c'.screen_y - 1) c'.screen_x ch;
        screen_x = 0;
      })
    in if ltb c.screen_x (num_cols - 1)
      then some (record c { video_mem = here; screen_x = c.screen_x + 1 })
      else if ltb c.screen_y (num_rows - 1)
      then some (record c { video_mem = here; screen_x = 0; screen_y = c.screen_y + 1 })
      else scrolled

unfoldable pub putc : Console → ℕ → Option Console
putc c ch = do
  c' ← (if ch == 0x0A || ch == 0x0D then putc_newline c else putc_char c ch)
  some (update_cursor c' c'.screen_y c'.screen_x)

-- A list of characters, written one after the other.
unfoldable pub puts : Console → List ℕ → Option Console
puts c [] = some c
puts c (ch ∷ s) = putc c ch >>= λ c'. puts c' s

-- `for(screen_x = NUM_COLS-1; screen_x != x_offset; screen_x--)`, blanking each cell; an offset
-- that is not met in the row is never met.
unfoldable pub blank_back : ℕ → Console → ℕ → Option Console
blank_back zero c x_offset = none
blank_back (suc fuel) c x_offset =
    let c' = record c {
      video_mem = write_cell c.video_mem c.screen_y c.screen_x 0x20;
      screen_x = c.screen_x - 1;
    } in
    let rest = blank_back fuel c' x_offset in if c.screen_x == x_offset then some c else rest

-- The last column of the row above.
abbrev pub back_to_row_above : Console → Console
back_to_row_above c = record c {
  screen_x = num_cols - 1;
  screen_y = c.screen_y - 1;
  video_mem = write_cell c.video_mem (c.screen_y - 1) (num_cols - 1) 0x20;
}

unfoldable pub backspace : Console → Option Console
backspace c =
    let in_row = some (record c {
      screen_x = c.screen_x - 1;
      video_mem = write_cell c.video_mem c.screen_y (c.screen_x - 1) 0x20;
    }) in
    let tracked = do
      mark ← get_elem? c.enter_tracker (c.screen_y - 1)
      let entered = do
        c' ←
            blank_back num_cols (record c { screen_y = c.screen_y - 1; screen_x = num_cols - 1 })
              (u8 (sub32 mark offset))
        tr ← store c'.enter_tracker c'.screen_y 0
        some (record c' { enter_tracker = tr })
      if mark == 0 then some (back_to_row_above c) else entered
    in let row_above = if c.enter_flag == minus_one then tracked else some (back_to_row_above c) in
      let edited = do
        c' ← (if ltb 0 c.screen_x then in_row else row_above)
        some (update_cursor c' c'.screen_y c'.screen_x)
      in if c.screen_y == 0 && c.screen_x == 0 then some c else edited

-- The loop of `clear` from cell `i` on.
unfoldable pub clear_cells : ℕ → ℕ → Video → Video
clear_cells zero i v = v
clear_cells (suc left) i v =
    clear_cells left (i + 1) (poke (poke v (i * 2) 0x20) (i * 2 + 1) attrib)

unfoldable pub clear : Console → Console
clear c = record c { video_mem = clear_cells (num_rows * num_cols) 0 c.video_mem }

-- `for(i = 0; i < n; i++) xs[i] = 0;`
unfoldable pub zero_fill : ℕ → List ℕ → ℕ → Option (List ℕ)
zero_fill zero xs i = some xs
zero_fill (suc left) xs i = store xs i 0 >>= λ xs'. zero_fill left xs' (i + 1)

unfoldable pub keyboard_buffer_reset : Console → Option Console
keyboard_buffer_reset c = do
  kb ← zero_fill buf_size c.keyboard_buffer 0
  some (record c { keyboard_buffer = kb; kb_buffer_position = 0 })

unfoldable pub reset : Console → Option Console
reset c = do
  let cleared = record (clear c) { screen_x = 0; screen_y = 0 }
  kb ← zero_fill buf_size cleared.keyboard_buffer 0
  tr ← zero_fill num_rows cleared.enter_tracker 0
  let fresh = record cleared { keyboard_buffer = kb; enter_tracker = tr; kb_buffer_position = 0 }
  some (update_cursor fresh fresh.screen_y fresh.screen_x)

abbrev pub x_pos : Console → ℕ
x_pos c = c.screen_x

abbrev pub y_pos : Console → ℕ
y_pos c = c.screen_y

-- A column is set when it is in the row and not the first one; below 0 stands for the first, and the
-- rest, the first column too, for the last.
unfoldable pub update_x : Console → ℕ → Console
update_x c x =
    if lt_signed x num_cols && lt_signed 0 x
    then record c { screen_x = x }
    else if is_negative x
    then record c { screen_x = 0 }
    else record c { screen_x = 79 }

unfoldable pub update_y : Console → ℕ → Console
update_y c y =
    if lt_signed y num_rows && lt_signed 0 y
    then record c { screen_y = y }
    else if is_negative y
    then record c { screen_y = 0 }
    else record c { screen_y = 24 }
