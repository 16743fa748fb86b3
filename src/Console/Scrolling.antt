-- ===== src/Console/Scrolling.antt =====
-- `scrolling` of student-distrib/lib.c: the video memory, the line buffer and the tracker.
use linux_simulation.Base.{
  ℕ, zero, suc, ◌+◌, ◌-◌, Option, none, some, List, ◌>>=◌, ◌==◌, ltb, if◌then◌else◌, sub32,
  minus_one, store, get_elem?,
}
use linux_simulation.Console.{Console, Video, num_cols, num_rows, buf_size, poke, cell}

-- The inner loop of `scrolling`: row `row + 1` is copied to row `row`, from column `col` on.
unfoldable pub copy_row : ℕ → ℕ → ℕ → Video → Video
copy_row zero row col v = v
copy_row (suc left) row col v =
    copy_row left row (col + 1) (poke v (cell row col) (v (cell (row + 1) col)))

unfoldable pub copy_rows : ℕ → ℕ → Video → Video
copy_rows zero row v = v
copy_rows (suc left) row v = copy_rows left (row + 1) (copy_row num_cols row 0 v)

-- Spaces in a row from column `col` on, with `left` columns left; attributes stay.
unfoldable pub clear_row : ℕ → ℕ → ℕ → Video → Video
clear_row zero row col v = v
clear_row (suc left) row col v = clear_row left row (col + 1) (poke v (cell row col) 0x20)

-- Is there an enter among the first columns of the line buffer? Its index, if so.
unfoldable pub find_enter : ℕ → List ℕ → ℕ → Option (Option ℕ)
find_enter zero kb index = some none
find_enter (suc left) kb index = do
  c ← get_elem? kb index
  let rest = find_enter left kb (index + 1)
  if c == 0x0A then some (some index) else rest

-- `keyboard_buffer[i] = keyboard_buffer[from + i]` while that is inside, zeros behind, from `i` on
unfoldable pub shift_buffer : ℕ → ℕ → List ℕ → ℕ → Option (List ℕ)
shift_buffer zero from kb i = some kb
shift_buffer (suc left) from kb i =
    let inside =
      get_elem? kb (from + i) >>= λ c. store kb i c >>= λ kb'. shift_buffer left from kb' (i + 1) in
    let behind = store kb i 0 >>= λ kb'. shift_buffer left from kb' (i + 1) in
    if ltb (from + i) buf_size then inside else behind

-- All marks of the tracker move up one row, from `index` on.
unfoldable pub shift_tracker : ℕ → List ℕ → ℕ → Option (List ℕ)
shift_tracker zero tr index = some tr
shift_tracker (suc left) tr index =
    let inside = get_elem? tr (index + 1) >>= λ m.
    store tr index m >>= λ tr'. shift_tracker left tr' (index + 1) in
    let last = store tr index 0 >>= λ tr'. shift_tracker left tr' (index + 1) in
    if ltb index (num_rows - 1) then inside else last

-- `n` bytes are taken out in front, and the position goes down by as many.
unfoldable pub drop_front : Console → ℕ → Option Console
drop_front c n = do
  kb ← shift_buffer buf_size n c.keyboard_buffer 0
  some (record c { keyboard_buffer = kb; kb_buffer_position = sub32 c.kb_buffer_position n })

-- What scrolling does to the line buffer in text editing mode, after the first time: the bytes of
-- the row that goes away are taken out, up to an enter or a whole row.
unfoldable pub scroll_buffer : Console → Option Console
scroll_buffer c = do
  found ← find_enter num_cols c.keyboard_buffer 0
  elim found [ some index ↦ drop_front c (index + 1) | none ↦ drop_front c num_cols ]

unfoldable pub scrolling : Console → Option Console
scrolling c =
    let v = clear_row num_cols (num_rows - 1) 0 (copy_rows (num_rows - 1) 0 c.video_mem) in
    let moved = record c { video_mem = v } in
    let buffered =
      if c.first_scroll_indicator == 0
      then some (record moved { first_scroll_indicator = 1 })
      else scroll_buffer moved in
    let tracked = do
      c' ← buffered
      tr ← shift_tracker num_rows c'.enter_tracker 0
      some (record c' { enter_tracker = tr })
    in if c.enter_flag == minus_one then tracked else some moved
