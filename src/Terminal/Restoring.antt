-- ===== src/Terminal/Restoring.antt =====
-- What `terminal_switch` of student-distrib/terminal.c brings back of the terminal that it enters.
use linux_simulation.Base.{
  ℕ, ◌+◌, ◌-◌, ◌*◌, ◌<◌, ◌≡◌, inl, inr, refl, ap, true, false, ◌&&◌, Bool-cases, some, ◌==◌,
  if◌then◌else◌, lt_signed, is_negative, get_elem?, arith,
}
use linux_simulation.Console.{Console, update_cursor}
use linux_simulation.Console.Output.{update_x, update_y}
use linux_simulation.Terminal.Switch.{TerInfo, Terminals, copy_page, restore_terminal}
use linux_simulation.Terminal.Saving.{IsTerminals, copy_loop-whole, video_buf_lem}

-- What `restore_terminal` brings back; a cursor at the start of a row or column goes to its end.
abbrev pub shown_x : ℕ → ℕ
shown_x x = if x == 0 then 79 else x

abbrev pub shown_y : ℕ → ℕ
shown_y y = if y == 0 then 24 else y

pub record Restored (m : Terminals) (i : ℕ) (t : TerInfo) (m' : Terminals) : Type 0 where
  pub ordered : IsTerminals m'
  pub array : m'.terminal_array ≡ m.terminal_array
  pub current : m'.current_terminal_idx ≡ i
  pub line : m'.keyboard.console.keyboard_buffer ≡ t.keyboard_buffer
  pub read : m'.keyboard.ter_read_buffer ≡ t.read_buffer
  pub position : m'.keyboard.console.kb_buffer_position ≡ m.keyboard.console.kb_buffer_position
  pub column : m'.keyboard.console.screen_x ≡ shown_x t.cursor_pos_x
  pub row : m'.keyboard.console.screen_y ≡ shown_y t.cursor_pos_y
  pub pages :
      (a : ℕ)
      → m'.keyboard.console.video_mem a
        ≡ copy_page m.keyboard.console.video_mem 0 ((1 + i) * 4096) a

-- A cursor in range is set, but for the first column and the first row.
update_x-shown_x : (c : Console) (x : ℕ) → x < 80 → update_x c x ≡ record c { screen_x = shown_x x }
unfolding update_x
update_x-shown_x c x h = elim (Bool-cases (x == 0)) [
  | inl is_0 ↦
      let outside : (lt_signed x 80 && lt_signed 0 x) ≡ false = ground arith in
      let not_below : is_negative x ≡ false = ground arith in
      rw outside (rw not_below (rw is_0 refl))
  | inr not_0 ↦
      let inside : (lt_signed x 80 && lt_signed 0 x) ≡ true = ground arith in
      rw inside (rw not_0 refl)
]

update_y-shown_y : (c : Console) (y : ℕ) → y < 25 → update_y c y ≡ record c { screen_y = shown_y y }
unfolding update_y
update_y-shown_y c y h = elim (Bool-cases (y == 0)) [
  | inl is_0 ↦
      let outside : (lt_signed y 25 && lt_signed 0 y) ≡ false = ground arith in
      let not_below : is_negative y ≡ false = ground arith in
      rw outside (rw not_below (rw is_0 refl))
  | inr not_0 ↦
      let inside : (lt_signed y 25 && lt_signed 0 y) ≡ true = ground arith in
      rw inside (rw not_0 refl)
]

pub restore_terminal-Restored :
    (m : Terminals) (i : ℕ) (t : TerInfo)
    → IsTerminals m
    → i < 3
    → get_elem? m.terminal_array i ≡ some t
    → (m' : Terminals) × (restore_terminal m i ≡ some m') × Restored m i t m'
unfolding restore_terminal update_cursor
restore_terminal-Restored m i t h lt there =
    let c = h.console in
    let console = m.keyboard.console in
    let info = h.info i t there in
    let kb =
      copy_loop-whole console.keyboard_buffer t.keyboard_buffer c.buffer_size info.line_size in
    let rb = copy_loop-whole m.keyboard.ter_read_buffer t.read_buffer h.read_size info.read_size in
    let addr = video_buf_lem i lt in
    let from : ℕ = (0xB9 + i) * 4096 - 0xB8000 in
    let at : from ≡ (1 + i) * 4096 = omega arith in
    let shown : Console = record console {
      video_mem = copy_page console.video_mem 0 from;
      keyboard_buffer = t.keyboard_buffer;
    } in
    let x = update_x-shown_x shown t.cursor_pos_x info.column in
    let y =
      update_y-shown_y (record shown { screen_x = shown_x t.cursor_pos_x }) t.cursor_pos_y
        info.row in
    let final : Console =
      update_cursor
        (record shown { screen_x = shown_x t.cursor_pos_x; screen_y = shown_y t.cursor_pos_y })
        t.cursor_pos_y t.cursor_pos_x in
    let column = info.column in
    let row = info.row in
    (
      record m {
        keyboard = record (m.keyboard) { console = final; ter_read_buffer = t.read_buffer };
        current_terminal_idx = i;
      },
      rw there (rw kb (rw rb (rw addr (rw x (rw y refl))))),
      record {
        ordered = record {
          console = record {
            column = ground arith;
            row = ground arith;
            tracker_size = c.tracker_size;
            buffer_size = info.line_size;
          };
          read_size = info.read_size;
          count = h.count;
          info = h.info;
          current = lt;
          dir_size = h.dir_size;
          tab_size = h.tab_size;
          table = h.table;
          table_small = h.table_small;
          aligned = h.aligned;
        };
        array = refl;
        current = refl;
        line = refl;
        read = refl;
        position = refl;
        column = refl;
        row = refl;
        pages = λ a. ap (λ f. copy_page console.video_mem 0 f a) at;
      },
    )
