-- ===== src/Console/Write.antt =====
-- What `scrolling` does to the console.
use linux_simulation.Base.{
  ℕ, ◌+◌, ◌-◌, ◌<◌, ◌≡◌, ◌≢◌, inl, inr, refl, ◌∙◌, ap, some, ◌==◌, arith, Bool-cases, length,
  minus_one, sub32, Option-cases,
}
use linux_simulation.Console.{Console, num_cols, num_rows, buf_size}
use linux_simulation.Console.Scrolling.{copy_rows, clear_row, drop_front, scroll_buffer, scrolling}
use linux_simulation.Console.Scroll.{MovedUp, copy_rows-MovedUp}
use linux_simulation.Console.Bounds.{
  find_enter_total, shift_buffer-ShiftedFrom, shift_tracker_total,
}

-- Only the line buffer, which keeps its size, its position and the indicator may differ.
record OnlyBuffer (c c' : Console) : Type 0 where
  buffer_size : length c'.keyboard_buffer ≡ buf_size
  same_video : c'.video_mem ≡ c.video_mem
  same_x : c'.screen_x ≡ c.screen_x
  same_y : c'.screen_y ≡ c.screen_y
  same_tracker : c'.enter_tracker ≡ c.enter_tracker
  same_flag : c'.enter_flag ≡ c.enter_flag

drop_front-OnlyBuffer :
    (c : Console) (n : ℕ)
    → 0 < n
    → length c.keyboard_buffer ≡ buf_size
    → (c' : Console) × (drop_front c n ≡ some c') × OnlyBuffer c c'
unfolding drop_front
drop_front-OnlyBuffer c n pos l =
    let (kb, runs, s) =
      shift_buffer-ShiftedFrom buf_size n c.keyboard_buffer 0 pos (omega arith) l in
    (
      record c { keyboard_buffer = kb; kb_buffer_position = sub32 c.kb_buffer_position n },
      rw runs,
      record {
        buffer_size = s.same_length ∙ l;
        same_video = refl;
        same_x = refl;
        same_y = refl;
        same_tracker = refl;
        same_flag = refl;
      },
    )

scroll_buffer-OnlyBuffer :
    (c : Console)
    → length c.keyboard_buffer ≡ buf_size
    → (c' : Console) × (scroll_buffer c ≡ some c') × OnlyBuffer c c'
unfolding scroll_buffer
scroll_buffer-OnlyBuffer c l =
    let (found, runs) = find_enter_total num_cols c.keyboard_buffer 0 (omega arith) in
    elim (Option-cases found) [
      | inl e ↦
          let (c', drops, only) = drop_front-OnlyBuffer c num_cols (omega arith) l in
          (c', rw runs (rw e drops), only)
      | inr (index, e) ↦
          let (c', drops, only) = drop_front-OnlyBuffer c (index + 1) (omega arith) l in
          (c', rw runs (rw e drops), only)
    ]

-- What scrolling keeps and what it moves. Outside text editing mode nothing but the screen changes.
pub record Scrolled (c c' : Console) : Type 0 where
  pub screen : MovedUp c.video_mem c'.video_mem
  pub same_x : c'.screen_x ≡ c.screen_x
  pub same_y : c'.screen_y ≡ c.screen_y
  pub tracker_size : length c'.enter_tracker ≡ num_rows
  pub buffer_size : length c'.keyboard_buffer ≡ buf_size
  pub same_flag : c'.enter_flag ≡ c.enter_flag
  pub normal :
      c.enter_flag ≢ minus_one
      → (c'.keyboard_buffer ≡ c.keyboard_buffer)
        × (c'.enter_tracker ≡ c.enter_tracker)
        × (c'.kb_buffer_position ≡ c.kb_buffer_position)

-- `scrolling` never leaves an array, moves the screen up by one row and keeps the cursor; outside
-- text editing mode it leaves the line buffer and the tracker alone.
pub scrolling-Scrolled :
    (c : Console)
    → length c.enter_tracker ≡ num_rows
    → length c.keyboard_buffer ≡ buf_size
    → (c' : Console) × (scrolling c ≡ some c') × Scrolled c c'
unfolding scrolling
scrolling-Scrolled c tl bl = elim (Bool-cases (c.enter_flag == minus_one)) [
  | inr other ↦ (
    moved,
    rw other,
    record {
      screen = copy_rows-MovedUp c.video_mem;
      same_x = refl;
      same_y = refl;
      tracker_size = tl;
      buffer_size = bl;
      same_flag = refl;
      normal = λ ne. (refl, refl, refl);
    },
  )
  | inl editing ↦ elim (Bool-cases (c.first_scroll_indicator == 0)) [
    | inl first ↦
        let (tr, runs, size) = shift_tracker_total num_rows c.enter_tracker 0 (omega arith) tl in
        (
          record moved { first_scroll_indicator = 1; enter_tracker = tr },
          rw editing (rw first (rw runs)),
          record {
            screen = copy_rows-MovedUp c.video_mem;
            same_x = refl;
            same_y = refl;
            tracker_size = size;
            buffer_size = bl;
            same_flag = refl;
            normal = λ ne. absurd (ne (ground arith));
          },
        )
    | inr again ↦
        let (c', drops, only) = scroll_buffer-OnlyBuffer moved bl in
        let (tr, runs, size) =
          shift_tracker_total num_rows c'.enter_tracker 0 (omega arith)
            (ap length only.same_tracker ∙ tl) in
        (
          record c' { enter_tracker = tr },
          rw editing (rw again (rw drops (rw runs))),
          record {
            screen = rw only.same_video (copy_rows-MovedUp c.video_mem);
            same_x = only.same_x;
            same_y = only.same_y;
            tracker_size = size;
            buffer_size = only.buffer_size;
            same_flag = only.same_flag;
            normal = λ ne. absurd (ne (ground arith));
          },
        )
  ]
]
  where
    moved : Console
    moved = record c {
      video_mem = clear_row num_cols (num_rows - 1) 0 (copy_rows (num_rows - 1) 0 c.video_mem);
    }
