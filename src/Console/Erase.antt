-- ===== src/Console/Erase.antt =====
-- `backspace`, `clear` and `reset`.
use linux_simulation.Base.{
  ℕ, zero, suc, ◌+◌, ◌-◌, ◌*◌, ◌≤◌, ◌<◌, ◌≡◌, ◌≢◌, ◌⊎◌, inl, inr, refl, ◌∙◌, some, ◌==◌, arith,
  List, false, Bool-cases, length, get_elem?, set, ltb, minus_one, store_lem, length-set,
  get_elem?-set_self, get_elem?-set_ne, ◌&&◌,
}
use linux_simulation.Console.{
  Console, Video, num_cols, num_rows, buf_size, attrib, cell, write_cell, update_cursor,
}
use linux_simulation.Console.Bounds.{IsConsole}
use linux_simulation.Console.Putc.{Stays, CursorHere, update_cursor-CursorHere}
use linux_simulation.Console.Output.{
  backspace, back_to_row_above, clear_cells, clear, zero_fill, reset,
}

-- The cell in front of the cursor is blank, and the cursor stands on it.
pub record Erased (c c' : Console) : Type 0 where
  pub moved : c'.screen_y * num_cols + c'.screen_x + 1 ≡ c.screen_y * num_cols + c.screen_x
  pub blank : c'.video_mem (cell c'.screen_y c'.screen_x) ≡ 0x20
  pub others :
      (y x : ℕ)
      → x < num_cols
      → y * num_cols + x ≢ c'.screen_y * num_cols + c'.screen_x
      → c'.video_mem (cell y x) ≡ c.video_mem (cell y x)

-- No enter in text editing mode stands in front of the cursor.
abbrev pub GoesBack : Console → Type 0
GoesBack c =
    (c.enter_flag ≢ minus_one)
    ⊎ ((0 < c.screen_x) ⊎ (get_elem? c.enter_tracker (c.screen_y - 1) ≡ some 0))

-- The start of a row, where the row above was filled.
backspace-edge :
    (c : Console)
    → GoesBack c
    → (c.screen_y == 0 && c.screen_x == 0) ≡ false
    → ltb 0 c.screen_x ≡ false
    → backspace c ≡ some (update_cursor (back_to_row_above c) (c.screen_y - 1) (num_cols - 1))
unfolding backspace
backspace-edge c (inl normal) more edge =
    let flag : (c.enter_flag == minus_one) ≡ false = ground arith in
    rw more (rw edge (rw flag refl))
backspace-edge c (inr (inl inside)) more edge = absurd (ground arith)
backspace-edge c (inr (inr filled)) more edge = elim (Bool-cases (c.enter_flag == minus_one)) [
  | inl editing ↦ rw more (rw edge (rw editing (rw filled refl)))
  | inr normal ↦ rw more (rw edge (rw normal refl))
]

-- `backspace`, with no enter in front of the cursor, goes back by one cell, over the edge of a row too,
-- blanks it and touches no other character; on the first cell of the screen it does nothing.
pub backspace-Erased :
    (c : Console)
    → IsConsole c
    → GoesBack c
    → (c' : Console) × (backspace c ≡ some c')
      × Stays c c'
      × ((c.screen_x ≡ 0) × (c.screen_y ≡ 0) × (c' ≡ c) ⊎ CursorHere c' × Erased c c')
unfolding backspace
backspace-Erased c v normal =
    let col = v.column in
    let row = v.row in
    elim (Bool-cases (c.screen_y == 0 && c.screen_x == 0)) [
      | inl start ↦ (
        c,
        rw start,
        record { console = v; behind = λ a h. refl },
        inl (ground arith, ground arith, refl),
      )
      | inr more ↦ elim (Bool-cases (ltb 0 c.screen_x)) [
        | inl inside ↦
            let n : Console = record c {
              screen_x = c.screen_x - 1;
              video_mem = write_cell c.video_mem c.screen_y (c.screen_x - 1) 0x20;
            } in
            let ok : IsConsole n = record {
              column = omega arith;
              row = row;
              tracker_size = v.tracker_size;
              buffer_size = v.buffer_size;
            } in
            (
              update_cursor n n.screen_y n.screen_x,
              rw more (rw inside),
              unfold update_cursor in
                  record {
                    console = record {
                      column = ok.column;
                      row = row;
                      tracker_size = v.tracker_size;
                      buffer_size = v.buffer_size;
                    };
                    behind = λ a h. ground arith;
                  },
              inr (
                update_cursor-CursorHere n ok,
                unfold update_cursor in
                    record {
                      moved = ground arith;
                      blank = ground arith;
                      others = λ y x h ne. ground arith;
                    },
              ),
            )
        | inr edge ↦
            let y : 0 < c.screen_y = ground arith in
            let n : Console = record c {
              screen_x = num_cols - 1;
              screen_y = c.screen_y - 1;
              video_mem = write_cell c.video_mem (c.screen_y - 1) (num_cols - 1) 0x20;
            } in
            let ok : IsConsole n = record {
              column = omega arith;
              row = omega arith;
              tracker_size = v.tracker_size;
              buffer_size = v.buffer_size;
            } in
            (
              update_cursor n n.screen_y n.screen_x,
              backspace-edge c normal more edge,
              unfold update_cursor in
                  record {
                    console = record {
                      column = ok.column;
                      row = ok.row;
                      tracker_size = v.tracker_size;
                      buffer_size = v.buffer_size;
                    };
                    behind = λ a h. ground arith;
                  },
              inr (
                update_cursor-CursorHere n ok,
                unfold update_cursor in
                    record {
                      moved = ground arith;
                      blank = ground arith;
                      others = λ y x h ne. ground arith;
                    },
              ),
            )
      ]
    ]

clear_cells-other :
    (left i : ℕ) (v : Video) (a : ℕ)
    → (a < i * 2) ⊎ ((i + left) * 2 ≤ a)
    → clear_cells left i v a ≡ v a
unfolding clear_cells
clear_cells-other zero i v a h = refl
clear_cells-other (suc left) i v a h =
    clear_cells-other left (i + 1) _ a (ground arith) ∙ ground arith

clear_cells-cell :
    (left i : ℕ) (v : Video) (j : ℕ)
    → i ≤ j
    → j < i + left
    → (clear_cells left i v (j * 2) ≡ 0x20) × (clear_cells left i v (j * 2 + 1) ≡ attrib)
unfolding clear_cells
clear_cells-cell zero i v j p q = absurd (omega arith)
clear_cells-cell (suc left) i v j p q = elim (Bool-cases (j == i)) [
  | inl eq ↦
      let e : j ≡ i = ground arith in
      rw e (
        clear_cells-other left (i + 1) _ (i * 2) (inl (omega arith)) ∙ ground arith,
        clear_cells-other left (i + 1) _ (i * 2 + 1) (inl (omega arith)) ∙ ground arith,
      )
  | inr ne ↦ clear_cells-cell left (i + 1) _ j (ground arith) (omega arith)
]

pub zero_fill_lem :
    (left : ℕ) (xs : List ℕ) (i : ℕ)
    → i + left ≤ length xs
    → (r : List ℕ) × (zero_fill left xs i ≡ some r)
      × (length r ≡ length xs)
      × ((j : ℕ) → i ≤ j → j < i + left → get_elem? r j ≡ some 0)
      × ((j : ℕ) → j < i → get_elem? r j ≡ get_elem? xs j)
unfolding zero_fill
zero_fill_lem zero xs i room = (xs, refl, refl, λ j p q. absurd (omega arith), λ j p. refl)
zero_fill_lem (suc left) xs i room =
    let (r, runs, len, zeros, kept) =
      zero_fill_lem left (set xs i 0) (i + 1) (omega (arith, length-set xs i 0)) in
    (
      r,
      ground (arith, store_lem xs i 0 (omega arith), runs),
      len ∙ length-set xs i 0,
      λ j p q. elim (Bool-cases (j == i)) [
        | inl eq ↦ ground (arith, kept j, get_elem?-set_self xs i 0)
        | inr ne ↦ zeros j (ground arith) (omega arith)
      ],
      λ j p. ground (arith, kept j, get_elem?-set_ne xs i j 0),
    )

-- A blank screen, with the cursor at its start and an empty line buffer.
pub record Fresh (c : Console) : Type 0 where
  pub at_start : (c.screen_x ≡ 0) × (c.screen_y ≡ 0) × (c.kb_buffer_position ≡ 0)
  pub blank :
      (y x : ℕ)
      → y < num_rows
      → x < num_cols
      → (c.video_mem (cell y x) ≡ 0x20) × (c.video_mem (cell y x + 1) ≡ attrib)
  pub empty : (j : ℕ) → j < buf_size → get_elem? c.keyboard_buffer j ≡ some 0
  pub untracked : (j : ℕ) → j < num_rows → get_elem? c.enter_tracker j ≡ some 0

-- `reset` is defined on a console in order, wherever its cursor stands, and leaves a blank screen,
-- an empty line buffer and tracker, nothing written behind the 25 rows, and the
-- mode as it was.
pub reset-Fresh :
    (c : Console)
    → length c.enter_tracker ≡ num_rows
    → length c.keyboard_buffer ≡ buf_size
    → (c' : Console) × (reset c ≡ some c')
      × Stays c c'
      × CursorHere c'
      × Fresh c'
      × (c'.enter_flag ≡ c.enter_flag)
unfolding reset clear
reset-Fresh c tl bl =
    let (kb, r1, l1, z1, k1) = zero_fill_lem buf_size c.keyboard_buffer 0 (omega arith) in
    let (tr, r2, l2, z2, k2) = zero_fill_lem num_rows c.enter_tracker 0 (omega arith) in
    let n : Console = record c {
      screen_x = 0;
      screen_y = 0;
      video_mem = clear_cells 2000 0 c.video_mem;
      keyboard_buffer = kb;
      enter_tracker = tr;
      kb_buffer_position = 0;
    } in
    let ok : IsConsole n = record {
      column = omega arith;
      row = omega arith;
      tracker_size = l2 ∙ tl;
      buffer_size = l1 ∙ bl;
    } in
    (
      update_cursor n 0 0,
      rw r1 (rw r2),
      unfold update_cursor in
          record {
            console = record {
              column = ok.column;
              row = ok.row;
              tracker_size = ok.tracker_size;
              buffer_size = ok.buffer_size;
            };
            behind = λ a h. clear_cells-other 2000 0 c.video_mem a (inr (omega arith));
          },
      update_cursor-CursorHere n ok,
      unfold update_cursor in
          record {
            at_start = (refl, refl, refl);
            blank = λ y x p q.
                clear_cells-cell 2000 0 c.video_mem (80 * y + x) (omega arith) (omega arith);
            empty = λ j p. z1 j (omega arith) (omega arith);
            untracked = λ j p. z2 j (omega arith) (omega arith);
          },
      unfold update_cursor in refl,
    )
