-- ===== src/Console/Putc.antt =====
-- `putc` and `puts` stay on the screen and show what they are given.
use linux_simulation.Base.{
  ℕ, min, ◌+◌, ◌-◌, ◌*◌, ◌≤◌, ◌≡◌, ◌≢◌, ◌⊎◌, inl, inr, refl, ◌∙◌, some, ◌==◌, arith, List, [], ◌∷◌,
  Bool-cases, length, set, ltb, store, store_lem, length-set, if◌then◌else◌, ◌||◌, ◌&&◌,
}
use linux_simulation.Console.{Console, num_cols, num_rows, cell, offset, write_cell, update_cursor}
use linux_simulation.Console.Bounds.{IsConsole}
use linux_simulation.Console.Output.{putc_newline, putc_char, putc, puts}
use linux_simulation.Console.Write.{scrolling-Scrolled}

-- The console is in order, and no byte behind the 25 rows was written.
pub record Stays (c c' : Console) : Type 0 where
  pub console : IsConsole c'
  pub behind : (a : ℕ) → 4000 ≤ a → c'.video_mem a ≡ c.video_mem a

putc_newline-Stays :
    (c : Console) → IsConsole c → (c' : Console) × (putc_newline c ≡ some c') × Stays c c'
unfolding putc_newline
putc_newline-Stays c v =
    let row = v.row in
    let size = v.tracker_size in
    let tr : List ℕ = set c.enter_tracker c.screen_y (c.screen_x + offset) in
    let stored : store c.enter_tracker c.screen_y (c.screen_x + offset) ≡ some tr =
      store_lem c.enter_tracker c.screen_y _ (omega arith) in
    let tl : length tr ≡ num_rows = length-set c.enter_tracker c.screen_y _ ∙ size in
    elim (Bool-cases (c.screen_y == num_rows - 1)) [
      | inl last ↦
          let (c', runs, s) =
            scrolling-Scrolled (record c { enter_tracker = tr }) tl v.buffer_size in
          (
            record c' { screen_x = 0 },
            rw stored (rw last (rw runs)),
            record {
              console = record {
                column = omega arith;
                row = rw s.same_y row;
                tracker_size = s.tracker_size;
                buffer_size = s.buffer_size;
              };
              behind = s.screen.behind;
            },
          )
      | inr other ↦ (
        record c { enter_tracker = tr; screen_y = c.screen_y + 1; screen_x = 0 },
        rw stored (rw other),
        record {
          console = record {
            column = omega arith;
            row = ground arith;
            tracker_size = tl;
            buffer_size = v.buffer_size;
          };
          behind = λ a h. refl;
        },
      )
    ]

-- The row in which a character is shown: the last cell of the screen scrolls up with its row.
abbrev pub shown_row : Console → ℕ
shown_row c =
    if c.screen_x == num_cols - 1 && c.screen_y == num_rows - 1 then num_rows - 2 else c.screen_y

-- The character is shown with its attribute, and the cursor goes on to the next cell, or to the
-- start of the last row.
pub record Shows (c : Console) (ch : ℕ) (c' : Console) : Type 0 where
  pub character : c'.video_mem (cell (shown_row c) c.screen_x) ≡ ch
  pub attribute : c'.video_mem (cell (shown_row c) c.screen_x + 1) ≡ 0x7
  pub next : c'.screen_y * num_cols + c'.screen_x ≡ shown_row c * num_cols + c.screen_x + 1

putc_char-Shows :
    (c : Console) (ch : ℕ)
    → IsConsole c
    → (c' : Console) × (putc_char c ch ≡ some c') × Stays c c' × Shows c ch c'
unfolding putc_char
putc_char-Shows c ch v =
    let col = v.column in
    let row = v.row in
    elim (Bool-cases (ltb c.screen_x (num_cols - 1))) [
      | inl inside ↦ (
        record c {
          video_mem = write_cell c.video_mem c.screen_y c.screen_x ch;
          screen_x = c.screen_x + 1;
        },
        rw inside,
        record {
          console = record {
            column = ground arith;
            row = row;
            tracker_size = v.tracker_size;
            buffer_size = v.buffer_size;
          };
          behind = λ a h. ground arith;
        },
        record { character = ground arith; attribute = ground arith; next = ground arith },
      )
      | inr edge ↦ elim (Bool-cases (ltb c.screen_y (num_rows - 1))) [
        | inl above ↦ (
          record c {
            video_mem = write_cell c.video_mem c.screen_y c.screen_x ch;
            screen_x = 0;
            screen_y = c.screen_y + 1;
          },
          rw edge (rw above),
          record {
            console = record {
              column = omega arith;
              row = ground arith;
              tracker_size = v.tracker_size;
              buffer_size = v.buffer_size;
            };
            behind = λ a h. ground arith;
          },
          record { character = ground arith; attribute = ground arith; next = ground arith },
        )
        | inr last ↦
            let (s, runs, p) = scrolling-Scrolled c v.tracker_size v.buffer_size in
            let sx : s.screen_x ≡ c.screen_x = p.same_x in
            let sy : s.screen_y ≡ c.screen_y = p.same_y in
            let x : c.screen_x ≡ 79 = ground arith in
            let y : c.screen_y ≡ 24 = ground arith in
            let x' : s.screen_x ≡ 79 = sx ∙ x in
            let y' : s.screen_y ≡ 24 = sy ∙ y in
            (
              record s {
                video_mem = write_cell s.video_mem (s.screen_y - 1) s.screen_x ch;
                screen_x = 0;
              },
              rw edge (rw last (rw runs)),
              record {
                console = record {
                  column = omega arith;
                  row = omega arith;
                  tracker_size = p.tracker_size;
                  buffer_size = p.buffer_size;
                };
                behind = λ a h. let b = p.screen.behind a h in ground arith;
              },
              record { character = ground arith; attribute = ground arith; next = ground arith },
            )
      ]
    ]

-- The blinking cursor stands where the console does.
abbrev pub CursorHere : Console → Type 0
CursorHere c = c.cursor_low + 256 * c.cursor_high ≡ c.screen_y * num_cols + c.screen_x

pub update_cursor-CursorHere :
    (c : Console) → IsConsole c → CursorHere (update_cursor c c.screen_y c.screen_x)
unfolding update_cursor
update_cursor-CursorHere c v = let col = v.column in let row = v.row in omega arith

-- A newline goes to the start of the next row, and stays in the last one.
abbrev pub NewRow : Console → Console → Type 0
NewRow c c' = (c'.screen_x ≡ 0) × (c'.screen_y ≡ min (c.screen_y + 1) (num_rows - 1))

putc_newline-NewRow : (c c' : Console) → IsConsole c → putc_newline c ≡ some c' → NewRow c c'
unfolding putc_newline
putc_newline-NewRow c c' v e =
    let row = v.row in
    let stored =
      store_lem c.enter_tracker c.screen_y (c.screen_x + offset)
        (let s = v.tracker_size in omega arith) in
    let (s, runs, p) =
      scrolling-Scrolled
        (record c { enter_tracker = set c.enter_tracker c.screen_y (c.screen_x + offset) })
        (length-set c.enter_tracker c.screen_y _ ∙ v.tracker_size) v.buffer_size in
    let y = p.same_y in ground (arith, stored, runs, y)

-- `putc` is defined on every console in order and leaves it in order, writes nothing behind the 25
-- rows and moves the blinking cursor along; a newline or a return starts a new row, and any other
-- character is shown at the cursor, which goes on by one cell.
pub putc-Shows :
    (c : Console) (ch : ℕ)
    → IsConsole c
    → (c' : Console) × (putc c ch ≡ some c')
      × Stays c c'
      × CursorHere c'
      × (((ch ≡ 0x0A) ⊎ (ch ≡ 0x0D)) × NewRow c c' ⊎ (ch ≢ 0x0A) × (ch ≢ 0x0D) × Shows c ch c')
unfolding putc
putc-Shows c ch v = elim (Bool-cases (ch == 0x0A || ch == 0x0D)) [
  | inl newline ↦
      let (n, runs, s) = putc_newline-Stays c v in
      (
        update_cursor n n.screen_y n.screen_x,
        rw newline (rw runs),
        unfold update_cursor in
            record {
              console = record {
                column = s.console.column;
                row = s.console.row;
                tracker_size = s.console.tracker_size;
                buffer_size = s.console.buffer_size;
              };
              behind = s.behind;
            },
        update_cursor-CursorHere n s.console,
        inl (ground arith, unfold update_cursor in putc_newline-NewRow c n v runs),
      )
  | inr other ↦
      let (n, runs, s, sh) = putc_char-Shows c ch v in
      (
        update_cursor n n.screen_y n.screen_x,
        rw other (rw runs),
        unfold update_cursor in
            record {
              console = record {
                column = s.console.column;
                row = s.console.row;
                tracker_size = s.console.tracker_size;
                buffer_size = s.console.buffer_size;
              };
              behind = s.behind;
            },
        update_cursor-CursorHere n s.console,
        inr (
          ground arith,
          ground arith,
          unfold update_cursor in
              record { character = sh.character; attribute = sh.attribute; next = sh.next },
        ),
      )
]

-- `puts` of any text is defined on a console in order, leaves it in order and writes nothing behind
-- the 25 rows.
pub puts-Stays :
    (c : Console) (s : List ℕ) → IsConsole c → (c' : Console) × (puts c s ≡ some c') × Stays c c'
unfolding puts
puts-Stays c [] v = (c, refl, record { console = v; behind = λ a h. refl })
puts-Stays c (ch ∷ s) v =
    let (m, runs, st, here, rest) = putc-Shows c ch v in
    let (c', on, st') = puts-Stays m s st.console in
    (
      c',
      rw runs on,
      record { console = st'.console; behind = λ a h. st'.behind a h ∙ st.behind a h },
    )
