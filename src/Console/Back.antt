-- ===== src/Console/Back.antt =====
-- `backspace` in every mode: over the edge of a row, and back to where a line was ended.
use linux_simulation.Base.{ℕ, ◌+◌, ◌≤◌, ◌<◌, ◌≡◌, ◌≢◌, ◌⊎◌, some, get_elem?, set, minus_one}
use linux_simulation.Console.{Console, num_cols, offset, cell}
use linux_simulation.Console.Erase.{Erased}
use linux_simulation.Console.Putc.{CursorHere}

-- The column at which enter was pressed in a row, as the tracker keeps it; 0 is a row without.
abbrev pub IsMarked : Console → Type 0
IsMarked c =
    (y m : ℕ)
    → get_elem? c.enter_tracker y ≡ some m
    → (m ≡ 0) ⊎ ((offset ≤ m) × (m < offset + num_cols))

-- In text editing mode, at the start of a row that an enter began: the cursor is back where the enter was
-- pressed, what stood behind that place in the row is blank, and the enter is forgotten.
pub record Returned (c c' : Console) : Type 0 where
  pub editing : c.enter_flag ≡ minus_one
  pub at_edge : c.screen_x ≡ 0
  pub above : c'.screen_y + 1 ≡ c.screen_y
  pub mark : get_elem? c.enter_tracker c'.screen_y ≡ some (c'.screen_x + offset)
  pub blank : (x : ℕ) → c'.screen_x < x → x < num_cols → c'.video_mem (cell c'.screen_y x) ≡ 0x20
  pub others :
      (y x : ℕ)
      → x < num_cols
      → (y ≢ c'.screen_y) ⊎ (x ≤ c'.screen_x)
      → c'.video_mem (cell y x) ≡ c.video_mem (cell y x)
  pub forgotten : c'.enter_tracker ≡ set c.enter_tracker c'.screen_y 0

-- What `backspace` comes to, in any mode.
abbrev pub Backed : Console → Console → Type 0
Backed c c' =
    ((c.screen_x ≡ 0) × (c.screen_y ≡ 0) × (c' ≡ c))
    ⊎ (CursorHere c' × (Erased c c' ⊎ Returned c c'))
