-- ===== src/Terminal/Switching.antt =====
-- Switching between terminals of student-distrib/terminal.c that have been booted.
use linux_simulation.Base.{
  ℕ, ◌+◌, ◌-◌, ◌*◌, ◌<◌, ◌≡◌, ◌≢◌, refl, sym, ap, ◌∙◌, true, false, ◌&&◌, some, ◌==◌, ltb, leb,
  lt_signed, get_elem?, set, get_elem?-set_self, get_elem?-set_ne, arith,
}
use linux_simulation.Console.{Video}
use linux_simulation.Tasks.{returns}
use linux_simulation.Terminal.Switch.{
  TerInfo, Terminals, copy_page, enter_terminal, terminal_switch,
}
use linux_simulation.Terminal.Saving.{IsTerminals, kept_info, Saved, save_terminal-Saved}
use linux_simulation.Terminal.Restoring.{shown_x, shown_y, Restored, restore_terminal-Restored}

-- Another terminal in front: the bytes of its line buffer, its text that was read, its screen and its
-- cursor are those that its structure and its page have kept, and those of the terminal that was left are
-- kept likewise. The position in the line buffer is not kept: it is 0.
pub record Switched (m : Terminals) (old : TerInfo) (i : ℕ) (t : TerInfo) (m' : Terminals)
    : Type 0 where
  pub ordered : IsTerminals m'
  pub current : m'.current_terminal_idx ≡ i
  pub array : m'.terminal_array ≡ set m.terminal_array m.current_terminal_idx (kept_info m old)
  pub line : m'.keyboard.console.keyboard_buffer ≡ t.keyboard_buffer
  pub read : m'.keyboard.ter_read_buffer ≡ t.read_buffer
  pub position : m'.keyboard.console.kb_buffer_position ≡ 0
  pub column : m'.keyboard.console.screen_x ≡ shown_x t.cursor_pos_x
  pub row : m'.keyboard.console.screen_y ≡ shown_y t.cursor_pos_y
  pub shown :
      (a : ℕ)
      → a < 4096
      → m'.keyboard.console.video_mem a ≡ m.keyboard.console.video_mem ((1 + i) * 4096 + a)
  pub kept :
      (a : ℕ)
      → a < 4096
      → m'.keyboard.console.video_mem ((1 + m.current_terminal_idx) * 4096 + a)
        ≡ m.keyboard.console.video_mem a

-- A copied page, and what lies outside it.
copy_page-inside :
    (v : Video) (to from a : ℕ) → a < 4096 → copy_page v to from (to + a) ≡ v (from + a)
copy_page-inside v to from a lt =
    let inside : (leb to (to + a) && ltb (to + a) (to + 4096)) ≡ true = ground arith in
    let at : from + (to + a - to) ≡ from + a = omega arith in rw inside (ap v at)

copy_page-outside :
    (v : Video) (to from a : ℕ)
    → (leb to a && ltb a (to + 4096)) ≡ false
    → copy_page v to from a ≡ v a
copy_page-outside v to from a outside = rw outside refl

Switched-both :
    (m : Terminals) (old : TerInfo) (i : ℕ) (t : TerInfo) (saved m' : Terminals)
    → i ≢ m.current_terminal_idx
    → Saved m old saved
    → Restored saved i t m'
    → Switched m old i t m'
Switched-both m old i t saved m' ne s r =
    let v : Video = m.keyboard.console.video_mem in
    let cur : ℕ = m.current_terminal_idx in
    record {
      ordered = r.ordered;
      current = r.current;
      array = r.array ∙ s.array;
      line = r.line;
      read = r.read;
      position = r.position ∙ s.position;
      column = r.column;
      row = r.row;
      shown = λ a lt.
          let e : a ≡ 0 + a = omega arith in
          r.pages a
          ∙ ap (copy_page saved.keyboard.console.video_mem 0 ((1 + i) * 4096)) e
          ∙ copy_page-inside saved.keyboard.console.video_mem 0 ((1 + i) * 4096) a lt
          ∙ s.pages ((1 + i) * 4096 + a) (omega arith)
          ∙ copy_page-outside v ((1 + cur) * 4096) 0 ((1 + i) * 4096 + a) (ground arith);
      kept = λ a lt.
          r.pages ((1 + cur) * 4096 + a)
          ∙ copy_page-outside saved.keyboard.console.video_mem 0 ((1 + i) * 4096)
              ((1 + cur) * 4096 + a) (ground arith)
          ∙ s.pages ((1 + cur) * 4096 + a) (omega arith)
          ∙ copy_page-inside v ((1 + cur) * 4096) 0 a lt
          ∙ ap v (let e : 0 + a ≡ a = omega arith in e);
    }

-- `terminal_switch` to another terminal, with a number below 3, that has been booted: it returns 0, and
-- that terminal is in front, while the one that was left is kept.
pub terminal_switch-Switched :
    (m : Terminals) (old : TerInfo) (i : ℕ) (t : TerInfo) (esp ebp : ℕ)
    → IsTerminals m
    → get_elem? m.terminal_array m.current_terminal_idx ≡ some old
    → i < 3
    → i ≢ m.current_terminal_idx
    → get_elem? m.terminal_array i ≡ some t
    → t.terminal_state ≢ 0
    → (m' : Terminals) × (terminal_switch m i esp ebp ≡ some (m', returns 0))
      × Switched m old i t m'
unfolding terminal_switch enter_terminal
terminal_switch-Switched m old i t esp ebp h front lt ne there active =
    let (saved, saves, s) = save_terminal-Saved m old h front in
    let still : get_elem? saved.terminal_array i ≡ some t =
      ap (λ a. get_elem? a i) s.array
      ∙ get_elem?-set_ne m.terminal_array m.current_terminal_idx i (kept_info m old)
          (λ e. ne (sym e))
      ∙ there in
    let (m', restores, r) = restore_terminal-Restored saved i t s.ordered lt still in
    let in_range : lt_signed 3 i ≡ false = ground arith in
    let other : (i == m.current_terminal_idx) ≡ false = ground arith in
    let booted : (t.terminal_state == 0) ≡ false = ground arith in
    (
      m',
      rw in_range (rw other (rw saves (rw still (rw booted (rw restores refl))))),
      Switched-both m old i t saved m' ne s r,
    )

-- `terminal_switch` to another terminal and back, both booted: the bytes of the line buffer, the text that
-- was read, and the 4096 bytes of the screen are those of before. The position in the line buffer is
-- lost: it is 0, wherever it was. The cursor is that of before, but that one in the first column comes
-- back in the last column, and one in the first row in the last row.
pub terminal_switch-back :
    (m : Terminals) (old : TerInfo) (i : ℕ) (t : TerInfo) (esp ebp : ℕ)
    → IsTerminals m
    → get_elem? m.terminal_array m.current_terminal_idx ≡ some old
    → i < 3
    → i ≢ m.current_terminal_idx
    → get_elem? m.terminal_array i ≡ some t
    → t.terminal_state ≢ 0
    → old.terminal_state ≢ 0
    → (away : Terminals) × (back : Terminals) × (terminal_switch m i esp ebp
        ≡ some (away, returns 0))
      × (terminal_switch away m.current_terminal_idx esp ebp ≡ some (back, returns 0))
      × (back.current_terminal_idx ≡ m.current_terminal_idx)
      × (back.keyboard.console.keyboard_buffer ≡ m.keyboard.console.keyboard_buffer)
      × (back.keyboard.console.kb_buffer_position ≡ 0)
      × (back.keyboard.ter_read_buffer ≡ m.keyboard.ter_read_buffer)
      × (back.keyboard.console.screen_x ≡ shown_x m.keyboard.console.screen_x)
      × (back.keyboard.console.screen_y ≡ shown_y m.keyboard.console.screen_y)
      × ((a : ℕ) → a < 4096 → back.keyboard.console.video_mem a ≡ m.keyboard.console.video_mem a)
terminal_switch-back m old i t esp ebp h front lt ne there active active' =
    let cur : ℕ = m.current_terminal_idx in
    let bound = h.current in
    let count = h.count in
    let (away, leaves, s) = terminal_switch-Switched m old i t esp ebp h front lt ne there active in
    let array = s.array in
    let front' : get_elem? away.terminal_array away.current_terminal_idx ≡ some t =
      ap (get_elem? away.terminal_array) s.current
      ∙ ap (λ a. get_elem? a i) array
      ∙ get_elem?-set_ne m.terminal_array cur i (kept_info m old) (λ e. ne (sym e))
      ∙ there in
    let there' : get_elem? away.terminal_array cur ≡ some (kept_info m old) =
      ap (λ a. get_elem? a cur) array
      ∙ get_elem?-set_self m.terminal_array cur (kept_info m old) (omega arith) in
    let ne' : cur ≢ away.current_terminal_idx = λ e. ne (sym (e ∙ s.current)) in
    let (back, returns_to, r) =
      terminal_switch-Switched away t cur (kept_info m old) esp ebp s.ordered front' bound ne'
        there' active' in
    (
      away,
      back,
      leaves,
      returns_to,
      r.current,
      r.line,
      r.position,
      r.read,
      r.column,
      r.row,
      λ a inside. r.shown a inside ∙ s.kept a inside,
    )
