-- ===== src/Terminal/Saving.antt =====
-- What `terminal_switch` of student-distrib/terminal.c keeps of the terminal that it leaves.
use linux_simulation.Base.{
  ℕ, zero, suc, ◌+◌, ◌-◌, ◌*◌, ◌^◌, ◌≤◌, ◌<◌, ◌≡◌, inl, inr, refl, sym, ap, ◌∙◌, Bool-cases, some,
  List, ◌==◌, store_lem, get_elem?, get_or, set, length, length-set, get_elem?-eq-get_or,
  get_elem?-set_self, get_elem?-set_ne, arith,
}
use linux_simulation.Console.{buf_size}
use linux_simulation.Console.Bounds.{IsConsole}
use linux_simulation.Console.Erase.{reset-Fresh}
use linux_simulation.Console.Strings.{same_elements}
use linux_simulation.Paging.UserPages.{map_video-IsVideoMapped}
use linux_simulation.Terminal.Switch.{
  TerInfo, Terminals, video_buf_addr, copy_page, with_console, copy_loop, save_terminal,
}

-- A whole buffer is copied.
copy_loop_lem :
    (left : ℕ) (dest src : List ℕ) (i : ℕ)
    → i + left ≤ length dest
    → i + left ≤ length src
    → (out : List ℕ) × (copy_loop left dest src i ≡ some out)
      × (length out ≡ length dest)
      × ((j : ℕ) → i ≤ j → j < i + left → get_elem? out j ≡ get_elem? src j)
      × ((j : ℕ) → j < i → get_elem? out j ≡ get_elem? dest j)
unfolding copy_loop
copy_loop_lem zero dest src i room inside =
    (dest, refl, refl, λ j lo hi. absurd (omega arith), λ j lt. refl)
copy_loop_lem (suc left) dest src i room inside =
    let c : ℕ = get_or src i 0 in
    let at_i = get_elem?-eq-get_or src i 0 (omega arith) in
    let fits = store_lem dest i c (omega arith) in
    let len = length-set dest i c in
    let (out, runs, size, copied, kept) =
      copy_loop_lem left (set dest i c) src (i + 1) (omega arith) (omega arith) in
    (
      out,
      rw at_i (rw fits runs),
      size ∙ len,
      λ j lo hi. elim (Bool-cases (j == i)) [
        | inl eq ↦
            let j_i : j ≡ i = ground arith in
            rw j_i (kept i (omega arith) ∙ get_elem?-set_self dest i c (omega arith) ∙ sym at_i)
        | inr ne ↦ copied j (ground arith) (omega arith)
      ],
      λ j lt. kept j (omega arith) ∙ get_elem?-set_ne dest i j c (omega arith),
    )

pub copy_loop-whole :
    (dest src : List ℕ)
    → length dest ≡ 128
    → length src ≡ 128
    → copy_loop buf_size dest src 0 ≡ some src
copy_loop-whole dest src d s =
    let (out, runs, size, copied, _) = copy_loop_lem 128 dest src 0 (omega arith) (omega arith) in
    let same : out ≡ src =
      same_elements out src (omega arith) (λ j lt. copied j (omega arith) (omega arith)) in
    runs ∙ ap some same

-- A terminal's structure in order.
pub record IsTerInfo (info : TerInfo) : Type 0 where
  pub line_size : length info.keyboard_buffer ≡ 128
  pub read_size : length info.read_buffer ≡ 128
  pub column : info.cursor_pos_x < 80
  pub row : info.cursor_pos_y < 25

pub record IsTerminals (m : Terminals) : Type 0 where
  pub console : IsConsole m.keyboard.console
  pub read_size : length m.keyboard.ter_read_buffer ≡ 128
  pub count : length m.terminal_array ≡ 3
  pub info : (i : ℕ) (t : TerInfo) → get_elem? m.terminal_array i ≡ some t → IsTerInfo t
  pub current : m.current_terminal_idx < 3
  pub dir_size : length m.kernel.paging.page_dir ≡ 1024
  pub tab_size : length m.kernel.paging.page_tab ≡ 1024
  pub table : ℕ
  pub table_small : table < 2 ^ 20
  pub aligned : m.kernel.paging.page_tab_addr ≡ table * 4096

pub video_buf_lem : (i : ℕ) → i < 3 → get_elem? video_buf_addr i ≡ some ((0xB9 + i) * 4096)
video_buf_lem zero h = refl
video_buf_lem (suc zero) h = refl
video_buf_lem (suc (suc zero)) h = refl
video_buf_lem (suc (suc (suc i))) h = absurd (omega arith)

-- The structure that is kept of the terminal in front.
abbrev pub kept_info : Terminals → TerInfo → TerInfo
kept_info m old = record old {
  keyboard_buffer = m.keyboard.console.keyboard_buffer;
  read_buffer = m.keyboard.ter_read_buffer;
  cursor_pos_x = m.keyboard.console.screen_x;
  cursor_pos_y = m.keyboard.console.screen_y;
}

-- The terminal in front is kept, with its screen behind that of the others.
pub record Saved (m : Terminals) (old : TerInfo) (m' : Terminals) : Type 0 where
  pub ordered : IsTerminals m'
  pub array : m'.terminal_array ≡ set m.terminal_array m.current_terminal_idx (kept_info m old)
  pub current : m'.current_terminal_idx ≡ m.current_terminal_idx
  pub position : m'.keyboard.console.kb_buffer_position ≡ 0
  pub pages :
      (a : ℕ)
      → 4000 ≤ a
      → m'.keyboard.console.video_mem a
        ≡ copy_page m.keyboard.console.video_mem ((1 + m.current_terminal_idx) * 4096) 0 a

info_after :
    (m : Terminals) (old : TerInfo)
    → IsTerminals m
    → (i : ℕ) (t : TerInfo)
    → get_elem? (set m.terminal_array m.current_terminal_idx (kept_info m old)) i ≡ some t
    → IsTerInfo t
info_after m old h i t e = elim (Bool-cases (i == m.current_terminal_idx)) [
  | inl eq ↦
      let is : i ≡ m.current_terminal_idx = ground arith in
      let array = set m.terminal_array m.current_terminal_idx (kept_info m old) in
      let count = h.count in
      let lt = h.current in
      let new =
        get_elem?-set_self m.terminal_array m.current_terminal_idx (kept_info m old)
          (omega arith) in
      let same : kept_info m old ≡ t = (let x = ap (get_elem? array) is in cc) in
      let c = h.console in
      rw (← same) (record {
        line_size = c.buffer_size;
        read_size = h.read_size;
        column = c.column;
        row = c.row;
      })
  | inr ne ↦ h.info i t (
      sym (
        get_elem?-set_ne m.terminal_array m.current_terminal_idx i (kept_info m old) (ground arith))
      ∙ e)
]

pub save_terminal-Saved :
    (m : Terminals) (old : TerInfo)
    → IsTerminals m
    → get_elem? m.terminal_array m.current_terminal_idx ≡ some old
    → (m' : Terminals) × (save_terminal m ≡ some m') × Saved m old m'
unfolding save_terminal
save_terminal-Saved m old h there =
    let lt = h.current in
    let count = h.count in
    let c = h.console in
    let console = m.keyboard.console in
    let info = h.info m.current_terminal_idx old there in
    let kb =
      copy_loop-whole old.keyboard_buffer console.keyboard_buffer info.line_size c.buffer_size in
    let rb =
      copy_loop-whole old.read_buffer m.keyboard.ter_read_buffer info.read_size h.read_size in
    let stored =
      store_lem m.terminal_array m.current_terminal_idx (kept_info m old) (omega arith) in
    let addr = video_buf_lem m.current_terminal_idx lt in
    let (q, maps, v) =
      map_video-IsVideoMapped m.kernel.paging (0xB9 + m.current_terminal_idx) h.table h.dir_size
        h.tab_size h.aligned h.table_small in
    let to : ℕ = (0xB9 + m.current_terminal_idx) * 4096 - 0xB8000 in
    let at : to ≡ (1 + m.current_terminal_idx) * 4096 = omega arith in
    let (c', resets, stays, _, fresh, _) =
      reset-Fresh (record console { video_mem = copy_page console.video_mem to 0 }) c.tracker_size
        c.buffer_size in
    (
      record (with_console m c') {
        terminal_array = set m.terminal_array m.current_terminal_idx (kept_info m old);
        kernel = record (m.kernel) { paging = q };
      },
      rw there (rw kb (rw rb (rw stored (rw addr (rw maps (rw resets refl)))))),
      record {
        ordered = record {
          console = stays.console;
          read_size = h.read_size;
          count = length-set m.terminal_array m.current_terminal_idx (kept_info m old) ∙ count;
          info = info_after m old h;
          current = lt;
          dir_size = ap length v.dir ∙ length-set m.kernel.paging.page_dir 34 _ ∙ h.dir_size;
          tab_size = ap length v.tab ∙ length-set m.kernel.paging.page_tab 0 _ ∙ h.tab_size;
          table = h.table;
          table_small = h.table_small;
          aligned = v.tab_addr ∙ h.aligned;
        };
        array = refl;
        current = refl;
        position = (fresh.at_start).2;
        pages = λ a far. stays.behind a far ∙ ap (λ t. copy_page console.video_mem t 0 a) at;
      },
    )
