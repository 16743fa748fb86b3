-- ===== src/Terminal/Switch.antt =====
-- The three terminals of student-distrib/terminal.c: terminal_init, terminal_boot, terminal_switch.
--
-- The video buffers are the pages behind that of the screen, so that all four are one `Video`. A
-- terminal is booted by `execute` of the shell, which does not return when it succeeds; the stack
-- pointer and the frame pointer that it saves are parameters.
use linux_simulation.Base.{
  ℕ, zero, suc, ◌+◌, ◌-◌, ◌&&◌, Option, some, List, [], ◌∷◌, ◌++◌, codes, ◌>>=◌, ◌==◌, ltb, leb,
  if◌then◌else◌, minus_one, lt_signed, store, get_elem?, replicate,
}
use linux_simulation.CString.{bytes_of}
use linux_simulation.Console.{Console, Video, buf_size, update_cursor}
use linux_simulation.Console.Output.{reset, x_pos, y_pos, update_x, update_y, zero_fill}
use linux_simulation.Console.Printf.{word, printf}
use linux_simulation.Keyboard.{Keyboard}
use linux_simulation.Paging.{map_video, map_buffer, video}
use linux_simulation.Pic.{Pic, send_eoi}
use linux_simulation.Tasks.{Kernel, Outcome, returns, enters, resumes}
use linux_simulation.Tasks.Execute.{execute}

-- `ter_info`
pub record TerInfo : Type 0 where
  pub terminal_index : ℕ
  pub screen_buffer : List ℕ
  pub keyboard_buffer : List ℕ
  pub read_buffer : List ℕ
  pub cursor_pos_x : ℕ
  pub cursor_pos_y : ℕ
  pub terminal_state : ℕ

-- The terminals, with the components that they work on.
pub record Terminals : Type 0 where
  pub keyboard : Keyboard
  pub kernel : Kernel
  pub pic : Pic
  pub terminal_array : List TerInfo
  pub current_terminal_idx : ℕ

-- VIDEO_BUF_0 to VIDEO_BUF_2
abbrev pub video_buf_addr : List ℕ
video_buf_addr = 0xB9000 ∷ 0xBA000 ∷ 0xBB000 ∷ []

abbrev pub video_buf_size : ℕ
video_buf_size = 4096

-- `memcpy` of a video buffer, between offsets behind VIDEO.
abbrev pub copy_page : Video → ℕ → ℕ → Video
copy_page v to from a = if leb to a && ltb a (to + video_buf_size) then v (from + (a - to)) else v a

abbrev pub with_console : Terminals → Console → Terminals
with_console m c = record m { keyboard = record (m.keyboard) { console = c } }

-- `for(i=0; i<n; i++) dest[i] = src[i];` from `i` on
unfoldable pub copy_loop : ℕ → List ℕ → List ℕ → ℕ → Option (List ℕ)
copy_loop zero dest src i = some dest
copy_loop (suc left) dest src i = do
  c ← get_elem? src i
  dest' ← store dest i c
  copy_loop left dest' src (i + 1)

-- `execute(shell)`, and what follows a result of -1.
unfoldable pub after_execute : Terminals → Kernel × Outcome → Option (Terminals × Outcome)
after_execute m (k, enters entry) = some (record m { kernel = k }, enters entry)
after_execute m (k, resumes esp ebp status) = some (record m { kernel = k }, resumes esp ebp status)
after_execute m (k, returns r) =
    let failed = do
      printed ← printf m.keyboard.console (codes "return from first shell : -1. " ++ 0x0A ∷ []) []
      some (record (with_console m printed.0) { kernel = k; pic = send_eoi m.pic 0 }, returns 0)
    in if r == minus_one then failed else some (record m { kernel = k }, returns 0)

-- `terminal_boot`; where it returns, its outcome is `returns`.
unfoldable pub terminal_boot : Terminals → ℕ → ℕ → ℕ → Option (Terminals × Outcome)
terminal_boot m index esp ebp = do
  fresh ← reset m.keyboard.console
  printed ← printf fresh (codes "terminal %d booted." ++ 0x0A ∷ []) (word (index + 1) ∷ [])
  info ← get_elem? m.terminal_array index
  array ← store m.terminal_array index (record info { terminal_state = 1 })
  video_addr ← get_elem? video_buf_addr index
  paging ← map_buffer m.kernel.paging video_addr
  let kernel = record (m.kernel) { paging = paging }
  let booted = record (with_console m printed.0) {
    terminal_array = array;
    current_terminal_idx = index;
    pic = send_eoi m.pic 1;
    kernel = kernel;
  }
  executed ← execute kernel (some (bytes_of (codes "shell" ++ replicate 95 0))) esp ebp
  after_execute booted executed

-- What `terminal_switch` keeps of the terminal that it leaves.
unfoldable pub save_terminal : Terminals → Option Terminals
save_terminal m = do
  let c = m.keyboard.console
  info ← get_elem? m.terminal_array m.current_terminal_idx
  kb ← copy_loop buf_size info.keyboard_buffer c.keyboard_buffer 0
  rb ← copy_loop buf_size info.read_buffer m.keyboard.ter_read_buffer 0
  let saved = record info {
    keyboard_buffer = kb;
    read_buffer = rb;
    cursor_pos_x = x_pos c;
    cursor_pos_y = y_pos c;
  }
  array ← store m.terminal_array m.current_terminal_idx saved
  addr ← get_elem? video_buf_addr m.current_terminal_idx
  paging ← map_video m.kernel.paging addr
  cleared ← reset (record c { video_mem = copy_page c.video_mem (addr - video) 0 })
  some (record (with_console m cleared) {
    terminal_array = array;
    kernel = record (m.kernel) { paging = paging };
  })

-- What it brings back of the terminal that it enters.
unfoldable pub restore_terminal : Terminals → ℕ → Option Terminals
restore_terminal m terminal_idx = do
  let c = m.keyboard.console
  info ← get_elem? m.terminal_array terminal_idx
  kb ← copy_loop buf_size c.keyboard_buffer info.keyboard_buffer 0
  rb ← copy_loop buf_size m.keyboard.ter_read_buffer info.read_buffer 0
  addr ← get_elem? video_buf_addr terminal_idx
  let shown = record c { video_mem = copy_page c.video_mem 0 (addr - video); keyboard_buffer = kb }
  let placed = update_y (update_x shown info.cursor_pos_x) info.cursor_pos_y
  some (record m {
    keyboard = record (m.keyboard) {
      console = update_cursor placed info.cursor_pos_y info.cursor_pos_x;
      ter_read_buffer = rb;
    };
    current_terminal_idx = terminal_idx;
  })

-- `terminal_switch` goes on only where booting has returned.
unfoldable pub enter_terminal : ℕ → Terminals × Outcome → Option (Terminals × Outcome)
enter_terminal terminal_idx (m, enters entry) = some (m, enters entry)
enter_terminal terminal_idx (m, resumes esp ebp status) = some (m, resumes esp ebp status)
enter_terminal terminal_idx (m, returns r) =
    restore_terminal m terminal_idx >>= λ m'. some (m', returns 0)

unfoldable pub terminal_switch : Terminals → ℕ → ℕ → ℕ → Option (Terminals × Outcome)
terminal_switch m terminal_idx esp ebp =
    let switching = do
      saved ← save_terminal m
      info ← get_elem? saved.terminal_array terminal_idx
      let boot = terminal_boot saved terminal_idx esp ebp
      booted ← (if info.terminal_state == 0 then boot else some (saved, returns 0))
      enter_terminal terminal_idx booted
    in if lt_signed 3 terminal_idx
      then some (m, returns minus_one)
      else if terminal_idx == m.current_terminal_idx
      then some (m, returns 0)
      else switching

-- The loop of `terminal_init`: the first two structures are cleared, from `i` on.
unfoldable pub clear_terminals : ℕ → List TerInfo → ℕ → Option (List TerInfo)
clear_terminals zero array i = some array
clear_terminals (suc left) array i = do
  info ← get_elem? array i
  screen ← zero_fill 4096 info.screen_buffer 0
  kb ← zero_fill buf_size info.keyboard_buffer 0
  rb ← zero_fill buf_size info.read_buffer 0
  array' ← store array i (record {
    terminal_index = i;
    screen_buffer = screen;
    keyboard_buffer = kb;
    read_buffer = rb;
    cursor_pos_x = 0;
    cursor_pos_y = 0;
    terminal_state = 0;
  })
  clear_terminals left array' (i + 1)

unfoldable pub terminal_init : Terminals → ℕ → ℕ → Option (Terminals × Outcome)
terminal_init m esp ebp = do
  array ← clear_terminals 2 m.terminal_array 0
  terminal_boot (record m { terminal_array = array; current_terminal_idx = 0 }) 0 esp ebp
