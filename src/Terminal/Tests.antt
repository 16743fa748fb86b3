-- ===== src/Terminal/Tests.antt =====
-- The theorems on student-distrib/terminal.c at a line of one letter.
use linux_simulation.Base.{
  ℕ, zero, suc, ◌<◌, ◌≡◌, ◌≢◌, refl, some, List, [], ◌∷◌, arith, replicate, get_elem?,
}
use linux_simulation.Console.{Console}
use linux_simulation.Console.Output.{puts}
use linux_simulation.Console.Putc.{Stays}
use linux_simulation.Keyboard.{Keyboard}
use linux_simulation.Keyboard.Edit.{HoldsLine}
use linux_simulation.Terminal.{terminal_read, terminal_write}
use linux_simulation.Terminal.Read.{HasLine, terminal_read_enter}
use linux_simulation.Terminal.Write.{terminal_write-puts}
use linux_simulation.Tasks.{returns}
use linux_simulation.Tasks.Examples.{kernel, stack_0}
use linux_simulation.Terminal.Saving.{IsTerInfo, IsTerminals}
use linux_simulation.Pic.{send_eoi}
use linux_simulation.Terminal.Keys.{keyboard_interrupt, keyboard_interrupt-Switched}
use linux_simulation.Terminal.Switch.{TerInfo, Terminals, terminal_switch}
use linux_simulation.Terminal.Switching.{Switched, terminal_switch-back}
use linux_simulation.Examples.{screen, screen-IsConsole, screen-HoldsLine, keys, line_a}

line_a-chars : (j c : ℕ) → get_elem? line_a j ≡ some c → c ≢ 0
line_a-chars zero c e = let same : 0x61 ≡ c = cc in omega arith
line_a-chars (suc j) c e = absurd cc

terminal_read_enter_example :
    (k : Keyboard) × (out : List ℕ) × (terminal_read (0x1C ∷ []) keys (replicate 8 0) 8
      ≡ some (k, out, 2))
    × HasLine line_a (replicate 8 0) out
    × HoldsLine k.console []
    × (k.cross_enter_flag ≡ 0)
    × (k.ter_read_indicator ≡ 0)
terminal_read_enter_example =
    terminal_read_enter keys line_a (replicate 8 0) 8 screen-HoldsLine refl refl (omega arith)
      line_a-chars (omega arith) (omega arith) (omega arith)

terminal_write-puts_example :
    (c : Console) × (terminal_write screen (98 ∷ 10 ∷ []) 2 ≡ some (c, 3))
    × (puts screen (98 ∷ 10 ∷ []) ≡ some c)
    × Stays screen c
terminal_write-puts_example =
    terminal_write-puts screen (98 ∷ 10 ∷ []) 2 screen-IsConsole (omega arith) (omega arith)

-- Two terminals that run, the first of them in front.
abbrev running : ℕ → TerInfo
running i = record {
  terminal_index = i;
  screen_buffer = replicate 4096 0;
  keyboard_buffer = replicate 128 0;
  read_buffer = replicate 128 0;
  cursor_pos_x = 3;
  cursor_pos_y = 2;
  terminal_state = 1;
}

running-IsTerInfo : (i : ℕ) → IsTerInfo (running i)
running-IsTerInfo i = record {
  line_size = refl;
  read_size = refl;
  column = omega arith;
  row = omega arith;
}

abbrev both : Terminals
both = record {
  keyboard = keys;
  kernel = kernel;
  pic = record { master_mask = 0; slave_mask = 0; writes = [] };
  terminal_array = running 0 ∷ running 1 ∷ running 2 ∷ [];
  current_terminal_idx = 0;
}

both_info : (i : ℕ) (t : TerInfo) → get_elem? both.terminal_array i ≡ some t → IsTerInfo t
both_info zero t e = let same : running 0 ≡ t = cc in rw (← same) (running-IsTerInfo 0)
both_info (suc zero) t e = let same : running 1 ≡ t = cc in rw (← same) (running-IsTerInfo 1)
both_info (suc (suc zero)) t e = let same : running 2 ≡ t = cc in rw (← same) (running-IsTerInfo 2)
both_info (suc (suc (suc i))) t e = absurd cc

both-IsTerminals : IsTerminals both
both-IsTerminals = record {
  console = screen-IsConsole;
  read_size = refl;
  count = refl;
  info = both_info;
  current = omega arith;
  dir_size = refl;
  tab_size = refl;
  table = 1;
  table_small = omega arith;
  aligned = refl;
}

-- The same, with alt held down.
abbrev held : Terminals
held = record both { keyboard = record keys { alt_flag = 1 } }

held-IsTerminals : IsTerminals held
held-IsTerminals = record {
  console = screen-IsConsole;
  read_size = refl;
  count = refl;
  info = both_info;
  current = omega arith;
  dir_size = refl;
  tab_size = refl;
  table = 1;
  table_small = omega arith;
  aligned = refl;
}

keyboard_interrupt-Switched_example :
    (m' : Terminals) × Switched held (running 0) 1 (running 1) m'
    × (keyboard_interrupt held 0x3C stack_0 stack_0
        ≡ some (record m' { pic = send_eoi m'.pic 1 }, returns 0))
keyboard_interrupt-Switched_example =
    keyboard_interrupt-Switched held (running 0) 1 (running 1) stack_0 stack_0 held-IsTerminals refl
      (omega arith) refl (omega arith) (omega arith) refl (omega arith)

terminal_switch-back_example :
    (away : Terminals) × (back : Terminals) × (terminal_switch both 1 stack_0 stack_0
      ≡ some (away, returns 0))
    × (terminal_switch away 0 stack_0 stack_0 ≡ some (back, returns 0))
    × (back.current_terminal_idx ≡ 0)
    × (back.keyboard.console.keyboard_buffer ≡ screen.keyboard_buffer)
    × (back.keyboard.console.kb_buffer_position ≡ 0)
    × (back.keyboard.ter_read_buffer ≡ keys.ter_read_buffer)
    × (back.keyboard.console.screen_x ≡ 1)
    × (back.keyboard.console.screen_y ≡ 24)
    × ((a : ℕ) → a < 4096 → back.keyboard.console.video_mem a ≡ screen.video_mem a)
terminal_switch-back_example =
    terminal_switch-back both (running 0) 1 (running 1) stack_0 stack_0 both-IsTerminals refl
      (omega arith) (omega arith) refl (omega arith) (omega arith)
