-- ===== src/Keyboard/Tests.antt =====
-- The theorems on student-distrib/keyboard.c at a line of one letter, and at one of 127.
use linux_simulation.Base.{
  ℕ, ◌≡◌, inr, refl, some, none, List, arith, replicate, set, get_elem?-replicate, get_elem?-set_ne,
  ◌∙◌, sym,
}
use linux_simulation.Keyboard.{Keyboard, enter_line}
use linux_simulation.Keyboard.Scan.{Got, keyboard_irq_handler}
use linux_simulation.Keyboard.Edit.{HoldsLine}
use linux_simulation.Keyboard.Reader.{enter_line_overflow}
use linux_simulation.Keyboard.Handler.{IsKeyboard}
use linux_simulation.Keyboard.Layout.{edited}
use linux_simulation.Keyboard.Typing.{keyboard_irq_handler-edited}
use linux_simulation.Examples.{screen, keys, keys-IsKeyboard, line_a}

abbrev long_line : List ℕ
long_line = replicate 127 97

abbrev full_keys : Keyboard
full_keys = record keys {
  console = record screen {
    keyboard_buffer = set (replicate 128 97) 127 0;
    kb_buffer_position = 127;
  };
}

full_keys-HoldsLine : HoldsLine full_keys.console long_line
full_keys-HoldsLine = record {
  console = record {
    column = omega arith;
    row = omega arith;
    tracker_size = refl;
    buffer_size = refl;
  };
  normal = refl;
  short = omega arith;
  at_end = refl;
  content = λ j lt.
      get_elem?-set_ne (replicate 128 97) 127 j 0 (omega arith)
      ∙ get_elem?-replicate 128 97 j (omega arith)
      ∙ sym (get_elem?-replicate 127 97 j lt);
  zeros = λ j lo hi. let e : j ≡ 127 = omega arith in rw e refl;
}

enter_line_overflow_example : enter_line full_keys ≡ none
enter_line_overflow_example =
    enter_line_overflow full_keys long_line full_keys-HoldsLine refl refl refl

keyboard_irq_handler-edited_example :
    (g : Got) × (keyboard_irq_handler keys 0x1E ≡ some g)
    × IsKeyboard g.keyboard (edited keys 0x1E line_a)
keyboard_irq_handler-edited_example =
    keyboard_irq_handler-edited keys 0x1E line_a keys-IsKeyboard (omega arith) (inr (omega arith))
