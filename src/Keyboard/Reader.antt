-- ===== src/Keyboard/Reader.antt =====
-- `keyboard_buffer_edit` at an enter and at a clear, for a program that waits for a line.
use linux_simulation.Base.{
  ℕ, ◌-◌, ◌≡◌, ◌≢◌, ◌⊎◌, inl, inr, refl, ◌∙◌, ap, some, none, ◌==◌, arith, List, [], Bool-cases,
  length, set, store_lem, store-none, length-set,
}
use linux_simulation.Console.{Console, buf_size}
use linux_simulation.Console.Bounds.{IsConsole}
use linux_simulation.Console.Putc.{putc-Shows}
use linux_simulation.Console.Line.{SameLine, putc-SameLine}
use linux_simulation.Console.Erase.{reset-Fresh, zero_fill_lem}
use linux_simulation.Console.Output.{putc, reset, keyboard_buffer_reset}
use linux_simulation.Keyboard.{Keyboard, position, hand_over, enter_line}
use linux_simulation.Keyboard.Edit.{HoldsLine, HoldsLine-SameLine}
use linux_simulation.Keyboard.Enter.{Handed, hand_over-Handed, copy_line_lem}

keyboard_buffer_reset-HoldsLine :
    (c : Console)
    → IsConsole c
    → c.enter_flag ≡ 0
    → (c' : Console) × (keyboard_buffer_reset c ≡ some c') × HoldsLine c' []
unfolding keyboard_buffer_reset
keyboard_buffer_reset-HoldsLine c v normal =
    let bs = v.buffer_size in
    let (kb, runs, len, zeros, kept) = zero_fill_lem buf_size c.keyboard_buffer 0 (omega arith) in
    (
      record c { keyboard_buffer = kb; kb_buffer_position = 0 },
      rw runs,
      record {
        console = record {
          column = v.column;
          row = v.row;
          tracker_size = v.tracker_size;
          buffer_size = len ∙ bs;
        };
        normal = normal;
        short = omega arith;
        at_end = refl;
        content = λ j lt. absurd (omega arith);
        zeros = λ j lo hi. zeros j (omega arith) (omega arith);
      },
    )

-- After the hand-over, which keeps the console: the buffer is emptied and a new row started.
new_line :
    (c : Console)
    → IsConsole c
    → c.enter_flag ≡ 0
    → (c' : Console) × (c'' : Console) × (keyboard_buffer_reset c ≡ some c')
      × (putc c' 0x0A ≡ some c'')
      × HoldsLine c'' []
new_line c v normal =
    let (c', runs, h) = keyboard_buffer_reset-HoldsLine c v normal in
    let (c'', puts_it, st, here, shown) = putc-Shows c' 0x0A h.console in
    let kept : SameLine c' c'' =
      putc-SameLine c' c'' 0x0A h.console (let n = h.normal in omega arith) puts_it in
    (c', c'', runs, puts_it, HoldsLine-SameLine h st.console kept)

-- An enter while a program reads hands it the line with a newline, or the first 128 characters of a
-- full line, raises the flag that the program waits for, and leaves an empty line; without a reader
-- it only leaves an empty line. A line of 127 characters is left out: see the next theorem.
pub enter_line-Handed :
    (k : Keyboard) (line : List ℕ)
    → HoldsLine k.console line
    → length k.ter_read_buffer ≡ buf_size
    → length line ≢ buf_size - 1
    → (k' : Keyboard) × (enter_line k ≡ some k')
      × HoldsLine k'.console []
      × ((k.ter_read_indicator ≡ 1) × Handed line k'
          ⊎ (k.ter_read_indicator ≢ 1) × (k' ≡ record k { console = k'.console }))
unfolding enter_line
enter_line-Handed k line h room ne = elim (Bool-cases (k.ter_read_indicator == 1)) [
  | inl reading ↦
      let (m, runs, handed, same) = hand_over-Handed k line h room ne in
      let (c', c'', clears, ends, held) =
        new_line m.console (rw same h.console)
          (ap (λ (c : Console). c.enter_flag) same ∙ h.normal) in
      (
        record m { console = c'' },
        rw reading (rw runs (rw clears (rw ends))),
        held,
        inl (
          ground arith,
          record {
            flag = handed.flag;
            size = handed.size;
            text = handed.text;
            newline = handed.newline;
            end = handed.end;
            room = handed.room;
          },
        ),
      )
  | inr idle ↦
      let (c', c'', clears, ends, held) = new_line k.console h.console h.normal in
      (record k { console = c'' }, rw idle (rw clears (rw ends)), held, inr (ground arith, refl))
]

-- An enter behind exactly 127 characters, while a program reads, writes the zero that ends the line
-- one byte behind `ter_read_buffer`.
pub enter_line_overflow :
    (k : Keyboard) (line : List ℕ)
    → HoldsLine k.console line
    → length k.ter_read_buffer ≡ buf_size
    → length line ≡ buf_size - 1
    → k.ter_read_indicator ≡ 1
    → enter_line k ≡ none
unfolding enter_line hand_over
enter_line_overflow k line h room e reading =
    let p = h.at_end in
    let pos : position k.console ≡ 127 = omega arith in
    let bs = h.console.buffer_size in
    let (r, runs, len, copied, kept) =
      copy_line_lem buf_size k.console.keyboard_buffer k.ter_read_buffer 0 (omega arith)
        (omega arith) in
    let lr : length r ≡ 128 = len ∙ room in
    let a : List ℕ = set r 127 0x0A in
    let la : length a ≡ 128 = length-set r 127 0x0A ∙ lr in
    rw reading (
      rw runs
        (rw pos (rw (store_lem r 127 0x0A (omega arith)) (rw (store-none a 128 0 (omega arith))))))

-- Clearing the console empties the line.
pub reset-HoldsLine :
    (c : Console)
    → IsConsole c
    → c.enter_flag ≡ 0
    → (c' : Console) × (reset c ≡ some c') × HoldsLine c' []
reset-HoldsLine c v normal =
    let (c', runs, st, here, fresh, mode) = reset-Fresh c v.tracker_size v.buffer_size in
    (
      c',
      runs,
      record {
        console = st.console;
        normal = mode ∙ normal;
        short = omega arith;
        at_end = fresh.at_start.2;
        content = λ j lt. absurd (omega arith);
        zeros = λ j lo hi. fresh.empty j hi;
      },
    )
