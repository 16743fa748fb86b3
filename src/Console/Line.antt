-- ===== src/Console/Line.antt =====
-- Outside text editing mode, output leaves the line buffer alone.
use linux_simulation.Base.{
  ℕ, ◌+◌, ◌<◌, ◌≡◌, ◌≢◌, inl, inr, ◌∙◌, ap, sym, some, ◌==◌, arith, List, [], ◌∷◌, Bool-cases,
  length, set, minus_one, store_lem, length-set, ◌||◌, >>=-eq-some,
}
use linux_simulation.Console.{Console, num_rows, buf_size, offset, update_cursor}
use linux_simulation.Console.Bounds.{IsConsole}
use linux_simulation.Console.Scrolling.{scrolling}
use linux_simulation.Console.Write.{scrolling-Scrolled}
use linux_simulation.Console.Putc.{putc-Shows}
use linux_simulation.Console.Output.{putc_newline, putc_char, putc, puts, backspace}

-- The line buffer, its position and the mode are the same.
pub record SameLine (c c' : Console) : Type 0 where
  pub buffer : c'.keyboard_buffer ≡ c.keyboard_buffer
  pub position : c'.kb_buffer_position ≡ c.kb_buffer_position
  pub flag : c'.enter_flag ≡ c.enter_flag

scrolling-SameLine :
    (c c' : Console)
    → length c.enter_tracker ≡ num_rows
    → length c.keyboard_buffer ≡ buf_size
    → c.enter_flag ≢ minus_one
    → scrolling c ≡ some c'
    → SameLine c c'
scrolling-SameLine c c' tl bl ne e =
    let (s, runs, p) = scrolling-Scrolled c tl bl in
    let eq : s ≡ c' = cc in
    let (a, b, d) = p.normal ne in
    record {
      buffer = ap (λ (t : Console). t.keyboard_buffer) (sym eq) ∙ a;
      position = ap (λ (t : Console). t.kb_buffer_position) (sym eq) ∙ d;
      flag = ap (λ (t : Console). t.enter_flag) (sym eq) ∙ p.same_flag;
    }

module _ (c c' : Console) (v : IsConsole c) (normal : c.enter_flag ≢ minus_one) where
  putc_newline-SameLine : putc_newline c ≡ some c' → SameLine c c'
  unfolding putc_newline
  putc_newline-SameLine e =
      let tr : List ℕ = set c.enter_tracker c.screen_y (c.screen_x + offset) in
      let t : Console = record c { enter_tracker = tr } in
      let tl : length tr ≡ num_rows = length-set c.enter_tracker c.screen_y _ ∙ v.tracker_size in
      let room : c.screen_y < length c.enter_tracker =
        let r = v.row in let s = v.tracker_size in omega arith in
      let stored = store_lem c.enter_tracker c.screen_y (c.screen_x + offset) room in
      let (s, runs, p) = scrolling-Scrolled t tl v.buffer_size in
      let line : SameLine t s = scrolling-SameLine t s tl v.buffer_size normal runs in
      ground (arith, stored, runs, line)

  putc_char-SameLine : (ch : ℕ) → putc_char c ch ≡ some c' → SameLine c c'
  unfolding putc_char
  putc_char-SameLine ch e =
      let (s, runs, p) = scrolling-Scrolled c v.tracker_size v.buffer_size in
      let line : SameLine c s = scrolling-SameLine c s v.tracker_size v.buffer_size normal runs in
      ground (arith, runs, line)

pub putc-SameLine :
    (c c' : Console) (ch : ℕ)
    → IsConsole c
    → c.enter_flag ≢ minus_one
    → putc c ch ≡ some c'
    → SameLine c c'
unfolding putc update_cursor
putc-SameLine c c' ch v normal e = elim (Bool-cases (ch == 0x0A || ch == 0x0D)) [
  | inl newline ↦
      let e' = rw newline at e in
      let (m, runs, rest) = >>=-eq-some (putc_newline c) _ e' in
      let line : SameLine c m = putc_newline-SameLine c m v normal runs in ground (arith, line)
  | inr other ↦
      let e' = rw other at e in
      let (m, runs, rest) = >>=-eq-some (putc_char c ch) _ e' in
      let line : SameLine c m = putc_char-SameLine c m v normal ch runs in ground (arith, line)
]

pub puts-SameLine :
    (c c' : Console) (s : List ℕ)
    → IsConsole c
    → c.enter_flag ≢ minus_one
    → puts c s ≡ some c'
    → SameLine c c'
unfolding puts
puts-SameLine c c' [] v normal e = ground arith
puts-SameLine c c' (ch ∷ s) v normal e =
    let (m, runs, st, here, shown) = putc-Shows c ch v in
    let line : SameLine c m = putc-SameLine c m ch v normal runs in
    let e' : puts m s ≡ some c' = rw runs at e in
    let rest : SameLine m c' =
      puts-SameLine m c' s st.console (λ eq. normal (sym line.flag ∙ eq)) e' in
    record {
      buffer = rest.buffer ∙ line.buffer;
      position = rest.position ∙ line.position;
      flag = rest.flag ∙ line.flag;
    }

pub backspace-SameLine :
    (c c' : Console) → c.enter_flag ≢ minus_one → backspace c ≡ some c' → SameLine c c'
unfolding backspace update_cursor
backspace-SameLine c c' normal e = ground arith
