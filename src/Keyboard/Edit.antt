-- ===== src/Keyboard/Edit.antt =====
-- The line buffer as an editor of one line of at most 128 characters.
use linux_simulation.Base.{
  get_elem?-append_left, get_elem?-append_last, ℕ, ◌+◌, ◌≤◌, ◌<◌, ◌≡◌, inl, inr, refl, ◌∙◌, sym,
  some, ◌==◌, arith, List, [], ◌∷◌, ◌++◌, true, false, Bool-cases, length, get_elem?, set, store,
  store_lem, length-set, if◌then◌else◌, get_elem?-set_self, get_elem?-set_ne, length-append,
}
use linux_simulation.Console.{Console, buf_size}
use linux_simulation.Console.Bounds.{IsConsole}
use linux_simulation.Console.Putc.{putc-Shows}
use linux_simulation.Console.Line.{SameLine, putc-SameLine}
use linux_simulation.Keyboard.{Keyboard, position, with_position, add_char}

-- The console is in order, outside text editing mode, and its line buffer holds the line: the
-- position is the line's length, and there are zeros behind.
pub record HoldsLine (c : Console) (line : List ℕ) : Type 0 where
  pub console : IsConsole c
  pub normal : c.enter_flag ≡ 0
  pub short : length line ≤ buf_size
  pub at_end : c.kb_buffer_position ≡ length line
  pub content : (j : ℕ) → j < length line → get_elem? c.keyboard_buffer j ≡ get_elem? line j
  pub zeros : (j : ℕ) → length line ≤ j → j < buf_size → get_elem? c.keyboard_buffer j ≡ some 0

-- Only the console's screen may differ, and the line buffer is the same.
pub HoldsLine-SameLine :
    {c c' : Console} {line : List ℕ}
    → HoldsLine c line
    → IsConsole c'
    → SameLine c c'
    → HoldsLine c' line
HoldsLine-SameLine h v s = record {
  console = v;
  normal = s.flag ∙ h.normal;
  short = h.short;
  at_end = s.position ∙ h.at_end;
  content = λ j p. rw s.buffer (h.content j p);
  zeros = λ j p q. rw s.buffer (h.zeros j p q);
}

-- Typing a character puts it behind the line, or does nothing when the line is full.
pub add_char-HoldsLine :
    (k : Keyboard) (line : List ℕ) (ch : ℕ)
    → HoldsLine k.console line
    → (k' : Keyboard) × (add_char k ch ≡ some k')
      × HoldsLine k'.console (if length line == buf_size then line else line ++ ch ∷ [])
      × (k' ≡ record k { console = k'.console })
unfolding add_char
add_char-HoldsLine k line ch h =
    let p = h.at_end in
    let short = h.short in
    elim (Bool-cases (length line == buf_size)) [
      | inl full ↦
          let pos : (position k.console == buf_size) ≡ true = ground arith in
          (k, rw pos, rw full h, refl)
      | inr room ↦
          let pos : (position k.console == buf_size) ≡ false = ground arith in
          let (c, runs, st, here, shown) = putc-Shows k.console ch h.console in
          let line_kept : SameLine k.console c =
            putc-SameLine k.console c ch h.console (let n = h.normal in omega arith) runs in
          let held : HoldsLine c line = HoldsLine-SameLine h st.console line_kept in
          let pc : position c ≡ length line = let q = held.at_end in omega arith in
          let size : length c.keyboard_buffer ≡ 128 = st.console.buffer_size in
          let kb : List ℕ = set c.keyboard_buffer (length line) ch in
          let stored : store c.keyboard_buffer (length line) ch ≡ some kb =
            store_lem c.keyboard_buffer (length line) ch (ground arith) in
          let len : length (line ++ ch ∷ []) ≡ length line + 1 = length-append line (ch ∷ []) in
          (
            record k {
              console = record (with_position c (position c + 1)) { keyboard_buffer = kb };
            },
            rw pos (rw runs (rw pc (rw stored))),
            rw room (record {
              console = record {
                column = st.console.column;
                row = st.console.row;
                tracker_size = st.console.tracker_size;
                buffer_size = length-set c.keyboard_buffer (length line) ch ∙ size;
              };
              normal = held.normal;
              short = ground arith;
              at_end = let q = held.at_end in omega arith;
              content = λ j lt. elim (Bool-cases (j == length line)) [
                | inl eq ↦
                    let e : j ≡ length line = ground arith in
                    rw e (
                      get_elem?-set_self c.keyboard_buffer (length line) ch (ground arith)
                      ∙ sym (get_elem?-append_last line ch))
                | inr ne ↦
                    get_elem?-set_ne c.keyboard_buffer (length line) j ch (ground arith)
                    ∙ held.content j (ground arith)
                    ∙ sym (get_elem?-append_left line (ch ∷ []) j (ground arith))
              ];
              zeros = λ j lo hi.
                  get_elem?-set_ne c.keyboard_buffer (length line) j ch (omega arith)
                  ∙ held.zeros j (omega arith) hi;
            }),
            refl,
          )
    ]
