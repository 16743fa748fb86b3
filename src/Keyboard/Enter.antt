-- ===== src/Keyboard/Enter.antt =====
-- Deleting from the line, clearing it, and handing it over at an enter.
use linux_simulation.Base.{
  ℕ, zero, suc, min, ◌+◌, ◌-◌, ◌≤◌, ◌<◌, ◌≡◌, ◌≢◌, inl, inr, refl, ◌∙◌, sym, some, ◌==◌, arith,
  List, true, false, Bool-cases, length, get_elem?, get_or, set, ltb, store, store_lem, length-set,
  get_elem?-eq-get_or, get_elem?-set_self, get_elem?-set_ne, take, length-take, get_elem?-take,
}
use linux_simulation.Console.{buf_size}
use linux_simulation.Console.Line.{SameLine, backspace-SameLine}
use linux_simulation.Console.Erase.{backspace-Erased}
use linux_simulation.Keyboard.{Keyboard, position, with_position, copy_line, delete_char, hand_over}
use linux_simulation.Keyboard.Edit.{HoldsLine, HoldsLine-SameLine}

-- A backspace takes the last character off the line, if there is one.
pub delete_char-HoldsLine :
    (k : Keyboard) (line : List ℕ)
    → HoldsLine k.console line
    → (k' : Keyboard) × (delete_char k ≡ some k')
      × HoldsLine k'.console (take (length line - 1) line)
      × (k' ≡ record k { console = k'.console })
unfolding delete_char
delete_char-HoldsLine k line h =
    let p = h.at_end in
    let short = h.short in
    let cut : length (take (length line - 1) line) ≡ length line - 1 =
      omega (arith, length-take (length line - 1) line) in
    elim (Bool-cases (length line == 0)) [
      | inl empty ↦
          let pos : (position k.console == 0) ≡ true = ground arith in
          (
            k,
            rw pos,
            record {
              console = h.console;
              normal = h.normal;
              short = omega arith;
              at_end = ground arith;
              content = λ j lt. absurd (ground arith);
              zeros = λ j lo hi. h.zeros j (ground arith) hi;
            },
            refl,
          )
      | inr some_left ↦
          let pos : (position k.console == 0) ≡ false = ground arith in
          let (c, runs, st, moved) =
            backspace-Erased k.console h.console (let n = h.normal in omega arith) in
          let kept : SameLine k.console c =
            backspace-SameLine k.console c (let n = h.normal in omega arith) runs in
          let held : HoldsLine c line = HoldsLine-SameLine h st.console kept in
          let pc : position c - 1 ≡ length line - 1 = let q = held.at_end in omega arith in
          let size : length c.keyboard_buffer ≡ 128 = st.console.buffer_size in
          let kb : List ℕ = set c.keyboard_buffer (length line - 1) 0 in
          let stored : store c.keyboard_buffer (length line - 1) 0 ≡ some kb =
            store_lem c.keyboard_buffer (length line - 1) 0 (ground arith) in
          (
            record k {
              console = record (with_position c (position c - 1)) { keyboard_buffer = kb };
            },
            rw pos (rw runs (rw pc (rw stored))),
            record {
              console = record {
                column = st.console.column;
                row = st.console.row;
                tracker_size = st.console.tracker_size;
                buffer_size = length-set c.keyboard_buffer (length line - 1) 0 ∙ size;
              };
              normal = held.normal;
              short = omega arith;
              at_end = let q = held.at_end in omega arith;
              content = λ j lt.
                  get_elem?-set_ne c.keyboard_buffer (length line - 1) j 0 (omega arith)
                  ∙ held.content j (omega arith)
                  ∙ sym (get_elem?-take (length line - 1) line j (omega arith));
              zeros = λ j lo hi. elim (Bool-cases (j == length line - 1)) [
                | inl eq ↦
                    let e : j ≡ length line - 1 = ground arith in
                    rw e (get_elem?-set_self c.keyboard_buffer (length line - 1) 0 (ground arith))
                | inr ne ↦
                    get_elem?-set_ne c.keyboard_buffer (length line - 1) j 0 (ground arith)
                    ∙ held.zeros j (ground arith) hi
              ];
            },
            refl,
          )
    ]

pub copy_line_lem :
    (left : ℕ) (src dest : List ℕ) (i : ℕ)
    → i + left ≤ length src
    → i + left ≤ length dest
    → (r : List ℕ) × (copy_line left src dest i ≡ some r)
      × (length r ≡ length dest)
      × ((j : ℕ) → i ≤ j → j < i + left → get_elem? r j ≡ get_elem? src j)
      × ((j : ℕ) → j < i → get_elem? r j ≡ get_elem? dest j)
unfolding copy_line
copy_line_lem zero src dest i hs hd = (dest, refl, refl, λ j p q. absurd (omega arith), λ j p. refl)
copy_line_lem (suc left) src dest i hs hd =
    let c : ℕ = get_or src i 0 in
    let e : get_elem? src i ≡ some c = get_elem?-eq-get_or src i 0 (omega arith) in
    let (r, runs, len, copied, kept) =
      copy_line_lem left src (set dest i c) (i + 1) (omega arith)
        (omega (arith, length-set dest i c)) in
    (
      r,
      rw e (rw (store_lem dest i c (omega arith)) runs),
      len ∙ length-set dest i c,
      λ j p q. elim (Bool-cases (j == i)) [
        | inl eq ↦ ground (arith, kept j, get_elem?-set_self dest i c, e)
        | inr ne ↦ copied j (ground arith) (omega arith)
      ],
      λ j p. kept j (omega arith) ∙ get_elem?-set_ne dest i j c (omega arith),
    )

-- What the reader finds: the line, and behind it an enter and a zero if there is room for them.
pub record Handed (line : List ℕ) (k : Keyboard) : Type 0 where
  pub flag : k.cross_enter_flag ≡ 1
  pub size : k.ter_read_buf_size ≡ min (length line + 1) buf_size
  pub text : (j : ℕ) → j < length line → get_elem? k.ter_read_buffer j ≡ get_elem? line j
  pub newline : length line < buf_size → get_elem? k.ter_read_buffer (length line) ≡ some 0x0A
  pub end : length line < buf_size → get_elem? k.ter_read_buffer (length line + 1) ≡ some 0
  pub room : length k.ter_read_buffer ≡ buf_size

pub hand_over-Handed :
    (k : Keyboard) (line : List ℕ)
    → HoldsLine k.console line
    → length k.ter_read_buffer ≡ buf_size
    → length line ≢ buf_size - 1
    → (k' : Keyboard) × (hand_over k ≡ some k') × Handed line k' × (k'.console ≡ k.console)
unfolding hand_over
hand_over-Handed k line h room ne =
    let p = h.at_end in
    let short = h.short in
    let pos : position k.console ≡ length line = omega arith in
    let bs = h.console.buffer_size in
    let (r, runs, len, copied, kept) =
      copy_line_lem buf_size k.console.keyboard_buffer k.ter_read_buffer 0 (omega arith)
        (omega arith) in
    let text : (j : ℕ) → j < length line → get_elem? r j ≡ get_elem? line j =
      λ j lt. copied j (omega arith) (omega arith) ∙ h.content j lt in
    elim (Bool-cases (ltb (length line) buf_size)) [
      | inr full ↦ (
        record k { ter_read_buffer = r; ter_read_buf_size = buf_size; cross_enter_flag = 1 },
        rw runs (rw pos (rw full)),
        record {
          flag = refl;
          size = ground arith;
          text = text;
          newline = λ lt. absurd (ground arith);
          end = λ lt. absurd (ground arith);
          room = len ∙ room;
        },
        refl,
      )
      | inl below ↦
          let n : ℕ = length line in
          let a : List ℕ = set r n 0x0A in
          let la : length a ≡ 128 = length-set r n 0x0A ∙ len ∙ room in
          let b : List ℕ = set a (n + 1) 0 in
          let in_r : n < length r = ground (arith, len) in
          let in_a : n + 1 < length a = ground (arith, la) in
          (
            record k { ter_read_buffer = b; ter_read_buf_size = n + 1; cross_enter_flag = 1 },
            rw runs (
                rw pos (rw below (rw (store_lem r n 0x0A in_r) (rw (store_lem a (n + 1) 0 in_a))))),
            record {
              flag = refl;
              size = ground arith;
              text = λ j lt.
                  get_elem?-set_ne a (n + 1) j 0 (omega arith)
                  ∙ get_elem?-set_ne r n j 0x0A (omega arith)
                  ∙ text j lt;
              newline = λ lt.
                  get_elem?-set_ne a (n + 1) n 0 (omega arith) ∙ get_elem?-set_self r n 0x0A in_r;
              end = λ lt. get_elem?-set_self a (n + 1) 0 in_a;
              room = length-set a (n + 1) 0 ∙ la;
            },
            refl,
          )
    ]
