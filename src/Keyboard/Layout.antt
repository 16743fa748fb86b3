-- ===== src/Keyboard/Layout.antt =====
-- What stands on the keys of the keyboard, and that the tables of student-distrib/keyboard.c agree with it.
use linux_simulation.Base.{
  ℕ, ◌+◌, ◌-◌, ◌≤◌, ◌<◌, ◌≡◌, refl, ap, Bool, true, false, not, ◌&&◌, Option, none, some, List, [],
  ◌∷◌, ◌++◌, codes, ◌==◌, leb, if◌then◌else◌, length, take, get_elem?, get_or, get_elem?-none,
  arith,
}
use linux_simulation.Base.Bits.{all_below, all_below_sound}
use linux_simulation.Console.{buf_size}
use linux_simulation.Keyboard.{Keyboard}
use linux_simulation.Keyboard.Handler.{typed}
use linux_simulation.Keyboard.Keys.{capital}
use linux_simulation.Keyboard.Scan.{ascii_array, shift_array, print_table_size}

-- The four rows of keys: the scan code of the first key, and what stands on the keys, below and above.
abbrev pub rows : List (ℕ × List ℕ × List ℕ)
rows =
    (0x02, codes "1234567890-=", codes "!@#$%^&*()_+")
    ∷ (0x10, codes "qwertyuiop[]", codes "QWERTYUIOP{}")
    ∷ (0x1E, codes "asdfghjkl;'`", codes "ASDFGHJKL:" ++ 0x22 ∷ codes "~")
    ∷ (0x2B, 0x5C ∷ codes "zxcvbnm,./", codes "|ZXCVBNM<>?")
    ∷ []

abbrev pub in_row : ℕ → List ℕ → ℕ → Option ℕ
in_row first row input = if leb first input then get_elem? row (input - first) else none

abbrev pub either : Option ℕ → Option ℕ → Option ℕ
either (some ch) other = some ch
either none other = other

-- What stands on a key, if it is a key of the four rows.
abbrev pub on_key : List (ℕ × List ℕ × List ℕ) → Bool → ℕ → Option ℕ
on_key [] above input = none
on_key ((first, lower, upper) ∷ more) above input =
    either (in_row first (if above then upper else lower) input) (on_key more above input)

-- With caps lock a letter is its capital; shift goes before caps lock.
abbrev pub with_caps : Option ℕ → Option ℕ → Option ℕ
with_caps none upper = none
with_caps (some ch) upper = if leb 0x61 ch && leb ch 0x7A then upper else some ch

abbrev pub legend : Bool → Bool → ℕ → Option ℕ
legend held caps input =
    if held
    then on_key rows true input
    else if caps
    then with_caps (on_key rows false input) (on_key rows true input)
    else on_key rows false input

-- A character goes behind the line if there is room.
abbrev pub put : Option ℕ → List ℕ → List ℕ
put none line = line
put (some ch) line = if length line == buf_size then line else line ++ ch ∷ []

-- What a key does to the line, under the keys that are held down and caps lock: backspace deletes, control
-- with L clears, the space bar and the keys of the four rows are typed, and any other key does nothing.
abbrev pub edited : Keyboard → ℕ → List ℕ → List ℕ
edited k input line =
    if input == 0x0E
    then take (length line - 1) line
    else if k.control_flag == 1 && input == 0x26
    then []
    else if input == 0x39
    then put (some 0x20) line
    else put (legend (k.shift_flag == 1) (k.cap_flag == 1) input) line

-- A character of a table is what stands on the key, or nothing stands there and it is not printable.
abbrev pub fits : ℕ → Option ℕ → Bool
fits ch none = not (leb 0x20 ch && leb ch 0x7E)
fits ch (some d) = ch == d && (leb 0x20 ch && leb ch 0x7E)

pub typed-put :
    (ch : ℕ) (o : Option ℕ) (line : List ℕ) → fits ch o ≡ true → typed ch line ≡ put o line
typed-put ch none line h =
    let hidden : (leb 0x20 ch && leb ch 0x7E) ≡ false = ground arith in rw hidden refl
typed-put ch (some d) line h =
    let shown : (leb 0x20 ch && leb ch 0x7E) ≡ true = ground arith in
    let same : ch ≡ d = ground arith in
    rw shown (ap (λ x. if length line == buf_size then line else line ++ x ∷ []) same)

module _ (s : ℕ) (h : s < print_table_size) where
  pub plain_fits : fits (get_or ascii_array s 0) (legend false false s) ≡ true
  unfolding all_below
  plain_fits =
      all_below_sound 54 (λ s. fits (get_or ascii_array s 0) (legend false false s)) s refl h

  pub caps_fits : fits (capital (get_or ascii_array s 0)) (legend false true s) ≡ true
  unfolding all_below
  caps_fits =
      all_below_sound 54 (λ s. fits (capital (get_or ascii_array s 0)) (legend false true s)) s refl
        h

  pub shift_fits : fits (get_or shift_array s 0) (legend true false s) ≡ true
  unfolding all_below
  shift_fits =
      all_below_sound 54 (λ s. fits (get_or shift_array s 0) (legend true false s)) s refl h

-- No key of the four rows has a higher code.
not_in_row : (first s : ℕ) (row : List ℕ) → first + length row ≤ s → in_row first row s ≡ none
not_in_row first s row h =
    let lo : leb first s ≡ true = ground arith in
    rw lo (get_elem?-none row (s - first) (omega arith))

off_rows : (above : Bool) (s : ℕ) → print_table_size ≤ s → on_key rows above s ≡ none
off_rows true s h = rw (not_in_row 0x02 s (codes "!@#$%^&*()_+") (omega arith)) (
    rw (not_in_row 0x10 s (codes "QWERTYUIOP{}") (omega arith)) (
      rw (not_in_row 0x1E s (codes "ASDFGHJKL:" ++ 0x22 ∷ codes "~") (omega arith))
        (rw (not_in_row 0x2B s (codes "|ZXCVBNM<>?") (omega arith)) refl)))
off_rows false s h = rw (not_in_row 0x02 s (codes "1234567890-=") (omega arith)) (
    rw (not_in_row 0x10 s (codes "qwertyuiop[]") (omega arith)) (
      rw (not_in_row 0x1E s (codes "asdfghjkl;'`") (omega arith))
        (rw (not_in_row 0x2B s (0x5C ∷ codes "zxcvbnm,./") (omega arith)) refl)))

pub off_legend : (held caps : Bool) (s : ℕ) → print_table_size ≤ s → legend held caps s ≡ none
off_legend true caps s h = off_rows true s h
off_legend false true s h = rw (off_rows false s h) refl
off_legend false false s h = off_rows false s h
