-- ===== src/Keyboard/Keys.antt =====
-- The scan code tables.
use linux_simulation.Base.{
  ℕ, ◌-◌, ◌≤◌, ◌<◌, ◌≡◌, ◌⊎◌, inl, inr, refl, ap, some, ◌==◌, arith, Bool, true, not, Bool-cases,
  get_elem?, get_or, leb, get_elem?-eq-get_or, if◌then◌else◌, ◌||◌, ◌&&◌,
}
use linux_simulation.Base.Bits.{all_below, all_below_sound}
use linux_simulation.Keyboard.{Keyboard}
use linux_simulation.Keyboard.Scan.{ascii_array, shift_array, print_table_size, ascii, shift}

-- A character that a table gives is one that the handler takes, a zero, or the 255 for none.
abbrev pub IsKeyChar : ℕ → Type 0
IsKeyChar ch = ((0x20 ≤ ch) × (ch ≤ 0x7E)) ⊎ ((ch ≡ 0) ⊎ (ch ≡ 255))

abbrev in_table : ℕ → Bool
in_table ch = (leb 0x20 ch && leb ch 0x7E) || ch == 0

abbrev pub is_letter : ℕ → Bool
is_letter ch = leb 0x61 ch && leb ch 0x7A

abbrev pub capital : ℕ → ℕ
capital ch = if is_letter ch then ch - 0x20 else ch

module _ (s : ℕ) (h : s < print_table_size) where
  ascii_in_table : in_table (get_or ascii_array s 0) ≡ true
  unfolding all_below
  ascii_in_table = all_below_sound 54 (λ s. in_table (get_or ascii_array s 0)) s refl h

  upper_bounds : in_table (capital (get_or ascii_array s 0)) ≡ true
  unfolding all_below
  upper_bounds = all_below_sound 54 (λ s. in_table (capital (get_or ascii_array s 0))) s refl h

  shift_in_table : in_table (get_or shift_array s 0) ≡ true
  unfolding all_below
  shift_in_table = all_below_sound 54 (λ s. in_table (get_or shift_array s 0)) s refl h

  letter_shifted :
      (not (is_letter (get_or ascii_array s 0))
        || (get_or ascii_array s 0 - 0x20) == get_or shift_array s 0)
      ≡ true
  unfolding all_below
  letter_shifted =
      all_below_sound 54
        (λ s.
          not (is_letter (get_or ascii_array s 0))
          || (get_or ascii_array s 0 - 0x20) == get_or shift_array s 0)
        s refl h

  pub ascii_entry : get_elem? ascii_array s ≡ some (get_or ascii_array s 0)
  ascii_entry = get_elem?-eq-get_or ascii_array s 0 h

  pub shift_entry : get_elem? shift_array s ≡ some (get_or shift_array s 0)
  shift_entry = get_elem?-eq-get_or shift_array s 0 h

-- Every scan code has a character in the shifted table, of a kind that the handler knows.
pub shift-IsKeyChar : (s : ℕ) → (ch : ℕ) × (shift s ≡ some ch) × IsKeyChar ch
unfolding shift
shift-IsKeyChar s = elim (Bool-cases (leb print_table_size s)) [
  | inl out ↦ (255, rw out, inr (inr refl))
  | inr inside ↦
      let h : s < print_table_size = ground arith in
      let t = shift_in_table s h in
      (get_or shift_array s 0, rw inside (shift_entry s h), ground arith)
]

pub ascii-IsKeyChar : (k : Keyboard) (s : ℕ) → (ch : ℕ) × (ascii k s ≡ some ch) × IsKeyChar ch
unfolding ascii
ascii-IsKeyChar k s = elim (Bool-cases (leb print_table_size s)) [
  | inl out ↦ (255, rw out, inr (inr refl))
  | inr inside ↦
      let h : s < print_table_size = ground arith in
      let a : ℕ = get_or ascii_array s 0 in
      elim (Bool-cases (k.cap_flag == 1)) [
        | inl caps ↦
            let t : in_table (capital a) ≡ true = upper_bounds s h in
            (capital a, rw inside (rw (ascii_entry s h) (rw caps)), ground arith)
        | inr plain ↦
            let t : in_table a ≡ true = ascii_in_table s h in
            (a, rw inside (rw (ascii_entry s h) (rw plain)), ground arith)
      ]
]

-- With caps lock a letter key gives what it gives with shift, and any other key gives what it gives
-- without caps lock.
ascii_caps :
    (k : Keyboard) (s ch : ℕ)
    → ascii (record k { cap_flag = 0 }) s ≡ some ch
    → ((0x61 ≤ ch) × (ch ≤ 0x7A) × (ascii (record k { cap_flag = 1 }) s ≡ shift s))
      ⊎ (((ch < 0x61) ⊎ (0x7A < ch)) × (ascii (record k { cap_flag = 1 }) s ≡ some ch))
unfolding ascii shift
ascii_caps k s ch e = elim (Bool-cases (leb print_table_size s)) [
  | inl out ↦ let c : some 255 ≡ some ch = rw out at e in inr (ground arith, rw out c)
  | inr inside ↦
      let h : s < print_table_size = ground arith in
      let a : ℕ = get_or ascii_array s 0 in
      let c : some a ≡ some ch = rw (inside, ascii_entry s h) at e in
      let c' : a ≡ ch = cc in
      elim (Bool-cases (is_letter a)) [
        | inl letter ↦
            let t = letter_shifted s h in
            inl (
              ground arith,
              ground arith,
              rw inside (
                  rw (ascii_entry s h) (rw letter (rw (shift_entry s h) (ap some (ground arith))))),
            )
        | inr other ↦ inr (ground arith, rw inside (rw (ascii_entry s h) (rw other c)))
      ]
]
