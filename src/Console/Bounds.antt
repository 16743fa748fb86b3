-- ===== src/Console/Bounds.antt =====
-- The console never leaves its arrays or its 25 rows of 80 columns.
use linux_simulation.Base.{
  ℕ, zero, suc, ◌+◌, ◌-◌, ◌≤◌, ◌<◌, ◌≡◌, inl, inr, refl, ◌∙◌, sym, some, none, Option, ◌==◌, arith,
  List, Bool-cases, length, get_elem?, get_or, set, ltb, store_lem, length-set, get_elem?-eq-get_or,
  get_elem?-set_self, get_elem?-set_ne,
}
use linux_simulation.Console.{Console, num_cols, num_rows, buf_size}
use linux_simulation.Console.Scrolling.{find_enter, shift_buffer, shift_tracker}

-- The cursor stands on the screen, and the arrays have their sizes.
pub record IsConsole (c : Console) : Type 0 where
  pub column : c.screen_x < num_cols
  pub row : c.screen_y < num_rows
  pub tracker_size : length c.enter_tracker ≡ num_rows
  pub buffer_size : length c.keyboard_buffer ≡ buf_size

pub find_enter_total :
    (left : ℕ) (kb : List ℕ) (index : ℕ)
    → index + left ≤ length kb
    → (r : Option ℕ) × (find_enter left kb index ≡ some r)
unfolding find_enter
find_enter_total zero kb index h = (none, refl)
find_enter_total (suc left) kb index h =
    let e = get_elem?-eq-get_or kb index 0 (omega arith) in
    let (r, runs) = find_enter_total left kb (index + 1) (omega arith) in
    elim (Bool-cases (get_or kb index 0 == 0x0A)) [
      | inl hit ↦ (some index, rw e (rw hit))
      | inr miss ↦ (r, rw e (rw miss runs))
    ]

-- `r` is `kb` with the bytes from index `i` on replaced by those `n` further, and zeros behind.
pub record ShiftedFrom (kb : List ℕ) (n i : ℕ) (r : List ℕ) : Type 0 where
  pub same_length : length r ≡ length kb
  pub moved : (j : ℕ) → i ≤ j → n + j < buf_size → get_elem? r j ≡ get_elem? kb (n + j)
  pub zeros : (j : ℕ) → i ≤ j → buf_size ≤ n + j → j < buf_size → get_elem? r j ≡ some 0
  pub kept : (j : ℕ) → j < i → get_elem? r j ≡ get_elem? kb j

pub shift_buffer-ShiftedFrom :
    (left n : ℕ) (kb : List ℕ) (i : ℕ)
    → 0 < n
    → i + left ≡ buf_size
    → length kb ≡ buf_size
    → (r : List ℕ) × (shift_buffer left n kb i ≡ some r) × ShiftedFrom kb n i r
unfolding shift_buffer
shift_buffer-ShiftedFrom zero n kb i pos e l = (
  kb,
  refl,
  record {
    same_length = refl;
    moved = λ j p q. absurd (omega arith);
    zeros = λ j p q s. absurd (omega arith);
    kept = λ j p. refl;
  },
)
shift_buffer-ShiftedFrom (suc left) n kb i pos e l = elim (Bool-cases (ltb (n + i) buf_size)) [
  | inl inside ↦
      let lt : n + i < buf_size = ground arith in
      let c : ℕ = get_or kb (n + i) 0 in
      let ec : get_elem? kb (n + i) ≡ some c = get_elem?-eq-get_or kb (n + i) 0 (omega arith) in
      let (r, runs, s) =
        shift_buffer-ShiftedFrom left n (set kb i c) (i + 1) pos (omega arith)
          (length-set kb i c ∙ l) in
      (
        r,
        rw inside (rw (ec, store_lem kb i c (omega arith)) runs),
        record {
          same_length = s.same_length ∙ length-set kb i c;
          moved = λ j p q. elim (Bool-cases (j == i)) [
            | inl eq ↦
                let eq' : j ≡ i = ground arith in
                rw eq' (s.kept i (omega arith) ∙ get_elem?-set_self kb i c (omega arith) ∙ sym ec)
            | inr ne ↦ s.moved j (ground arith) q ∙ get_elem?-set_ne kb i (n + j) c (omega arith)
          ];
          zeros = λ j p q t. s.zeros j (ground arith) q t;
          kept = λ j p. s.kept j (omega arith) ∙ get_elem?-set_ne kb i j c (omega arith);
        },
      )
  | inr behind ↦
      let ge : buf_size ≤ n + i = ground arith in
      let (r, runs, s) =
        shift_buffer-ShiftedFrom left n (set kb i 0) (i + 1) pos (omega arith)
          (length-set kb i 0 ∙ l) in
      (
        r,
        rw behind (rw (store_lem kb i 0 (omega arith)) runs),
        record {
          same_length = s.same_length ∙ length-set kb i 0;
          moved = λ j p q. absurd (omega arith);
          zeros = λ j p q t. elim (Bool-cases (j == i)) [
            | inl eq ↦
                let eq' : j ≡ i = ground arith in
                rw eq' (s.kept i (omega arith) ∙ get_elem?-set_self kb i 0 (omega arith))
            | inr ne ↦ s.zeros j (ground arith) q t
          ];
          kept = λ j p. s.kept j (omega arith) ∙ get_elem?-set_ne kb i j 0 (omega arith);
        },
      )
]

pub shift_tracker_total :
    (left : ℕ) (tr : List ℕ) (index : ℕ)
    → index + left ≡ num_rows
    → length tr ≡ num_rows
    → (r : List ℕ) × (shift_tracker left tr index ≡ some r) × (length r ≡ num_rows)
unfolding shift_tracker
shift_tracker_total zero tr index e l = (tr, refl, l)
shift_tracker_total (suc left) tr index e l = elim (Bool-cases (ltb index (num_rows - 1))) [
  | inl inside ↦
      let m : ℕ = get_or tr (index + 1) 0 in
      let (r, runs, size) =
        shift_tracker_total left (set tr index m) (index + 1) (omega arith)
          (length-set tr index m ∙ l) in
      (
        r,
        rw inside (
            rw
              (
                get_elem?-eq-get_or tr (index + 1) 0 (ground arith),
                store_lem tr index m (omega arith),
              )
              runs),
        size,
      )
  | inr last ↦
      let (r, runs, size) =
        shift_tracker_total left (set tr index 0) (index + 1) (omega arith)
          (length-set tr index 0 ∙ l) in
      (r, rw last (rw (store_lem tr index 0 (omega arith)) runs), size)
]
