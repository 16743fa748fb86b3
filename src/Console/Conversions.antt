-- ===== src/Console/Conversions.antt =====
-- What the conversions of `printf` of student-distrib/lib.c write.
use linux_simulation.Base.{
  ℕ, zero, suc, ◌+◌, ◌-◌, ◌^◌, ◌<◌, ◌≡◌, ◌≢◌, inl, inr, refl, sym, ap, ap₂, ◌∙◌, Bool-cases, Option,
  some, List, [], ◌∷◌, ◌++◌, is_negative, sub32, store_lem, get_elem?, set, drop, replicate, length,
  length-append, length-replicate, arith,
}
use linux_simulation.CString.{bytes_of, strlen}
use linux_simulation.CString.Length.{IsString, strlen-IsString_iff}
use linux_simulation.Console.{Console}
use linux_simulation.Console.Output.{puts}
use linux_simulation.Console.Printf.{
  itoa_at, pad_zeros, put_hex, put_hex_aligned, put_unsigned, put_signed,
}
use linux_simulation.Console.Strings.{IsNumeral, IsTextOf, put_string_lem, itoa_text}
use linux_simulation.Console.Items.{hex_aligned, signed, Shows}
use linux_simulation.Number.{itoa}

-- A call that writes a text, wherever the cursor is.
abbrev pub Writes : (Console → Option Console) → List ℕ → Type 0
Writes put ds = (c : Console) → put c ≡ puts c ds

pub put_unsigned-Writes :
    (value : ℕ)
    → value < 2 ^ 32
    → (ds : List ℕ) × IsNumeral 10 value ds × Writes (λ c. put_unsigned c value) ds
unfolding put_unsigned itoa_at
put_unsigned-Writes value small =
    let (r, ds, runs, numeral, is_string, is_text, few, _) =
      itoa_text value 10 (replicate 36 0) small (omega arith) (omega arith) (omega arith) in
    (
      ds,
      numeral,
      λ c. rw runs (put_string_lem c (bytes_of r) (length ds) ds (omega arith) is_string is_text),
    )

pub put_hex-Writes :
    (value : ℕ)
    → value < 2 ^ 32
    → (ds : List ℕ) × IsNumeral 16 value ds × Writes (λ c. put_hex c value) ds
unfolding put_hex itoa_at
put_hex-Writes value small =
    let (r, ds, runs, numeral, is_string, is_text, few, _) =
      itoa_text value 16 (replicate 64 0) small (omega arith) (omega arith) (omega arith) in
    (
      ds,
      numeral,
      λ c. rw runs (put_string_lem c (bytes_of r) (length ds) ds (omega arith) is_string is_text),
    )

inside_in_front :
    (a : ℕ) (r : List ℕ) (n j : ℕ)
    → a ≢ 0
    → ((m : ℕ) → m < n → (c : ℕ) × (get_elem? r m ≡ some c) × (c ≢ 0))
    → j < suc n
    → (c : ℕ) × (get_elem? (a ∷ r) j ≡ some c) × (c ≢ 0)
inside_in_front a r n zero not_0 h lt = (a, refl, not_0)
inside_in_front a r n (suc j) not_0 h lt = h j (omega arith)

text_in_front :
    (a : ℕ) (r : List ℕ) (n : ℕ) (ds : List ℕ) (j : ℕ)
    → ((m : ℕ) → m < n → get_elem? r m ≡ get_elem? ds m)
    → j < suc n
    → get_elem? (a ∷ r) j ≡ get_elem? (a ∷ ds) j
text_in_front a r n ds zero h lt = refl
text_in_front a r n ds (suc j) h lt = h j (omega arith)

-- One more character in front of a string.
in_front :
    (a : ℕ) (r : List ℕ) (n : ℕ) (ds : List ℕ)
    → a ≢ 0
    → IsString (bytes_of r) n × IsTextOf (bytes_of r) n ds
    → IsString (bytes_of (a ∷ r)) (suc n) × IsTextOf (bytes_of (a ∷ r)) (suc n) (a ∷ ds)
in_front a r n ds not_0 (is_string, is_text) = (
  record {
    before = omega arith;
    inside =
        λ j lo hi. inside_in_front a r n j not_0 (λ m lt. is_string.inside m (omega arith) lt) hi;
    at_end = is_string.at_end;
  },
  (ap suc is_text.0, λ j lt. text_in_front a r n ds j is_text.1 lt),
)

pub put_signed-Writes :
    (value : ℕ) (h : value < 2 ^ 32)
    → (ds : List ℕ) × Shows (signed value h) ds × Writes (λ c. put_signed c value) ds
unfolding put_signed itoa_at
put_signed-Writes value h = elim (Bool-cases (is_negative value)) [
  | inl negative ↦
      let amount : sub32 0 value ≡ 2 ^ 32 - value = ground arith in
      let (r, ds, runs, numeral, is_string, is_text, few, _) =
        itoa_text (2 ^ 32 - value) 10 (drop 1 (replicate 36 0)) (ground arith) (omega arith)
          (omega arith) (omega arith) in
      let (is_string', is_text') =
        in_front 0x2D r (length ds) ds (omega arith) (is_string, is_text) in
      let runs' : itoa (sub32 0 value) (drop 1 (replicate 36 0)) 10 ≡ some r =
        ap (λ v. itoa v (drop 1 (replicate 36 0)) 10) amount ∙ runs in
      let stored = store_lem (0 ∷ r) 0 0x2D (omega arith) in
      (
        0x2D ∷ ds,
        rw negative (ds, numeral, refl),
        λ c. rw negative (
            rw runs' (
              rw stored (
                put_string_lem c (bytes_of (0x2D ∷ r)) (suc (length ds)) (0x2D ∷ ds) (omega arith)
                  is_string' is_text'))),
      )
  | inr not_negative ↦
      let (ds, numeral, writes) = put_unsigned-Writes value h in
      (ds, rw not_negative numeral, λ c. rw not_negative (writes c))
]

drop_front : (pre r : List ℕ) → drop (length pre) (pre ++ r) ≡ r
drop_front [] r = refl
drop_front (x ∷ pre) r = drop_front pre r

-- The zeros that `%#x` puts in front: the loop turns the zeros of the buffer into characters.
set_behind : (pre r : List ℕ) (a b : ℕ) → set (pre ++ a ∷ r) (length pre) b ≡ (pre ++ b ∷ []) ++ r
set_behind [] r a b = refl
set_behind (x ∷ pre) r a b = ap (λ xs. x ∷ xs) (set_behind pre r a b)

append_one : (pre r : List ℕ) (b : ℕ) → (pre ++ b ∷ []) ++ r ≡ pre ++ b ∷ r
append_one [] r b = refl
append_one (x ∷ pre) r b = ap (λ xs. x ∷ xs) (append_one pre r b)

pad_zeros_lem :
    (left : ℕ) (pre r : List ℕ)
    → pad_zeros left (pre ++ (replicate left 0 ++ r)) (length pre)
      ≡ some (pre ++ (replicate left 0x30 ++ r))
unfolding pad_zeros
pad_zeros_lem zero pre r = refl
pad_zeros_lem (suc left) pre r =
    let more : List ℕ = replicate left 0 ++ r in
    let len = length-append pre (0 ∷ more) in
    let stored = store_lem (pre ++ 0 ∷ more) (length pre) 0x30 (omega arith) in
    let next = set_behind pre more 0 0x30 in
    let pre' : List ℕ = pre ++ 0x30 ∷ [] in
    let at : length pre + 1 ≡ length pre' = sym (length-append pre (0x30 ∷ []) ∙ omega arith) in
    rw stored (
      ap₂ (pad_zeros left) next at
      ∙ pad_zeros_lem left pre' r
      ∙ ap some (append_one pre (replicate left 0x30 ++ r) 0x30))

replicate_add :
    (n left : ℕ) (r : List ℕ)
    → replicate {A = ℕ} (n + left) 0 ++ r ≡ replicate n 0 ++ (replicate left 0 ++ r)
replicate_add zero left r = let e : 0 + left ≡ left = omega arith in ap (λ m. replicate m 0 ++ r) e
replicate_add (suc n) left r =
    let e : suc n + left ≡ suc (n + left) = omega arith in
    ap (λ m. replicate m 0 ++ r) e ∙ ap (λ xs. 0 ∷ xs) (replicate_add n left r)

replicate_split :
    (n left : ℕ) (r : List ℕ)
    → n + left ≡ 8
    → replicate {A = ℕ} 8 0 ++ r ≡ replicate n 0 ++ (replicate left 0 ++ r)
replicate_split n left r h = ap (λ m. replicate m 0 ++ r) (sym h) ∙ replicate_add n left r

-- Zeros in front of a string.
zeros_in_front :
    (k : ℕ) (r : List ℕ) (n : ℕ) (ds : List ℕ)
    → IsString (bytes_of r) n × IsTextOf (bytes_of r) n ds
    → IsString (bytes_of (replicate k 0x30 ++ r)) (k + n)
      × IsTextOf (bytes_of (replicate k 0x30 ++ r)) (k + n) (replicate k 0x30 ++ ds)
zeros_in_front zero r n ds h = let e : 0 + n ≡ n = omega arith in rw e h
zeros_in_front (suc k) r n ds h =
    let e : suc k + n ≡ suc (k + n) = omega arith in
    rw e (
      in_front 0x30 (replicate k 0x30 ++ r) (k + n) (replicate k 0x30 ++ ds) (omega arith)
        (zeros_in_front k r n ds h))

pub put_hex_aligned-Writes :
    (value : ℕ) (h : value < 2 ^ 32)
    → (ds : List ℕ) × Shows (hex_aligned value h) ds × Writes (λ c. put_hex_aligned c value) ds
unfolding put_hex_aligned itoa_at
put_hex_aligned-Writes value h =
    let (r, ds, runs, numeral, is_string, is_text, few, few_hex) =
      itoa_text value 16 (drop 8 (replicate 64 0)) h (omega arith) (omega arith) (omega arith) in
    let n : ℕ = length ds in
    let k : ℕ = 8 - length ds in
    let eight : n + k ≡ 8 = (let f = few_hex refl in omega arith) in
    let measured : strlen (bytes_of r) ≡ some n =
      (strlen-IsString_iff (bytes_of r) n (omega arith)).1 is_string in
    let front_size : length (replicate {A = ℕ} n 0) ≡ n = length-replicate n 0 in
    let padded : pad_zeros k (replicate 8 0 ++ r) n
        ≡ some (replicate n 0 ++ (replicate k 0x30 ++ r)) =
      ap₂ (pad_zeros k) (replicate_split n k r eight) (sym front_size)
      ∙ pad_zeros_lem k (replicate n 0) r in
    let shown : drop n (replicate n 0 ++ (replicate k 0x30 ++ r)) ≡ replicate k 0x30 ++ r =
      ap (λ m. drop m (replicate n 0 ++ (replicate k 0x30 ++ r))) (sym front_size)
      ∙ drop_front (replicate n 0) (replicate k 0x30 ++ r) in
    let (is_string', is_text') = zeros_in_front k r n ds (is_string, is_text) in
    (
      replicate k 0x30 ++ ds,
      (ds, numeral, refl),
      λ c. rw runs (
          rw measured (
            rw padded (
              rw shown (
                put_string_lem c (bytes_of (replicate k 0x30 ++ r)) (k + n) (replicate k 0x30 ++ ds)
                  (omega arith) is_string' is_text')))),
    )
