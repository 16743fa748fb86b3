-- ===== src/Console/Strings.antt =====
-- Strings and numbers as `printf` of student-distrib/lib.c writes them.
use linux_simulation.Base.{
  ℕ, zero, suc, ◌+◌, ◌^◌, ◌≤◌, ◌<◌, ◌≡◌, refl, sym, ap, ◌∙◌, some, List, [], ◌∷◌, get_elem?, get_or,
  length, arith,
}
use linux_simulation.CString.{Reader, bytes_of}
use linux_simulation.CString.Length.{IsString, strlen-IsString_iff}
use linux_simulation.Console.{Console}
use linux_simulation.Console.Output.{puts}
use linux_simulation.Console.Printf.{read_text, put_string}
use linux_simulation.Number.{itoa}
use linux_simulation.Number.Digits.{itoa-value_of}
use linux_simulation.Number.Few.{itoa-few}
use linux_simulation.Number.Written.{value_of}

-- A number in a radix: one digit or more, with that value.
pub record IsNumeral (radix value : ℕ) (ds : List ℕ) : Type 0 where
  pub some_digit : 0 < length ds
  pub number : value_of radix ds (length ds) ≡ value

-- The bytes of a string.
abbrev pub IsTextOf : Reader → ℕ → List ℕ → Type 0
IsTextOf s n ds = (length ds ≡ n) × ((j : ℕ) → j < n → s j ≡ get_elem? ds j)

tail_at :
    (s : Reader) (i c : ℕ) (cs : List ℕ) (j : ℕ)
    → s i ≡ some c
    → ((m : ℕ) → j ≡ suc m → s (i + 1 + m) ≡ get_elem? cs m)
    → s (i + j) ≡ get_elem? (c ∷ cs) j
tail_at s i c cs zero at_i h = ap s (let e : i + 0 ≡ i = omega arith in e) ∙ at_i
tail_at s i c cs (suc m) at_i h = ap s (let e : i + suc m ≡ i + 1 + m = omega arith in e) ∙ h m refl

-- A string is read as its bytes.
read_text_lem :
    (left : ℕ) (s : Reader) (i : ℕ)
    → ((j : ℕ) → j < left → (c : ℕ) × (s (i + j) ≡ some c))
    → (cs : List ℕ) × (read_text left s i ≡ some cs)
      × (length cs ≡ left)
      × ((j : ℕ) → j < left → s (i + j) ≡ get_elem? cs j)
unfolding read_text
read_text_lem zero s i h = ([], refl, refl, λ j lt. absurd (omega arith))
read_text_lem (suc left) s i h =
    let (c, here) = h 0 (omega arith) in
    let at_i : s i ≡ some c = ap s (let e : i ≡ i + 0 = omega arith in e) ∙ here in
    let (cs, reads, len, at) = read_text_lem left s (i + 1) (λ j lt.
      let (d, there) = h (suc j) (omega arith) in
      (d, ap s (let e : i + 1 + j ≡ i + suc j = omega arith in e) ∙ there)) in
    (
      c ∷ cs,
      rw at_i (rw reads refl),
      ap suc len,
      λ j lt. tail_at s i c cs j at_i (λ m e. at m (omega arith)),
    )

pub get_elem?-lt : (xs : List ℕ) (j c : ℕ) → get_elem? xs j ≡ some c → j < length xs
get_elem?-lt [] j c e = cc
get_elem?-lt (x ∷ xs) zero c e = omega arith
get_elem?-lt (x ∷ xs) (suc j) c e = omega (arith, get_elem?-lt xs j c e)

-- Lists of one length with the same elements are equal.
pub same_elements :
    (xs ys : List ℕ)
    → length xs ≡ length ys
    → ((j : ℕ) → j < length xs → get_elem? xs j ≡ get_elem? ys j)
    → xs ≡ ys
same_elements [] [] len h = refl
same_elements [] (y ∷ ys) len h = absurd (omega arith)
same_elements (x ∷ xs) [] len h = absurd (omega arith)
same_elements (x ∷ xs) (y ∷ ys) len h =
    let first : some x ≡ some y = h 0 (omega arith) in
    let rest = same_elements xs ys (omega arith) (λ j lt. h (suc j) (omega arith)) in
    let x_y : x ≡ y = cc in rw (x_y, rest) refl

-- A string, read to its end.
whole_text :
    (s : Reader) (n : ℕ)
    → IsString s n
    → (cs : List ℕ) × (read_text n s 0 ≡ some cs) × IsTextOf s n cs
whole_text s n is_string =
    let (cs, reads, len, at) = read_text_lem n s 0 (λ j lt.
      let (d, there, not_0) = is_string.inside j (omega arith) lt in
      (d, ap s (let e : 0 + j ≡ j = omega arith in e) ∙ there)) in
    (cs, reads, (len, λ j lt. ap s (let e : j ≡ 0 + j = omega arith in e) ∙ at j lt))

-- `put_string` writes the bytes of its string.
pub put_string_lem :
    (c : Console) (s : Reader) (n : ℕ) (ds : List ℕ)
    → n < 2 ^ 32
    → IsString s n
    → IsTextOf s n ds
    → put_string c s ≡ puts c ds
unfolding put_string
put_string_lem c s n ds short is_string (len, at) =
    let measured = (strlen-IsString_iff s n short).1 is_string in
    let (cs, reads, is_text) = whole_text s n is_string in
    let (len', at') = is_text in
    let same : cs ≡ ds =
      same_elements cs ds (len' ∙ sym len)
        (λ j lt. sym (at' j (omega arith)) ∙ at j (omega arith)) in
    rw measured (rw reads (rw same refl))

-- Every string has its bytes.
pub text_of : (s : Reader) (n : ℕ) → IsString s n → (ds : List ℕ) × IsTextOf s n ds
text_of s n is_string = let (cs, reads, is_text) = whole_text s n is_string in (cs, is_text)

get_or-get_elem? :
    (xs ys : List ℕ) (j : ℕ) → get_elem? xs j ≡ get_elem? ys j → get_or xs j 0 ≡ get_or ys j 0
get_or-get_elem? [] [] j e = refl
get_or-get_elem? [] (y ∷ ys) zero e = cc
get_or-get_elem? [] (y ∷ ys) (suc j) e = get_or-get_elem? [] ys j e
get_or-get_elem? (x ∷ xs) [] zero e = cc
get_or-get_elem? (x ∷ xs) [] (suc j) e = get_or-get_elem? xs [] j e
get_or-get_elem? (x ∷ xs) (y ∷ ys) zero e = cc
get_or-get_elem? (x ∷ xs) (y ∷ ys) (suc j) e = get_or-get_elem? xs ys j e

value_of_agree :
    (radix : ℕ) (xs ys : List ℕ) (n : ℕ)
    → ((j : ℕ) → j < n → get_or xs j 0 ≡ get_or ys j 0)
    → value_of radix xs n ≡ value_of radix ys n
value_of_agree radix xs ys zero h = refl
value_of_agree radix xs ys (suc n) h =
    let rest = value_of_agree radix xs ys n (λ j lt. h j (omega arith)) in
    rw (rest, h n (omega arith)) refl

-- `itoa` into a buffer, with the text of the number: it can be written behind other characters.
pub itoa_text :
    (value radix : ℕ) (buf : List ℕ)
    → value < 2 ^ 32
    → 2 ≤ radix
    → radix ≤ 36
    → 33 ≤ length buf
    → (r : List ℕ) × (ds : List ℕ) × (itoa value buf radix ≡ some r)
      × IsNumeral radix value ds
      × IsString (bytes_of r) (length ds)
      × IsTextOf (bytes_of r) (length ds) ds
      × (length ds ≤ 32)
      × (radix ≡ 16 → length ds ≤ 8)
itoa_text value radix buf small two most room =
    let (r, n, runs, any, is_string, number) = itoa-value_of value radix buf small two most room in
    let (ds, is_text) = text_of (bytes_of r) n is_string in
    let (len, at) = is_text in
    let (few, few_hex) = itoa-few value radix n buf r small two most room runs is_string in
    (
      r,
      ds,
      runs,
      record {
        some_digit = omega arith;
        number =
            ap (value_of radix ds) len
            ∙ value_of_agree radix ds r n (λ j lt. get_or-get_elem? ds r j (sym (at j lt)))
            ∙ number;
      },
      rw len is_string,
      rw len (refl, at),
      omega arith,
      λ is_16. let f = few_hex is_16 in omega arith,
    )
