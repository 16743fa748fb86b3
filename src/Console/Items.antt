-- ===== src/Console/Items.antt =====
-- Formats of `printf` of student-distrib/lib.c, and the texts that they stand for.
use linux_simulation.Base.{
  ℕ, ◌-◌, ◌^◌, ◌<◌, ◌≡◌, ◌≢◌, List, [], ◌∷◌, ◌++◌, if◌then◌else◌, u8, is_negative, replicate,
  length,
}
use linux_simulation.CString.{Reader}
use linux_simulation.CString.Length.{IsString}
use linux_simulation.Console.Printf.{Arg, word, pointer}
use linux_simulation.Console.Strings.{IsNumeral, IsTextOf}

-- A piece of a format, with the argument that it takes.
pub data Item : Type 0 where
  literal : (ch : ℕ) → ch ≢ 0x25 → Item
  percent : Item
  hex hex_aligned unsigned signed character : (value : ℕ) → value < 2 ^ 32 → Item
  text : (s : Reader) (n : ℕ) → n < 2 ^ 32 → IsString s n → Item

-- The bytes of the format, and the arguments.
abbrev pub bytes : Item → List ℕ
bytes (literal ch h) = ch ∷ []
bytes percent = 0x25 ∷ 0x25 ∷ []
bytes (hex value h) = 0x25 ∷ 0x78 ∷ []
bytes (hex_aligned value h) = 0x25 ∷ 0x23 ∷ 0x78 ∷ []
bytes (unsigned value h) = 0x25 ∷ 0x75 ∷ []
bytes (signed value h) = 0x25 ∷ 0x64 ∷ []
bytes (character value h) = 0x25 ∷ 0x63 ∷ []
bytes (text s n h t) = 0x25 ∷ 0x73 ∷ []

abbrev pub argument : Item → List Arg
argument (literal ch h) = []
argument percent = []
argument (hex value h) = word value ∷ []
argument (hex_aligned value h) = word value ∷ []
argument (unsigned value h) = word value ∷ []
argument (signed value h) = word value ∷ []
argument (character value h) = word value ∷ []
argument (text s n h t) = pointer s ∷ []

abbrev pub format_of : List Item → List ℕ
format_of [] = []
format_of (i ∷ items) = bytes i ++ format_of items

abbrev pub args_of : List Item → List Arg
args_of [] = []
args_of (i ∷ items) = argument i ++ args_of items

-- What an item stands for.
abbrev pub Shows : Item → List ℕ → Type 0
Shows (literal ch h) ds = ds ≡ ch ∷ []
Shows percent ds = ds ≡ 0x25 ∷ []
Shows (hex value h) ds = IsNumeral 16 value ds
Shows (hex_aligned value h) ds =
    (digits : List ℕ) × IsNumeral 16 value digits
    × (ds ≡ replicate (8 - length digits) 0x30 ++ digits)
Shows (unsigned value h) ds = IsNumeral 10 value ds
Shows (signed value h) ds =
    if is_negative value
    then ((digits : List ℕ) × IsNumeral 10 (2 ^ 32 - value) digits × (ds ≡ 0x2D ∷ digits))
    else IsNumeral 10 value ds
Shows (character value h) ds = ds ≡ u8 value ∷ []
Shows (text s n h t) ds = IsTextOf s n ds

-- The text of all items.
abbrev pub ShowsAll : List Item → List ℕ → Type 0
ShowsAll [] ds = ds ≡ []
ShowsAll (i ∷ items) ds =
    (front : List ℕ) × (rest : List ℕ) × (ds ≡ front ++ rest) × Shows i front × ShowsAll items rest
