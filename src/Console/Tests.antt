-- ===== src/Console/Tests.antt =====
-- The theorems on the console of student-distrib/lib.c at a blank screen.
use linux_simulation.Base.{ℕ, ◌≡◌, ◌≢◌, ◌⊎◌, ◌>>=◌, some, List, [], ◌∷◌, length, arith}
use linux_simulation.CString.{bytes_of}
use linux_simulation.Console.Items.{
  Item, literal, signed, hex_aligned, text, format_of, args_of, ShowsAll,
}
use linux_simulation.Console.Printf.{printf}
use linux_simulation.Console.Printing.{printf-ShowsAll}
use linux_simulation.Console.{Console}
use linux_simulation.Console.Output.{putc, puts, reset}
use linux_simulation.Console.Putc.{Stays, Shows, CursorHere, NewRow, putc-Shows}
use linux_simulation.Console.Erase.{Fresh, reset-Fresh}
use linux_simulation.Base.{refl, replicate, minus_one}
use linux_simulation.Examples.{screen, screen-IsConsole, name_a, name_a-IsString}

abbrev letter : ℕ
letter = 98

putc-Shows_example :
    (c : Console) × (putc screen letter ≡ some c)
    × Stays screen c
    × CursorHere c
    × (((letter ≡ 0x0A) ⊎ (letter ≡ 0x0D)) × NewRow screen c
        ⊎ (letter ≢ 0x0A) × (letter ≢ 0x0D) × Shows screen letter c)
putc-Shows_example = putc-Shows screen letter screen-IsConsole

-- A console in text editing mode, at the start of the row behind one that an enter ended in column 4.
abbrev editing : Console
editing = record screen {
  screen_x = 0;
  screen_y = 1;
  enter_flag = minus_one;
  enter_tracker = 0xB3 ∷ replicate 24 0;
}

-- `a%d%#x%s` with -1, 255 and the string "a".
abbrev items : List Item
items =
    literal 0x61 (omega arith)
    ∷ signed 0xFFFFFFFF (omega arith)
    ∷ hex_aligned 255 (omega arith)
    ∷ text (bytes_of name_a) 1 (omega arith) name_a-IsString
    ∷ []

printf-ShowsAll_example :
    (ds : List ℕ) × ShowsAll items ds
    × ((c : Console)
        → printf c (format_of items) (args_of items)
          ≡ (puts c ds >>= λ c'. some (c', length (format_of items))))
printf-ShowsAll_example = printf-ShowsAll items

reset-Fresh_example :
    (c : Console) × (reset screen ≡ some c)
    × Stays screen c
    × CursorHere c
    × Fresh c
    × (c.enter_flag ≡ 0)
reset-Fresh_example = reset-Fresh screen refl refl
