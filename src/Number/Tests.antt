-- ===== src/Number/Tests.antt =====
-- The theorems on itoa and strrev of student-distrib/lib.c at concrete numbers and strings.
use linux_simulation.Base.{ℕ, ◌<◌, ◌≡◌, some, List, [], ◌∷◌, arith, replicate}
use linux_simulation.CString.{bytes_of}
use linux_simulation.CString.Length.{IsString}
use linux_simulation.Number.{itoa}
use linux_simulation.Number.Digits.{itoa-value_of}
use linux_simulation.Number.Written.{value_of}

abbrev ab : List ℕ
ab = 97 ∷ 98 ∷ 0 ∷ []

itoa-value_of_example :
    (r : List ℕ) × (n : ℕ) × (itoa 391 (replicate 33 0) 16 ≡ some r)
    × (0 < n)
    × IsString (bytes_of r) n
    × (value_of 16 r n ≡ 391)
itoa-value_of_example =
    itoa-value_of 391 16 (replicate 33 0) (omega arith) (omega arith) (omega arith) (omega arith)
