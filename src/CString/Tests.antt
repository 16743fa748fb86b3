-- ===== src/CString/Tests.antt =====
-- The theorem on strncmp of student-distrib/lib.c at concrete strings.
use linux_simulation.Base.{ℕ, ◌≡◌, ◌↔◌, refl, some, List, [], ◌∷◌}
use linux_simulation.CString.{bytes_of, strncmp}
use linux_simulation.CString.Compare.{IsByteReader, bytes_of-IsByteReader, Agree, strncmp-Agree_iff}

abbrev ab : List ℕ
ab = 97 ∷ 98 ∷ 0 ∷ []

abbrev ac : List ℕ
ac = 97 ∷ 99 ∷ 0 ∷ []

ab-IsByteReader : IsByteReader (bytes_of ab)
ab-IsByteReader = bytes_of-IsByteReader ab refl

ac-IsByteReader : IsByteReader (bytes_of ac)
ac-IsByteReader = bytes_of-IsByteReader ac refl

strncmp-Agree_iff_example :
    (strncmp (bytes_of ab) (bytes_of ac) 1 ≡ some 0) ↔ Agree (bytes_of ab) (bytes_of ac) 0 1
strncmp-Agree_iff_example =
    strncmp-Agree_iff (bytes_of ab) (bytes_of ac) ab-IsByteReader ac-IsByteReader 1
