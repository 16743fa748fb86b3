-- ===== src/UserLib/Tests.antt =====
-- The functions of syscalls/ece391support.c at concrete strings and numbers.
use linux_simulation.Base.{ℕ, ◌≡◌, ◌↔◌, refl, some, List, [], ◌∷◌, replicate}
use linux_simulation.CString.{bytes_of, strcpy, strncmp}
use linux_simulation.CString.Compare.{bytes_of-IsByteReader}
use linux_simulation.Number.{itoa}
use linux_simulation.UserLib.{ece391_strcpy, ece391_strncmp, ece391_itoa}
use linux_simulation.UserLib.Agreement.{
  ece391_strcpy-strcpy, ece391_strncmp-strncmp_iff, ece391_itoa-itoa,
}

abbrev ab : List ℕ
ab = 97 ∷ 98 ∷ 0 ∷ []

abbrev high : List ℕ
high = 97 ∷ 200 ∷ 0 ∷ []

ece391_strcpy-strcpy_example :
    ece391_strcpy (replicate 4 1) (bytes_of ab) ≡ strcpy (replicate 4 1) (bytes_of ab)
ece391_strcpy-strcpy_example = ece391_strcpy-strcpy (replicate 4 1) (bytes_of ab)

ece391_strncmp-strncmp_iff_example :
    (ece391_strncmp (bytes_of ab) (bytes_of high) 2 ≡ some 0)
    ↔ (strncmp (bytes_of ab) (bytes_of high) 2 ≡ some 0)
ece391_strncmp-strncmp_iff_example =
    ece391_strncmp-strncmp_iff (bytes_of ab) (bytes_of high) (bytes_of-IsByteReader ab refl)
      (bytes_of-IsByteReader high refl) 2

ece391_itoa-itoa_example : ece391_itoa 391 (replicate 33 0) 10 ≡ itoa 391 (replicate 33 0) 10
ece391_itoa-itoa_example = ece391_itoa-itoa 391 (replicate 33 0) 10
