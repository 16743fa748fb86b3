-- ===== src/Terminal/Write.antt =====
-- `terminal_write` of student-distrib/terminal.c puts its bytes on the screen.
use linux_simulation.Base.{
  ℕ, zero, suc, ◌+◌, ◌≤◌, ◌<◌, ◌^◌, ◌≡◌, refl, ◌∙◌, false, some, List, [], ◌∷◌, ◌>>=◌, is_negative,
  length, get_elem?, take, drop, arith, ap,
}
use mathlib.Core.Path.{fun_ext}
use linux_simulation.Console.{Console}
use linux_simulation.Console.Bounds.{IsConsole}
use linux_simulation.Console.Output.{putc, puts}
use linux_simulation.Console.Putc.{Stays, puts-Stays}
use linux_simulation.Terminal.{write_bytes, terminal_write}

drop-get_elem? :
    (xs : List ℕ) (i : ℕ)
    → i < length xs
    → (c : ℕ) × (get_elem? xs i ≡ some c) × (drop i xs ≡ c ∷ drop (suc i) xs)
drop-get_elem? [] i h = elim h [ ]
drop-get_elem? (x ∷ xs) zero h = (x, refl, refl)
drop-get_elem? (x ∷ xs) (suc i) h = drop-get_elem? xs i (omega arith)

-- The bytes from an index on, one at a time, are those that `puts` writes.
write_bytes-puts :
    (left : ℕ) (c : Console) (buffer : List ℕ) (i : ℕ)
    → i + left ≤ length buffer
    → write_bytes left c buffer i ≡ puts c (take left (drop i buffer))
unfolding write_bytes puts
write_bytes-puts zero c buffer i h = refl
write_bytes-puts (suc left) c buffer i h =
    let (ch, at_i, split) = drop-get_elem? buffer i (omega arith) in
    let next : (c' : Console)
        → write_bytes left c' buffer (i + 1) ≡ puts c' (take left (drop (suc i) buffer)) =
      λ c'.
        write_bytes-puts left c' buffer (i + 1) (omega arith)
        ∙ ap (λ m. puts c' (take left (drop m buffer)))
            (let e : i + 1 ≡ suc i = omega arith in e) in
    rw at_i (rw split (ap (λ f. putc c ch >>= f) (fun_ext next)))

-- `terminal_write` of at least `nbytes` bytes, for an `nbytes` below 2 ^ 31, on a console in order: it
-- ends, shows the first `nbytes` bytes as `puts` does, leaves the console in order, and returns
-- `nbytes + 1`, where its comment promises the number of bytes written.
pub terminal_write-puts :
    (c : Console) (buffer : List ℕ) (nbytes : ℕ)
    → IsConsole c
    → nbytes < 2 ^ 31
    → nbytes ≤ length buffer
    → (c' : Console) × (terminal_write c buffer nbytes ≡ some (c', nbytes + 1))
      × (puts c (take nbytes buffer) ≡ some c')
      × Stays c c'
unfolding terminal_write
terminal_write-puts c buffer nbytes v small fits =
    let (c', shows, stays) = puts-Stays c (take nbytes buffer) v in
    let positive : is_negative nbytes ≡ false = ground arith in
    (
      c',
      rw positive (rw (write_bytes-puts nbytes c buffer 0 (omega arith)) (rw shows refl)),
      shows,
      stays,
    )
