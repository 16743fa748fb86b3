-- ===== src/Pic/Tests.antt =====
-- The theorems on the masks of student-distrib/i8259.c, with all lines masked and with none.
use linux_simulation.Base.{◌≡◌, [], ◌∷◌, arith}
use linux_simulation.Pic.{Pic, enable_irq}
use linux_simulation.Pic.Masks.{IsPic, masked, last_write, enable_irq-masked}

abbrev closed : Pic
closed = record { master_mask = 255; slave_mask = 255; writes = [] }

closed-IsPic : IsPic closed
closed-IsPic = record { master = omega arith; slave = omega arith }

enable_irq-masked_example :
    (masked (enable_irq closed 1) 1 ≡ 0)
    × IsPic (enable_irq closed 1)
    × ((enable_irq closed 1).writes
        ≡ last_write closed closed-IsPic 1 (omega arith) (enable_irq closed 1) ∷ [])
enable_irq-masked_example = enable_irq-masked closed closed-IsPic 1 (omega arith) 1 (omega arith)
