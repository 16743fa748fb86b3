-- ===== src/Pit.antt =====
-- student-distrib/pit.c: the interval timer.
--
-- Writes to the timer's ports are recorded in order, and those to the interrupt controllers with
-- that device.

use linux_simulation.Base.{ℕ, ◌/◌, ◌%◌, ◌^◌, not, ◌&&◌, List, [], ◌∷◌, ◌++◌, ◌==◌, if◌then◌else◌}
use linux_simulation.Pic.{Pic, PortWrite, enable_irq, send_eoi}
use linux_simulation.Scheduler.{scheduling_handler}

pub record Pit : Type 0 where
  pub writes : List PortWrite
  pub pic : Pic

abbrev pub oscii_freq : ℕ
oscii_freq = 1193182

abbrev pub freq : ℕ
freq = 50

abbrev pub pit_port : ℕ
pit_port = 0x43

abbrev pub data_port1 : ℕ
data_port1 = 0x40

-- `a && b` of two `int`s
abbrev pub and_int : ℕ → ℕ → ℕ
and_int a b = if not (a == 0) && not (b == 0) then 1 else 0

-- `pit_init`; the low byte is a logical `&&` of the divider and the mask, and `outb` takes a byte.
unfoldable pub pit_init : Pit → Pit
pit_init p =
    let divider = oscii_freq / freq in
    let low_byte = and_int divider 0xFF in
    let high_byte = divider / 2 ^ 8 in
    record {
      pic = enable_irq p.pic 0;
      writes =
          p.writes
          ++ ((0x36, pit_port)
              ∷ (low_byte % 2 ^ 8, data_port1)
              ∷ (high_byte % 2 ^ 8, data_port1)
              ∷ []);
    }

unfoldable pub pit_irq_handler : Pit → Pit
pit_irq_handler p = let p' = scheduling_handler p in record p' { pic = send_eoi p'.pic 0 }
