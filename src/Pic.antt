-- ===== src/Pic.antt =====
-- student-distrib/i8259.c: the two interrupt controllers, with the constants of i8259.h.
--
-- A write to a port is recorded as the pair of the value and the port; the record is in order.
pub mod Masks
mod Tests
use linux_simulation.Base.{
  ℕ, zero, suc, ◌+◌, ◌-◌, ◌*◌, ◌^◌, List, [], ◌∷◌, ◌++◌, ltb, if◌then◌else◌, u8, bit_and, bit_or,
}

-- `outb(value, port)`
abbrev pub PortWrite : Type 0
PortWrite = ℕ × ℕ

-- The cached masks, a byte each, and what was written to the ports.
pub record Pic : Type 0 where
  pub master_mask : ℕ
  pub slave_mask : ℕ
  pub writes : List PortWrite

abbrev pub master_8259_port : ℕ
master_8259_port = 0x20

abbrev pub slave_8259_port : ℕ
slave_8259_port = 0xA0

abbrev pub outb : Pic → ℕ → ℕ → Pic
outb p value port = record p { writes = p.writes ++ (value, port) ∷ [] }

unfoldable pub i8259_init : Pic → Pic
i8259_init p = record p {
  writes =
      p.writes
      ++ ((0xFF, master_8259_port + 1)
          ∷ (0xFF, slave_8259_port + 1)
          ∷ (0x11, master_8259_port)
          ∷ (0x11, slave_8259_port)
          ∷ (0x20, master_8259_port + 1)
          ∷ (0x28, slave_8259_port + 1)
          ∷ (0x04, master_8259_port + 1)
          ∷ (0x02, slave_8259_port + 1)
          ∷ (0x01, master_8259_port + 1)
          ∷ (0x01, slave_8259_port + 1)
          ∷ (p.master_mask, master_8259_port + 1)
          ∷ (p.slave_mask, slave_8259_port + 1)
          ∷ []);
}

-- `for(counter = 0; counter < n; counter ++) maskbit <<= 1;` on a byte
pub shift_mask : ℕ → ℕ → ℕ
shift_mask zero maskbit = maskbit
shift_mask (suc left) maskbit = shift_mask left (u8 (maskbit * 2))

-- `irq_num` is unsigned, so it is never below IRQMIN.
pub enable_irq : Pic → ℕ → Pic
enable_irq p irq_num =
    let master = bit_and p.master_mask (255 - shift_mask irq_num 1) in
    let slave = bit_and p.slave_mask (255 - shift_mask (irq_num - 8) 1) in
    if ltb 15 irq_num
    then p
    else if ltb irq_num 8
    then outb (record p { master_mask = master }) master (master_8259_port + 1)
    else outb (record p { slave_mask = slave }) slave (slave_8259_port + 1)

pub disable_irq : Pic → ℕ → Pic
disable_irq p irq_num =
    let master = bit_or p.master_mask (shift_mask irq_num 1) in
    let slave = bit_or p.slave_mask (shift_mask (irq_num - 8) 1) in
    if ltb 15 irq_num
    then p
    else if ltb irq_num 8
    then outb (record p { master_mask = master }) master (master_8259_port + 1)
    else outb (record p { slave_mask = slave }) slave (slave_8259_port + 1)

unfoldable pub send_eoi : Pic → ℕ → Pic
send_eoi p irq_num =
    if ltb 15 irq_num
    then p
    else if ltb irq_num 8
    then outb p (bit_or 0x60 irq_num) master_8259_port
    else outb (outb p (bit_or 0x60 (irq_num - 8)) slave_8259_port) (bit_or 0x60 2) master_8259_port
