-- ===== src/Rtc.antt =====
-- student-distrib/rtc.c: the real-time clock.
--
-- The byte that a read of a port gives is an argument; writes are recorded in order, those to the
-- interrupt controllers with that device. What happens while `rtc_read` spins is a list of events.
pub mod Rate
pub mod Waiting
mod Tests
use linux_simulation.Base.{
  ℕ, zero, suc, ◌+◌, ◌-◌, ◌*◌, ◌%◌, ◌^◌, Bool, true, false, Option, none, some, List, [], ◌∷◌, ◌++◌,
  ◌==◌, ltb, if◌then◌else◌, bit_and, bit_or, minus_one,
}
use linux_simulation.Pic.{Pic, PortWrite, enable_irq, send_eoi}

pub record Rtc : Type 0 where
  pub rtc_interrupt_occured : ℕ
  pub writes : List PortWrite
  pub pic : Pic

abbrev pub rtc_port1 : ℕ
rtc_port1 = 0x70

abbrev pub rtc_port2 : ℕ
rtc_port2 = 0x71

abbrev pub emit : Rtc → List PortWrite → Rtc
emit r ws = record r { writes = r.writes ++ ws }

unfoldable pub rtc_init : Rtc → ℕ → Rtc
rtc_init r prev = record r {
  writes = r.writes ++ ((0x8B, rtc_port1) ∷ (0x8B, rtc_port1) ∷ (bit_or prev 0x40, rtc_port2) ∷ []);
  pic = enable_irq (enable_irq r.pic 8) 2;
}

pub rtc_irq_handler : Rtc → Rtc
rtc_irq_handler r = record r {
  writes = r.writes ++ (0x8C, rtc_port1) ∷ [];
  rtc_interrupt_occured = 1;
  pic = send_eoi r.pic 8;
}

-- The writes that put a rate into the low half of register A, whose value was `prev`.
abbrev pub set_rate : ℕ → ℕ → List PortWrite
set_rate prev rate =
    (0x8A, rtc_port1) ∷ (0x8A, rtc_port1) ∷ (bit_or (bit_and prev 0xF0) rate, rtc_port2) ∷ []

unfoldable pub rtc_open : Rtc → ℕ → Rtc × ℕ
rtc_open r prev = (emit r (set_rate prev 15), 0)

abbrev pub error_mag : ℕ
error_mag = 0x4F2E

-- The `switch` of `rtc_write`.
pub rate_of : ℕ → ℕ
rate_of freq =
    if freq == 2
    then 15
    else if freq == 4
    then 14
    else if freq == 8
    then 13
    else if freq == 16
    then 12
    else if freq == 32
    then 11
    else if freq == 64
    then 10
    else if freq == 128
    then 9
    else if freq == 256
    then 8
    else if freq == 512
    then 7
    else if freq == 1024
    then 6
    else error_mag

-- `rtc_write` of the word `freq` that `buf` points at; `prev` is read only if the rate is known.
pub rtc_write : Rtc → ℕ → ℕ → Rtc × ℕ
rtc_write r freq prev =
    let rate = rate_of freq in
    if rate == error_mag then (r, minus_one) else (emit r (set_rate prev rate), 4)

-- What happens between two looks at the flag: nothing, or an interrupt of the clock.
pub data Event : Type 0 where
  quiet : Event
  interrupt : Event

-- `while(!rtc_interrupt_occured);` under a list of events; `none` if it still spins at their end.
-- The events that are left are handed out.
pub spin : Rtc → List Event → Option (Rtc × List Event)
spin r [] = if r.rtc_interrupt_occured == 0 then none else some (r, [])
spin r (quiet ∷ es) =
    let rest = spin r es in if r.rtc_interrupt_occured == 0 then rest else some (r, quiet ∷ es)
spin r (interrupt ∷ es) =
    let rest = spin (rtc_irq_handler r) es in
    if r.rtc_interrupt_occured == 0 then rest else some (r, interrupt ∷ es)

pub rtc_read : Rtc → List Event → Option (Rtc × List Event)
rtc_read r es = spin (record r { rtc_interrupt_occured = 0 }) es

abbrev pub rtc_close : ℕ
rtc_close = 0

-- `for(i=0;i<count;i++) temp = temp * 2;` of `change_freq`, on an `int32_t`.
unfoldable pub double_times : ℕ → ℕ → ℕ
double_times zero temp = temp
double_times (suc left) temp = double_times left (temp * 2 % 2 ^ 32)

-- `change_freq` of a byte. The loop's variable is an `int8_t`, which never reaches a count of 128 or
-- more; such a loop does not end, and is `none`.
unfoldable pub change_freq : Rtc → ℕ → ℕ → Option Rtc
change_freq r count prev =
    if ltb 127 count then none else some (rtc_write r (double_times count 2) prev).0
