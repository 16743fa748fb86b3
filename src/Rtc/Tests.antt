-- ===== src/Rtc/Tests.antt =====
-- The theorems on student-distrib/rtc.c at a frequency and at a number of quiet events.
use linux_simulation.Base.{
  ℕ, ◌-◌, ◌*◌, ◌/◌, ◌%◌, ◌^◌, ◌≤◌, ◌≡◌, ◌≢◌, ◌⊎◌, some, none, [], ◌∷◌, arith, minus_one,
}
use linux_simulation.Rtc.{
  Rtc, quiet, interrupt, emit, rtc_port1, rtc_port2, rtc_irq_handler, rtc_read, rtc_write,
}
use linux_simulation.Rtc.Rate.{rtc_write-rate}
use linux_simulation.Rtc.Waiting.{rtc_read_waits}

abbrev clock : Rtc
clock = record {
  rtc_interrupt_occured = 1;
  writes = [];
  pic = record { master_mask = 0; slave_mask = 0; writes = [] };
}

rtc_write-rate_example :
    ((k : ℕ) × (rate : ℕ) × (value : ℕ) × (1 ≤ k)
      × (k ≤ 10)
      × (1024 ≡ 2 ^ k)
      × (rtc_write clock 1024 38
          ≡ (emit clock ((0x8A, rtc_port1) ∷ (0x8A, rtc_port1) ∷ (value, rtc_port2) ∷ []), 4))
      × (value / 16 ≡ 38 / 16)
      × (value % 16 ≡ rate)
      × (1024 * 2 ^ (rate - 1) ≡ 32768))
    ⊎ (((k : ℕ) → 1 ≤ k → k ≤ 10 → 1024 ≢ 2 ^ k) × (rtc_write clock 1024 38 ≡ (clock, minus_one)))
rtc_write-rate_example = rtc_write-rate clock 1024 38 (omega arith)

rtc_read_waits_example :
    (rtc_read clock (quiet ∷ quiet ∷ interrupt ∷ quiet ∷ [])
      ≡ some (rtc_irq_handler (record clock { rtc_interrupt_occured = 0 }), quiet ∷ []))
    × (rtc_read clock (quiet ∷ quiet ∷ []) ≡ none)
rtc_read_waits_example = rtc_read_waits 2 clock (quiet ∷ [])
