-- ===== src/Rtc/Waiting.antt =====
-- `rtc_read` waits for the next interrupt of the clock.
use linux_simulation.Base.{
  ℕ, zero, suc, ◌≡◌, refl, ◌==◌, List, [], ◌∷◌, ◌++◌, true, none, some, replicate,
}
use linux_simulation.Rtc.{Rtc, Event, quiet, interrupt, rtc_irq_handler, spin, rtc_read}

-- However long nothing happens, an interrupt ends the wait, and what comes behind it is not waited
-- for.
spin_ends :
    (n : ℕ) (r : Rtc) (es : List Event)
    → (r.rtc_interrupt_occured == 0) ≡ true
    → spin r (replicate n quiet ++ interrupt ∷ es) ≡ some (rtc_irq_handler r, es)
unfolding spin rtc_irq_handler
spin_ends zero r [] off = rw off refl
spin_ends zero r (quiet ∷ es) off = rw off refl
spin_ends zero r (interrupt ∷ es) off = rw off refl
spin_ends (suc n) r es off = rw off (spin_ends n r es off)

spin_waits :
    (n : ℕ) (r : Rtc) → (r.rtc_interrupt_occured == 0) ≡ true → spin r (replicate n quiet) ≡ none
unfolding spin
spin_waits zero r off = rw off
spin_waits (suc n) r off = rw off (spin_waits n r off)

-- `rtc_read` returns exactly with the next interrupt: after any number of quiet events an interrupt
-- ends it, handled once and with the later events still to come, and without one it waits on, also
-- if the flag was up when it was called.
pub rtc_read_waits :
    (n : ℕ) (r : Rtc) (es : List Event)
    → (rtc_read r (replicate n quiet ++ interrupt ∷ es)
        ≡ some (rtc_irq_handler (record r { rtc_interrupt_occured = 0 }), es))
      × (rtc_read r (replicate n quiet) ≡ none)
unfolding rtc_read
rtc_read_waits n r es = (spin_ends n _ es refl, spin_waits n _ refl)
