-- ===== src/Rtc/Rate.antt =====
-- `rtc_write` sets the frequency that it is asked for.
use linux_simulation.Base.{
  ℕ, ◌-◌, ◌*◌, ◌/◌, ◌%◌, ◌^◌, ◌≤◌, ◌<◌, ◌≡◌, ◌≢◌, ◌⊎◌, inl, inr, refl, ◌==◌, arith, [], ◌∷◌, Bool,
  true, Bool-cases, ◌&&◌, ◌||◌, bit_and, bit_or, minus_one,
}
use linux_simulation.Base.Bits.{all_below, all_below_sound}
use linux_simulation.Rtc.{Rtc, emit, rtc_port1, rtc_port2, rate_of, rtc_write, error_mag}

-- Register A with the rate `rate`, of a register that held `prev`.
abbrev pub register_a : ℕ → ℕ → ℕ
register_a prev rate = bit_or (bit_and prev 0xF0) rate

abbrev halves : ℕ → ℕ → Bool
halves rate prev = register_a prev rate / 16 == prev / 16 && register_a prev rate % 16 == rate

halves_table : all_below 16 (λ rate. all_below 256 (halves rate)) ≡ true
unfolding all_below
halves_table = refl

register_a_halves :
    (prev rate : ℕ)
    → prev < 256
    → rate < 16
    → (register_a prev rate / 16 ≡ prev / 16) × (register_a prev rate % 16 ≡ rate)
register_a_halves prev rate hp hr =
    let t =
      all_below_sound 256 (halves rate) prev
        (all_below_sound 16 (λ r. all_below 256 (halves r)) rate halves_table hr) hp in
    (ground arith, ground arith)

-- The rates of the chip: 32768 / 2 ^ (rate - 1) interrupts a second.
rate_of_known :
    (freq : ℕ)
    → rate_of freq ≢ error_mag
    → (6 ≤ rate_of freq)
      × (rate_of freq ≤ 15)
      × (freq * 2 ^ (rate_of freq - 1) ≡ 32768)
      × (freq ≡ 2 ^ (16 - rate_of freq))
unfolding rate_of
rate_of_known freq h = (ground arith, ground arith, ground arith, ground arith)

powers_table : all_below 11 (λ k. k == 0 || rate_of (2 ^ k) == 16 - k) ≡ true
unfolding all_below rate_of
powers_table = refl

rate_of_power : (k : ℕ) → 1 ≤ k → k ≤ 10 → rate_of (2 ^ k) ≡ 16 - k
rate_of_power k lo hi =
    let t =
      all_below_sound 11 (λ k. k == 0 || rate_of (2 ^ k) == 16 - k) k powers_table (omega arith) in
    ground arith

-- `rtc_write` accepts exactly the frequencies 2, 4, ..., 1024: it then returns 4, having written a
-- rate that stands for the frequency, 32768 / 2 ^ (rate - 1), into the low half of register A, whose
-- high half stays. For any other frequency it returns -1 and writes nothing.
pub rtc_write-rate :
    (r : Rtc) (freq prev : ℕ)
    → prev < 256
    → ((k : ℕ) × (rate : ℕ) × (value : ℕ) × (1 ≤ k)
        × (k ≤ 10)
        × (freq ≡ 2 ^ k)
        × (rtc_write r freq prev
            ≡ (emit r ((0x8A, rtc_port1) ∷ (0x8A, rtc_port1) ∷ (value, rtc_port2) ∷ []), 4))
        × (value / 16 ≡ prev / 16)
        × (value % 16 ≡ rate)
        × (freq * 2 ^ (rate - 1) ≡ 32768))
      ⊎ (((k : ℕ) → 1 ≤ k → k ≤ 10 → freq ≢ 2 ^ k) × (rtc_write r freq prev ≡ (r, minus_one)))
unfolding rtc_write
rtc_write-rate r freq prev hp = elim (Bool-cases (rate_of freq == error_mag)) [
  | inl unknown ↦ inr (
    λ k lo hi e.
        let q = rate_of_power k lo hi in let p : rate_of freq ≡ 16 - k = rw e q in ground arith,
    rw unknown,
  )
  | inr known ↦
      let (lo, hi, eq, power) = rate_of_known freq (ground arith) in
      let (high, low) = register_a_halves prev (rate_of freq) hp (omega arith) in
      inl (
        16 - rate_of freq,
        rate_of freq,
        register_a prev (rate_of freq),
        omega arith,
        omega arith,
        power,
        rw known,
        high,
        low,
        eq,
      )
]
