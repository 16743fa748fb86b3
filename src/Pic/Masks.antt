-- ===== src/Pic/Masks.antt =====
-- What the masks say of each interrupt line.
use linux_simulation.Base.{
  ℕ, ◌+◌, ◌-◌, ◌/◌, ◌%◌, ◌^◌, ◌≤◌, ◌<◌, ◌≡◌, inl, inr, refl, ◌∙◌, ◌==◌, arith, [], ◌∷◌, ◌++◌, Bool,
  true, false, Bool-cases, ltb, if◌then◌else◌, ◌&&◌, bit_and, bit_or,
}
use linux_simulation.Base.Bits.{all_below, all_below_sound}
use linux_simulation.Pic.{
  Pic, shift_mask, enable_irq, disable_irq, master_8259_port, slave_8259_port,
}

-- Both masks are bytes.
pub record IsPic (p : Pic) : Type 0 where
  pub master : p.master_mask < 256
  pub slave : p.slave_mask < 256

-- Bit `i` of a byte.
abbrev pub bit : ℕ → ℕ → ℕ
bit m i = m / 2 ^ i % 2

-- Is the line masked? Lines 0 to 7 are the master's, 8 to 15 the slave's.
abbrev pub masked : Pic → ℕ → ℕ
masked p irq = if ltb irq 8 then bit p.master_mask irq else bit p.slave_mask (irq - 8)

-- What changing bit `n` of the mask `m` has to do to bit `i`.
abbrev enabled : ℕ → ℕ → ℕ → Bool
enabled n i m =
    bit (bit_and m (255 - shift_mask n 1)) i == (if i == n then 0 else bit m i)
    && ltb (bit_and m (255 - shift_mask n 1)) 256

abbrev disabled : ℕ → ℕ → ℕ → Bool
disabled n i m =
    bit (bit_or m (shift_mask n 1)) i == (if i == n then 1 else bit m i)
    && ltb (bit_or m (shift_mask n 1)) 256

-- On all bytes, all bits to change and all bits to look at.
enable_bits : all_below 8 (λ n. all_below 8 (λ i. all_below 256 (enabled n i))) ≡ true
unfolding all_below shift_mask
enable_bits = refl

disable_bits : all_below 8 (λ n. all_below 8 (λ i. all_below 256 (disabled n i))) ≡ true
unfolding all_below shift_mask
disable_bits = refl

module _ (n i m : ℕ) (hn : n < 8) (hi : i < 8) (hm : m < 256) where
  enabled_at : enabled n i m ≡ true
  enabled_at =
      all_below_sound 256 (enabled n i) m
        (all_below_sound 8 (λ i. all_below 256 (enabled n i)) i
          (all_below_sound 8 (λ n. all_below 8 (λ i. all_below 256 (enabled n i))) n enable_bits hn)
          hi)
        hm

  disabled_at : disabled n i m ≡ true
  disabled_at =
      all_below_sound 256 (disabled n i) m
        (all_below_sound 8 (λ i. all_below 256 (disabled n i)) i
          (all_below_sound 8 (λ n. all_below 8 (λ i. all_below 256 (disabled n i))) n disable_bits
            hn)
          hi)
        hm

  bit-enable : bit (bit_and m (255 - shift_mask n 1)) i ≡ (if i == n then 0 else bit m i)
  bit-enable = let e = enabled_at in ground arith

  enable-lt : bit_and m (255 - shift_mask n 1) < 256
  enable-lt = let e = enabled_at in ground arith

  bit-disable : bit (bit_or m (shift_mask n 1)) i ≡ (if i == n then 1 else bit m i)
  bit-disable = let e = disabled_at in ground arith

  disable-lt : bit_or m (shift_mask n 1) < 256
  disable-lt = let e = disabled_at in ground arith

module _ (p : Pic) (v : IsPic p) (irq : ℕ) (h : irq ≤ 15) where
  -- The mask that holds the line is written to its controller.
  abbrev pub last_write : Pic → ℕ × ℕ
  last_write q =
      if ltb irq 8
      then (q.master_mask, master_8259_port + 1)
      else (q.slave_mask, slave_8259_port + 1)

  -- `enable_irq` unmasks exactly the line that it is given, of all sixteen, keeps both masks bytes,
  -- and writes the mask that it changed to that controller's data port.
  pub enable_irq-masked :
      (j : ℕ)
      → j ≤ 15
      → (masked (enable_irq p irq) j ≡ (if j == irq then 0 else masked p j))
        × IsPic (enable_irq p irq)
        × ((enable_irq p irq).writes ≡ p.writes ++ last_write (enable_irq p irq) ∷ [])
  unfolding enable_irq
  enable_irq-masked j hj =
      let m = v.master in
      let s = v.slave in
      let valid : ltb 15 irq ≡ false = ground arith in
      elim (Bool-cases (ltb irq 8)) [
        | inl low ↦
            let b : irq < 8 = ground arith in
            let lt = enable-lt irq 0 p.master_mask b (omega arith) m in
            rw (valid, low)
              (
                elim (Bool-cases (ltb j 8)) [
                  | inl jl ↦ rw jl (bit-enable irq j p.master_mask b (ground arith) m)
                  | inr jh ↦ let ne : (j == irq) ≡ false = ground arith in rw (jh, ne)
                ],
                record { master = lt; slave = s },
                refl,
              )
        | inr high ↦
            let b : irq - 8 < 8 = ground arith in
            let lt = enable-lt (irq - 8) 0 p.slave_mask b (omega arith) s in
            rw (valid, high)
              (
                elim (Bool-cases (ltb j 8)) [
                  | inl jl ↦ let ne : (j == irq) ≡ false = ground arith in rw (jl, ne)
                  | inr jh ↦
                      let same : (j - 8 == irq - 8) ≡ (j == irq) = ground arith in
                      rw jh (bit-enable (irq - 8) (j - 8) p.slave_mask b (omega arith) s ∙ rw same)
                ],
                record { master = m; slave = lt },
                refl,
              )
      ]

  -- `disable_irq` masks exactly the line that it is given, in the same way.
  disable_irq-masked :
      (j : ℕ)
      → j ≤ 15
      → (masked (disable_irq p irq) j ≡ (if j == irq then 1 else masked p j))
        × IsPic (disable_irq p irq)
        × ((disable_irq p irq).writes ≡ p.writes ++ last_write (disable_irq p irq) ∷ [])
  unfolding disable_irq
  disable_irq-masked j hj =
      let m = v.master in
      let s = v.slave in
      let valid : ltb 15 irq ≡ false = ground arith in
      elim (Bool-cases (ltb irq 8)) [
        | inl low ↦
            let b : irq < 8 = ground arith in
            let lt = disable-lt irq 0 p.master_mask b (omega arith) m in
            rw (valid, low)
              (
                elim (Bool-cases (ltb j 8)) [
                  | inl jl ↦ rw jl (bit-disable irq j p.master_mask b (ground arith) m)
                  | inr jh ↦ let ne : (j == irq) ≡ false = ground arith in rw (jh, ne)
                ],
                record { master = lt; slave = s },
                refl,
              )
        | inr high ↦
            let b : irq - 8 < 8 = ground arith in
            let lt = disable-lt (irq - 8) 0 p.slave_mask b (omega arith) s in
            rw (valid, high)
              (
                elim (Bool-cases (ltb j 8)) [
                  | inl jl ↦ let ne : (j == irq) ≡ false = ground arith in rw (jl, ne)
                  | inr jh ↦
                      let same : (j - 8 == irq - 8) ≡ (j == irq) = ground arith in
                      rw jh (bit-disable (irq - 8) (j - 8) p.slave_mask b (omega arith) s ∙ rw same)
                ],
                record { master = m; slave = lt },
                refl,
              )
      ]
