-- ===== src/Pic/Mask.antt =====
-- The mask of src/pic.c and what the controllers are told of it.
use storm_os.Base.{
  ℕ, ◌+◌, ◌-◌, ◌*◌, ◌/◌, ◌%◌, ◌^◌, ◌≤◌, ◌<◌, ◌≡◌, refl, ap, ◌∙◌, ◌≢◌, [], ◌∷◌, ◌++◌, arith,
}
use storm_os.Pic.{Pic, pic_enable, io_pic1, io_pic2}
use native.Mathlib.Decide.{ℕ_discrete, dec_lt}
use native.Mathlib.Nat.{mod-lt, one-le-pow, div-eq_of_lt, div-eq-sub-div}

-- The bit `i` of a number.
abbrev pub bit : ℕ → ℕ → ℕ
bit m i = m / 2 ^ i % 2

two_pos : 0 < 2
two_pos = omega arith

below_bit : (m p : ℕ) → m / p % 2 ≢ 0 → (m / p % 2 ≡ 1) × (p ≤ m)
below_bit m p ne = (
  omega (arith, mod-lt (m / p) two_pos),
  elim (dec_lt m p) [
    | yes small ↦ absurd (ne (ap (λ q. q % 2) (div-eq_of_lt small)))
    | no large ↦ omega (arith, large)
  ],
)

bit_off : (m p : ℕ) → 0 < p → (m - m / p % 2 * p) / p % 2 ≡ 0
bit_off m p positive = elim (ℕ_discrete (m / p % 2) 0) [
  | yes z ↦ ap (λ b. (m - b * p) / p % 2) z ∙ ap (λ n. n / p % 2) minus_zero ∙ z
  | no ne ↦
      let (one, le) = below_bit m p ne in
      let pred = div-eq-sub-div positive le in
      ap (λ b. (m - b * p) / p % 2) one ∙ ap (λ n. n / p % 2) minus_one ∙ omega (arith, one, pred)
]
  where
    minus_zero : m - 0 * p ≡ m
    minus_zero = omega arith

    minus_one : m - 1 * p ≡ m - p
    minus_one = omega arith

bit-split : (m p : ℕ) → m - m / p % 2 * p + m / p % 2 * p ≡ m
bit-split m p = elim (ℕ_discrete (m / p % 2) 0) [
  | yes z ↦ ap (λ b. m - b * p + b * p) z ∙ omega arith
  | no ne ↦ let (one, le) = below_bit m p ne in ap (λ b. m - b * p + b * p) one ∙ omega (arith, le)
]

-- pic_enable clears the bit of the interrupt in the mask and no other, and the last bytes that the
-- controllers get, the low one for the first, are those of the new mask.
pub pic_enable_lem :
    (irq : ℕ) (s : Pic)
    → (bit (pic_enable irq s).irqmask irq ≡ 0)
      × ((pic_enable irq s).irqmask + bit s.irqmask irq * 2 ^ irq ≡ s.irqmask)
      × ((pic_enable irq s).writes
          ≡ s.writes
            ++ (io_pic1 + 1, (pic_enable irq s).irqmask % 2 ^ 8)
              ∷ (io_pic2 + 1, (pic_enable irq s).irqmask / 2 ^ 8 % 2 ^ 8)
              ∷ [])
unfolding pic_enable
pic_enable_lem irq s =
    (bit_off s.irqmask (2 ^ irq) (one-le-pow irq 2 two_pos), bit-split s.irqmask (2 ^ irq), refl)
