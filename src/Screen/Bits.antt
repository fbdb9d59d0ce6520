-- ===== src/Screen/Bits.antt =====
-- The binary digits of `bit_and` and `bit_or`.
use Prim.Native.Nat.{min, max, bit_and, bit_or, digits, bit_and-bitwise, bit_or-bitwise}
use storm_os.Base.{
  ℕ, zero, suc, ◌+◌, ◌-◌, ◌*◌, ◌/◌, ◌%◌, ◌^◌, ◌≤◌, ◌<◌, ◌≡◌, refl, sym, ap, ◌∙◌, arith,
}
use native.Mathlib.Nat.{two-pow-succ}
use storm_os.Screen.Reverse.{reverse_bits, reverse_bits_lem, reversed}

-- The digit of 2 ^ n.
abbrev pub bit : ℕ → ℕ → ℕ
bit zero a = a % 2
bit (suc n) a = bit n (a / 2)

pub bit_small : (n a : ℕ) → bit n a < 2
bit_small zero a = omega arith
bit_small (suc n) a = bit_small n (a / 2)

pub bit_zero : (n : ℕ) → bit n 0 ≡ 0
bit_zero zero = refl
bit_zero (suc n) = bit_zero n

-- An operation on digits gives the digits of what it makes of two numbers.
module _ (z : ℕ → ℕ) (f : ℕ → ℕ → ℕ) (ended : (k b : ℕ) → bit k (z b) ≡ f 0 (bit k b))
    (small : (x y : ℕ) → x < 2 → y < 2 → f x y < 2) where
  bit-ended : (k b : ℕ) → bit k (z b) ≡ f (bit k 0) (bit k b)
  bit-ended k b = ended k b ∙ ap (λ x. f x (bit k b)) (sym (bit_zero k))

  bit-digits : (k count a b : ℕ) → a ≤ count → bit k (digits z f count a b) ≡ f (bit k a) (bit k b)
  bit-digits k zero zero b h = bit-ended k b
  bit-digits k zero (suc a) b h = absurd (omega arith)
  bit-digits k (suc count) zero b h = bit-ended k b
  bit-digits zero (suc count) (suc a) b h =
      omega (arith, small (suc a % 2) (b % 2) (omega arith) (omega arith))
  bit-digits (suc k) (suc count) (suc a) b h =
      let high = digits z f count (suc a / 2) (b / 2) in
      let half : (high * 2 + f (suc a % 2) (b % 2)) / 2 ≡ high =
        omega (arith, small (suc a % 2) (b % 2) (omega arith) (omega arith)) in
      ap (bit k) half ∙ bit-digits k count (suc a / 2) (b / 2) (omega arith)

pub bit-bit_and : (n a b : ℕ) → bit n (bit_and a b) ≡ min (bit n a) (bit n b)
bit-bit_and n a b =
    ap (bit n) (bit_and-bitwise a b)
    ∙ bit-digits (λ y. zero) min (λ k y. omega (arith, bit_zero k)) (λ x y p q. ground arith) n a a
        b (omega arith)

pub bit-bit_or : (n a b : ℕ) → bit n (bit_or a b) ≡ max (bit n a) (bit n b)
bit-bit_or n a b =
    ap (bit n) (bit_or-bitwise a b)
    ∙ bit-digits (λ y. y) max (λ k y. omega arith) (λ x y p q. ground arith) n a a b (omega arith)

complement : (m n r : ℕ) → n < m → r < 2 ^ m → bit n (2 ^ m - 1 - r) ≡ 1 - bit n r
complement zero n r hn h = absurd (omega (arith, hn))
complement (suc m) zero r hn h = omega (arith, two-pow-succ m)
complement (suc m) (suc n) r hn h =
    let half : (2 ^ suc m - 1 - r) / 2 ≡ 2 ^ m - 1 - r / 2 = omega (arith, two-pow-succ m) in
    ap (bit n) half ∙ complement m n (r / 2) (omega arith) (omega (arith, two-pow-succ m))

pub bit_complement : (n r : ℕ) → n < 8 → r < 256 → bit n (0xff - r) ≡ 1 - bit n r
bit_complement n r hn h = complement 8 n r hn h

pub bit_full : (n : ℕ) → n < 8 → bit n 0xff ≡ 1
bit_full n h = bit_complement n 0 h (omega arith) ∙ ap (λ b. 1 - b) (bit_zero n)

abbrev pub below_eight :
    (P : ℕ → Type 0) → P 0 → P 1 → P 2 → P 3 → P 4 → P 5 → P 6 → P 7 → (n : ℕ) → n < 8 → P n
below_eight P a b c d e f g h zero _ = a
below_eight P a b c d e f g h (suc zero) _ = b
below_eight P a b c d e f g h (suc (suc zero)) _ = c
below_eight P a b c d e f g h (suc (suc (suc zero))) _ = d
below_eight P a b c d e f g h (suc (suc (suc (suc zero)))) _ = e
below_eight P a b c d e f g h (suc (suc (suc (suc (suc zero))))) _ = f
below_eight P a b c d e f g h (suc (suc (suc (suc (suc (suc zero)))))) _ = g
below_eight P a b c d e f g h (suc (suc (suc (suc (suc (suc (suc zero))))))) _ = h
below_eight P a b c d e f g h (suc (suc (suc (suc (suc (suc (suc (suc n)))))))) lt =
    absurd (omega (arith, lt))

pub bit-reverse_bits : (b x : ℕ) → b < 2 ^ 8 → x < 8 → bit (7 - x) (reverse_bits b) ≡ bit x b
bit-reverse_bits b x h = rw (reverse_bits_lem b h) (
    below_eight (λ x. bit (7 - x) (reversed 8 b) ≡ bit x b) (omega arith) (omega arith)
      (omega arith) (omega arith) (omega arith) (omega arith) (omega arith) (omega arith) x)

pub reverse_bits_small : (b : ℕ) → b < 2 ^ 8 → reverse_bits b < 256
reverse_bits_small b h = rw (reverse_bits_lem b h) (omega arith)
