-- ===== src/Types/Divide/Correct.antt =====
-- DivideAndMod64by32 computes the quotient and the remainder.
use storm_os.Base.{
  leb, ==_ne, Bool-cases, ℕ, ◌+◌, ◌*◌, ◌/◌, ◌%◌, ◌^◌, ◌≤◌, ◌<◌, ◌≡◌, refl, ap, inl, inr, some,
  arith,
}
use native.Mathlib.Nat.{div-le_self, div-add-mod, mod-lt}
use storm_os.Types.Divide.{u32_mod, u64_mod, Division, reduce, divide_and_mod_64_by_32}
use storm_os.Types.Divide.Scale.{IsScaled, IsScaled-small, scale_up-Scaled, scale_down-Divided}

high-mul : (n base : ℕ) → 0 < base → (n / 2 ^ 32) / base * base ≤ n / 2 ^ 32
high-mul n base positive = omega (arith, div-add-mod (n / 2 ^ 32) base)

record Reduced (n base : ℕ) (s : Division) : Type 0 where
  scaled : IsScaled base 0 s
  small : s.rem < u64_mod
  total : s.res * base + s.rem ≡ n

reduce-Reduced :
    (n base : ℕ) → 0 < base → base < 2 ^ 32 → n < u64_mod → Reduced n base (reduce n base)
unfolding reduce
reduce-Reduced n base positive hb hn = elim (Bool-cases (leb base (n / 2 ^ 32 % u32_mod))) [
  | inl big ↦ rw big (record {
    scaled = unscaled;
    small = omega arith;
    total = rw (high_small, no_wrap, res_fits) (omega (arith, high-mul n base positive));
  })
  | inr fits ↦ rw fits (record { scaled = unscaled; small = hn; total = omega arith })
]
  where
    high_small : n / 2 ^ 32 % u32_mod ≡ n / 2 ^ 32
    high_small = omega arith

    no_wrap : n / 2 ^ 32 / base * base % u32_mod ≡ n / 2 ^ 32 / base * base
    no_wrap = omega (arith, high-mul n base positive)

    res_fits : n / 2 ^ 32 / base * 2 ^ 32 % u64_mod ≡ n / 2 ^ 32 / base * 2 ^ 32
    res_fits = omega (arith, div-le_self (n / 2 ^ 32) base)

    unscaled : {rem res : ℕ} → IsScaled base 0 (record { rem = rem; b = base; res = res; d = 1 })
    unscaled = record { b_eq = omega arith; d_eq = refl; fits = omega arith }

quotient_unique :
    (n base q r : ℕ) → q * base + r ≡ n → r < base → 0 < base → (q ≡ n / base) × (r ≡ n % base)
quotient_unique n base q r e h positive =
    (q_eq, omega (arith, div-add-mod n base, ap (λ (t : ℕ). t * base) q_eq))
  where
    q_eq : q ≡ n / base
    q_eq = grind (arith, div-add-mod n base, mod-lt n positive)

-- For a 64-bit number and a 32-bit base that is not 0, DivideAndMod64by32 ends, and yields the
-- quotient and the remainder.
pub divide_and_mod_64_by_32_lem :
    (n base : ℕ)
    → 0 < base
    → base < 2 ^ 32
    → n < u64_mod
    → divide_and_mod_64_by_32 n base ≡ some (n / base, n % base)
unfolding divide_and_mod_64_by_32
divide_and_mod_64_by_32_lem n base positive hb hn =
    let start = reduce-Reduced n base positive hb hn in
    let (t, up, scaled) =
      scale_up-Scaled 65 base 0 (reduce n base) positive (omega arith) start.scaled start.small in
    let (u, down, good) =
      scale_down-Divided 65 n base scaled.shift t positive hn
        (omega (arith, IsScaled-small base scaled.shift positive scaled.scaled))
        (record {
          scaled = scaled.scaled;
          above = scaled.above;
          total = rw (scaled.same_res, scaled.same_rem) start.total;
        }) in
    let (q, r) = quotient_unique n base u.res u.rem good.total good.small positive in
    let low : u.rem % u32_mod ≡ u.rem = omega (arith, good.small) in
    rw (==_ne base 0 (omega arith), up, down, low, q, r)
