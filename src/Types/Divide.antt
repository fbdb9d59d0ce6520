-- ===== src/Types/Divide.antt =====
-- DivideAndMod64by32 of src/types.h. A division by zero, which traps, is `none`.
pub mod Correct
pub mod Scale
use storm_os.Base.{
  ltb, leb, ◌==◌, if◌then◌else◌, ℕ, zero, suc, ◌+◌, ◌-◌, ◌*◌, ◌/◌, ◌%◌, ◌^◌, Bool, ◌&&◌, Option,
  none, some,
}

abbrev pub u32_mod : ℕ
u32_mod = 2 ^ 32

abbrev pub u64_mod : ℕ
u64_mod = 2 ^ 64

-- the locals of the function
pub record Division : Type 0 where
  pub rem : ℕ
  pub b : ℕ
  pub res : ℕ
  pub d : ℕ

-- `(int64)b > 0 && b < rem`
abbrev pub grows : Division → Bool
grows s = ltb 0 s.b && ltb s.b (2 ^ 63) && ltb s.b s.rem

-- `while ((int64)b > 0 && b < rem) { b = b + b; d = d + d; }`
pub scale_up : ℕ → Division → Option Division
scale_up zero s = none
scale_up (suc fuel) s =
    let next = scale_up fuel (record s { b = (s.b + s.b) % u64_mod; d = (s.d + s.d) % u64_mod }) in
    if grows s then next else some s

-- one round of the `do` loop
pub subtract_step : Division → Division
subtract_step s =
    if leb s.b s.rem
    then record { rem = s.rem - s.b; b = s.b / 2; res = (s.res + s.d) % u64_mod; d = s.d / 2 }
    else record { rem = s.rem; b = s.b / 2; res = s.res; d = s.d / 2 }

-- `do { ... } while (d);`
pub scale_down : ℕ → Division → Option Division
scale_down zero s = none
scale_down (suc fuel) s =
    let next = scale_down fuel (subtract_step s) in
    if (subtract_step s).d == 0 then some (subtract_step s) else next

-- "Reduce the thing a bit first"
pub reduce : ℕ → ℕ → Division
reduce n base =
    let high = n / 2 ^ 32 % u32_mod in
    if leb base high
    then record {
      rem = (n + u64_mod - (high / base * base % u32_mod * 2 ^ 32) % u64_mod) % u64_mod;
      b = base;
      res = high / base * 2 ^ 32 % u64_mod;
      d = 1;
    }
    else record { rem = n; b = base; res = 0; d = 1 }

-- The quotient that is left in `*n`, and the remainder that is returned. 65 rounds are enough for
-- either loop: `b` and `d` double at most 64 times.
unfoldable pub divide_and_mod_64_by_32 : ℕ → ℕ → Option (ℕ × ℕ)
unfolding scale_up scale_down subtract_step reduce
divide_and_mod_64_by_32 n base = if base == 0 then none else elim (scale_up 65 (reduce n base)) [
  | none ↦ none
  | some s ↦ elim (scale_down 65 s) [ none ↦ none | some t ↦ some (t.res, t.rem % u32_mod) ]
]

unfoldable pub divide_64_by_32 : ℕ → ℕ → Option ℕ
divide_64_by_32 a b = elim (divide_and_mod_64_by_32 a b) [ none ↦ none | some (q, r) ↦ some q ]

unfoldable pub modulo_64_by_32 : ℕ → ℕ → Option ℕ
modulo_64_by_32 a b = elim (divide_and_mod_64_by_32 a b) [ none ↦ none | some (q, r) ↦ some r ]
