-- ===== src/Types/Divide/Scale.antt =====
-- The two loops of DivideAndMod64by32: what each leaves, and that its fuel is enough.
use storm_os.Base.{
  leb, ==_ne, Bool-cases, ℕ, zero, suc, ◌+◌, ◌-◌, ◌*◌, ◌/◌, ◌%◌, ◌^◌, ◌≤◌, ◌<◌, ◌≡◌, refl, inl, inr,
  true, false, some, arith,
}
use native.Mathlib.Decide.{dec_lt}
use native.Mathlib.Nat.{pow-suc, one-le-pow, pow-le-pow_right, mod-eq_of_lt}
use storm_os.Types.Divide.{u64_mod, Division, grows, scale_up, subtract_step, scale_down}

pow2_suc : (k : ℕ) → 2 ^ suc k ≡ 2 ^ k + 2 ^ k
pow2_suc k = rw pow-suc (omega arith)

base-mul-pow2_suc : (base k : ℕ) → base * 2 ^ suc k ≡ base * 2 ^ k + base * 2 ^ k
base-mul-pow2_suc base k = rw pow2_suc (omega arith)

-- `b` is `base` shifted left by `k` bits, and `d` is the weight of that bit.
pub record IsScaled (base k : ℕ) (s : Division) : Type 0 where
  pub b_eq : s.b ≡ base * 2 ^ k
  pub d_eq : s.d ≡ 2 ^ k
  pub fits : s.b < u64_mod

pub record Scaled (base : ℕ) (s t : Division) : Type 0 where
  pub shift : ℕ
  pub scaled : IsScaled base shift t
  pub above : t.rem < t.b + t.b
  pub same_rem : t.rem ≡ s.rem
  pub same_res : t.res ≡ s.res

pow2-le : (base k : ℕ) → 0 < base → 2 ^ k ≤ base * 2 ^ k
pow2-le base k h = grind arith

pow2_pos : (k : ℕ) → 0 < 2 ^ k
pow2_pos k = one-le-pow k 2 (omega arith)

-- A word that the base has been shifted into bounds the shift.
pub IsScaled-small : (base k : ℕ) {s : Division} → 0 < base → IsScaled base k s → k < 64
IsScaled-small base k {s} positive h = elim (dec_lt k 64) [
  | yes p ↦ p
  | no p ↦ absurd (
      omega (
        arith,
        pow2-le base k positive,
        pow-le-pow_right {n = 2} (omega arith) {i = 64} {j = k} (omega arith),
        h.b_eq,
        h.fits,
      ))
]

double : Division → Division
double s = record s { b = (s.b + s.b) % u64_mod; d = (s.d + s.d) % u64_mod }

double-IsScaled :
    (base k : ℕ) (s : Division)
    → 0 < base
    → IsScaled base k s
    → grows s ≡ true
    → IsScaled base (suc k) (double s)
unfolding double
double-IsScaled base k s positive h more =
    let half : s.b < 2 ^ 63 = ground arith in
    record {
      b_eq = omega (arith, base-mul-pow2_suc base k, h.b_eq);
      d_eq = omega (arith, pow2_suc k, h.d_eq, pow2-le base k positive, h.b_eq);
      fits = omega arith;
    }

grows-false_above :
    (base k : ℕ) (s : Division)
    → 0 < base
    → IsScaled base k s
    → s.rem < u64_mod
    → grows s ≡ false
    → s.rem < s.b + s.b
grows-false_above base k s positive h r done =
    let some_bit : 0 < s.b = omega (arith, h.b_eq, pow2-le base k positive, pow2_pos k) in
    ground arith

pub scale_up-Scaled :
    (fuel base k : ℕ) (s : Division)
    → 0 < base
    → 63 < fuel + k
    → IsScaled base k s
    → s.rem < u64_mod
    → (t : Division) × (scale_up fuel s ≡ some t) × Scaled base s t
unfolding scale_up double
scale_up-Scaled zero base k s positive f h r =
    absurd (omega (arith, IsScaled-small base k positive h))
scale_up-Scaled (suc fuel) base k s positive f h r = elim (Bool-cases (grows s)) [
  | inl more ↦
      let (t, e, good) =
        scale_up-Scaled fuel base (suc k) (double s) positive (omega arith)
          (double-IsScaled base k s positive h more) r in
      (
        t,
        rw more e,
        record {
          shift = good.shift;
          scaled = good.scaled;
          above = good.above;
          same_rem = good.same_rem;
          same_res = good.same_res;
        },
      )
  | inr done ↦ (
    s,
    rw done,
    record {
      shift = k;
      scaled = h;
      above = grows-false_above base k s positive h r done;
      same_rem = refl;
      same_res = refl;
    },
  )
]

-- What is divided is the quotient so far, times the base, and what remains.
pub record Owes (n base k : ℕ) (s : Division) : Type 0 where
  pub scaled : IsScaled base k s
  pub above : s.rem < s.b + s.b
  pub total : s.res * base + s.rem ≡ n

-- the last round has been made
pub record Divided (n base : ℕ) (t : Division) : Type 0 where
  pub total : t.res * base + t.rem ≡ n
  pub small : t.rem < base

res-add-d :
    (n base k : ℕ) (s : Division)
    → 0 < base
    → Owes n base k s
    → s.b ≤ s.rem
    → n < u64_mod
    → ((s.res + s.d) * base + (s.rem - s.b) ≡ n) × (s.res + s.d < u64_mod)
res-add-d n base k s positive o le small = (moved, omega (arith, moved, at_least))
  where
    moved : (s.res + s.d) * base + (s.rem - s.b) ≡ n
    moved = rw o.scaled.d_eq (omega (arith, o.scaled.b_eq, o.total))

    at_least : s.res + s.d ≤ (s.res + s.d) * base
    at_least = grind arith

half-IsScaled :
    (base k : ℕ) {s t : Division}
    → IsScaled base (suc k) s
    → t.b ≡ s.b / 2
    → t.d ≡ s.d / 2
    → IsScaled base k t
half-IsScaled base k h eb ed = record {
  b_eq = omega (arith, eb, h.b_eq, base-mul-pow2_suc base k);
  d_eq = omega (arith, ed, h.d_eq, pow2_suc k);
  fits = omega (arith, eb, h.fits);
}

subtract_step-Owes :
    (n base k : ℕ) (s : Division)
    → 0 < base
    → n < u64_mod
    → Owes n base (suc k) s
    → Owes n base k (subtract_step s)
unfolding subtract_step
subtract_step-Owes n base k s positive small o = elim (Bool-cases (leb s.b s.rem)) [
  | inl le ↦
      let le' : s.b ≤ s.rem = ground arith in
      let (total, fits) = res-add-d n base (suc k) s positive o le' small in
      rw le (record {
        scaled = half-IsScaled base k o.scaled refl refl;
        above = omega (arith, o.above, halved);
        total = rw (mod-eq_of_lt fits) total;
      })
  | inr lt ↦
      let lt' : s.rem < s.b = ground arith in
      rw lt (record {
        scaled = half-IsScaled base k o.scaled refl refl;
        above = omega (arith, halved);
        total = o.total;
      })
]
  where
    halved : s.b ≡ s.b / 2 + s.b / 2
    halved = omega (arith, o.scaled.b_eq, base-mul-pow2_suc base k)

subtract_step-Divided :
    (n base : ℕ) (s : Division)
    → 0 < base
    → n < u64_mod
    → Owes n base 0 s
    → Divided n base (subtract_step s) × ((subtract_step s).d ≡ 0)
unfolding subtract_step
subtract_step-Divided n base s positive small o = elim (Bool-cases (leb s.b s.rem)) [
  | inl le ↦
      let le' : s.b ≤ s.rem = ground arith in
      let (total, fits) = res-add-d n base 0 s positive o le' small in
      rw le (
        record { total = rw (mod-eq_of_lt fits) total; small = omega (arith, o.above, unscaled) },
        omega (arith, o.scaled.d_eq),
      )
  | inr lt ↦
      let lt' : s.rem < s.b = ground arith in
      rw lt
        (record { total = o.total; small = omega (arith, unscaled) }, omega (arith, o.scaled.d_eq))
]
  where
    unscaled : s.b ≡ base
    unscaled = omega (arith, o.scaled.b_eq)

pub scale_down-Divided :
    (fuel n base k : ℕ) (s : Division)
    → 0 < base
    → n < u64_mod
    → k < fuel
    → Owes n base k s
    → (t : Division) × (scale_down fuel s ≡ some t) × Divided n base t
unfolding scale_down
scale_down-Divided zero n base k s positive small f o = absurd (omega arith)
scale_down-Divided (suc fuel) n base zero s positive small f o =
    let (good, last) = subtract_step-Divided n base s positive small o in
    (subtract_step s, rw last, good)
scale_down-Divided (suc fuel) n base (suc k) s positive small f o =
    let o' = subtract_step-Owes n base k s positive small o in
    let (t, e, good) =
      scale_down-Divided fuel n base k (subtract_step s) positive small (omega arith) o' in
    (t, rw (==_ne (subtract_step s).d 0 (omega (arith, o'.scaled.d_eq, pow2_pos k))) e, good)
