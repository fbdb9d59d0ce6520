-- ===== src/Base/Update.antt =====
-- Arrays as functions of the index, and a write at one index.
use Prim.Native.Nat.{ℕ, zero, suc}
use mathlib.Core.Path.{◌≡◌}
use mathlib.Core.Logic.{◌≢◌}
use native.Mathlib.Omega.{arith}
use storm_os.Base.Tests.{◌==◌, if◌then◌else◌, ltb, ltb-false}

module _ {ℓ} {A : Type ℓ} where
  abbrev pub update : (ℕ → A) → ℕ → A → ℕ → A
  update f i v j = if j == i then v else f j

  pub update_self : (f : ℕ → A) (i : ℕ) (v : A) → update f i v i ≡ v
  update_self f i v = ground arith

  pub update_ne : (f : ℕ → A) (i j : ℕ) (v : A) → j ≢ i → update f i v j ≡ f j
  update_ne f i j v h = ground arith

-- `for (i = 0; i < n; i++) s = body(i, s);`
unfoldable pub for_upto {ℓ} : {S : Type ℓ} → ℕ → (ℕ → S → S) → S → S
for_upto zero body s = s
for_upto (suc n) body s = body n (for_upto n body s)

-- A loop that writes `v i` at each `i` below `n`.
pub for_upto-update {ℓ} :
    {A : Type ℓ} (n : ℕ) (v : ℕ → A) (f : ℕ → A) (j : ℕ)
    → for_upto n (λ i g. update g i (v i)) f j ≡ (if ltb j n then v j else f j)
unfolding for_upto
for_upto-update zero v f j = rw (ltb-false j 0 (omega arith))
for_upto-update (suc n) v f j = ground (arith, for_upto-update n v f j)

-- A loop that changes the value at each `i` below `n`.
pub for_upto-modify {ℓ} :
    {A : Type ℓ} (n : ℕ) (v : ℕ → A → A) (f : ℕ → A) (j : ℕ)
    → for_upto n (λ i g. update g i (v i (g i))) f j ≡ (if ltb j n then v j (f j) else f j)
unfolding for_upto
for_upto-modify zero v f j = rw (ltb-false j 0 (omega arith))
for_upto-modify (suc n) v f j = ground (arith, for_upto-modify n v f j, for_upto-modify n v f n)
