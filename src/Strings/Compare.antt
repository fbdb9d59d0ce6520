-- ===== src/Strings/Compare.antt =====
-- The comparisons of strings decide equality.
use mathlib.Core.List.{head-eq_of_cons-eq, tail-eq_of_cons-eq}
use native.Mathlib.Decide.{ℕ_discrete}
use storm_os.Base.{
  ==_eq, ==_ne, All, ℕ, zero, suc, ◌≡◌, refl, sym, ap, ◌∙◌, ◌≢◌, ◌↔◌, List, [], ◌∷◌, arith, pos,
}
use storm_os.Strings.{string_cmp, string_cmp_n, char_difference}

-- The bytes are those of a string.
abbrev pub IsString : List ℕ → Type 0
IsString = All (λ c. c ≢ 0)

abbrev pub take : ℕ → List ℕ → List ℕ
take zero xs = []
take (suc n) [] = []
take (suc n) (x ∷ xs) = x ∷ take n xs

char_difference-zero : (a b : ℕ) → char_difference a b ≡ pos 0 → a ≡ b
char_difference-zero a b h = ground arith

-- StringCmpN returns 0 exactly when the first `size` characters agree.
pub string_cmp_n_lem :
    (xs ys : List ℕ) (size : ℕ)
    → IsString xs
    → IsString ys
    → (string_cmp_n xs ys size ≡ pos 0) ↔ (take size xs ≡ take size ys)
unfolding string_cmp_n
string_cmp_n_lem xs ys zero sx sy = (λ h. refl, λ h. refl)
string_cmp_n_lem [] [] (suc size) sx sy = (λ h. refl, λ h. refl)
string_cmp_n_lem [] (y ∷ ys) (suc size) sx (ny, sy) =
    (λ h. absurd (ny (sym (char_difference-zero 0 y h))), λ h. absurd (ground (arith, h)))
string_cmp_n_lem (x ∷ xs) [] (suc size) (nx, sx) sy =
    (λ h. absurd (nx (char_difference-zero x 0 h)), λ h. absurd (ground (arith, h)))
string_cmp_n_lem (x ∷ xs) (y ∷ ys) (suc size) (nx, sx) (ny, sy) =
    let ih = string_cmp_n_lem xs ys size sx sy in
    elim (ℕ_discrete x y) [
      | yes e ↦ rw (==_eq x y e) (
        λ h. ap (λ c. c ∷ take size xs) e ∙ ap (λ cs. y ∷ cs) (ih.0 h),
        λ h. ih.1 (tail-eq_of_cons-eq h),
      )
      | no ne ↦
          rw (==_ne x y ne)
            (λ h. absurd (ne (char_difference-zero x y h)), λ h. absurd (ne (head-eq_of_cons-eq h)))
    ]

-- StringCmp returns 0 exactly when the strings are equal.
pub string_cmp_lem :
    (xs ys : List ℕ) → IsString xs → IsString ys → (string_cmp xs ys ≡ pos 0) ↔ (xs ≡ ys)
unfolding string_cmp
string_cmp_lem [] [] sx sy = (λ h. refl, λ h. refl)
string_cmp_lem [] (y ∷ ys) sx (ny, sy) =
    (λ h. absurd (ny (sym (char_difference-zero 0 y h))), λ h. absurd (ground (arith, h)))
string_cmp_lem (x ∷ xs) [] (nx, sx) sy =
    (λ h. absurd (nx (char_difference-zero x 0 h)), λ h. absurd (ground (arith, h)))
string_cmp_lem (x ∷ xs) (y ∷ ys) (nx, sx) (ny, sy) =
    let ih = string_cmp_lem xs ys sx sy in
    elim (ℕ_discrete x y) [
      | yes e ↦
          rw (==_eq x y e)
            (λ h. ap (λ c. c ∷ xs) e ∙ ap (λ cs. y ∷ cs) (ih.0 h), λ h. ih.1 (tail-eq_of_cons-eq h))
      | no ne ↦
          rw (==_ne x y ne)
            (λ h. absurd (ne (char_difference-zero x y h)), λ h. absurd (ne (head-eq_of_cons-eq h)))
    ]
