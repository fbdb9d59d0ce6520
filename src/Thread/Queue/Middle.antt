-- ===== src/Thread/Queue/Middle.antt =====
-- Lists of distinct ids, taken apart and put together again.
use storm_os.Base.{
  Bool-cases, All, has, Distinct, has-append, ℕ, ◌<◌, ◌≡◌, inl, inr, true, false, List, [], ◌∷◌,
  ◌++◌, arith,
}

pub Distinct-split :
    (xs ys : List ℕ)
    → Distinct (xs ++ ys)
    → Distinct xs × Distinct ys × ((a : ℕ) → has a xs ≡ true → has a ys ≡ false)
Distinct-split [] ys d = (tt, d, λ a h. cc)
Distinct-split (x ∷ xs) ys d =
    let (dx, dy, apart) = Distinct-split xs ys d.1 in
    (
      (ground (arith, has-append x xs ys), dx),
      dy,
      λ a h. ground (arith, apart a, has-append x xs ys),
    )

pub Distinct-drop :
    (xs : List ℕ) (x : ℕ) (ys : List ℕ) → Distinct (xs ++ x ∷ ys) → Distinct (xs ++ ys)
Distinct-drop [] x ys d = d.1
Distinct-drop (z ∷ xs) x ys d =
    (ground (arith, has-append z xs (x ∷ ys), has-append z xs ys), Distinct-drop xs x ys d.1)

pub All-drop :
    (b : ℕ) (xs : List ℕ) (x : ℕ) (ys : List ℕ)
    → All (λ y. y < b) (xs ++ x ∷ ys)
    → All (λ y. y < b) (xs ++ ys)
All-drop b [] x ys h = h.1
All-drop b (z ∷ xs) x ys h = (h.0, All-drop b xs x ys h.1)

pub All-left : (b : ℕ) (xs ys : List ℕ) → All (λ y. y < b) (xs ++ ys) → All (λ y. y < b) xs
All-left b [] ys h = tt
All-left b (z ∷ xs) ys h = (h.0, All-left b xs ys h.1)

pub All-right : (b : ℕ) (xs ys : List ℕ) → All (λ y. y < b) (xs ++ ys) → All (λ y. y < b) ys
All-right b [] ys h = h
All-right b (z ∷ xs) ys h = All-right b xs ys h.1

-- The facts about the middle of a list of distinct ids.
pub record IsMiddle (xs : List ℕ) (x : ℕ) (ys : List ℕ) : Type 0 where
  pub left : Distinct xs
  pub right : Distinct ys
  pub not_left : has x xs ≡ false
  pub not_right : has x ys ≡ false
  pub apart : (a : ℕ) → has a xs ≡ true → has a ys ≡ false

pub Distinct-IsMiddle :
    (xs : List ℕ) (x : ℕ) (ys : List ℕ) → Distinct (xs ++ x ∷ ys) → IsMiddle xs x ys
Distinct-IsMiddle xs x ys d =
    let (dx, dy, apart) = Distinct-split xs (x ∷ ys) d in
    record {
      left = dx;
      right = dy.1;
      not_left = elim (Bool-cases (has x xs)) [
        | inl h ↦ absurd (ground (arith, apart x h))
        | inr h ↦ h
      ];
      not_right = dy.0;
      apart = λ a h. ground (arith, apart a h);
    }
