-- ===== src/Thread/Queue/Links.antt =====
-- Segments of a doubly linked list in the TCB array.
use storm_os.Base.{==_ne, has, Distinct, ℕ, ◌≡◌, refl, ◌≢◌, true, false, List, [], ◌∷◌, ◌++◌, arith}
use storm_os.Thread.State.{Tcb, ThreadState, with_next, with_prev, with_state}

-- the first of a list, or what follows it
abbrev pub first_or : ℕ → List ℕ → ℕ
first_or e [] = e
first_or e (x ∷ xs) = x

-- the last of a list, or what precedes it
abbrev pub last_or : ℕ → List ℕ → ℕ
last_or p [] = p
last_or p (x ∷ xs) = last_or x xs

-- The TCBs `xs` are linked in order, behind `p` and before `e`.
abbrev pub Links : (ℕ → Tcb) → ℕ → List ℕ → ℕ → Type 0
Links f p [] e = Unit
Links f p (x ∷ xs) e = ((f x).prev ≡ p) × ((f x).next ≡ first_or e xs) × Links f x xs e

pub has-last : (x : ℕ) (xs : List ℕ) → has (last_or x xs) (x ∷ xs) ≡ true
has-last x [] = ground arith
has-last x (y ∷ ys) = ground (arith, has-last y ys)

pub last_or-append : (p : ℕ) (xs ys : List ℕ) → last_or p (xs ++ ys) ≡ last_or (last_or p xs) ys
last_or-append p [] ys = refl
last_or-append p (x ∷ xs) ys = last_or-append x xs ys

pub Links-append :
    (f : ℕ → Tcb) (p e : ℕ) (xs ys : List ℕ)
    → Links f p xs (first_or e ys)
    → Links f (last_or p xs) ys e
    → Links f p (xs ++ ys) e
Links-append f p e [] ys l m = m
Links-append f p e (x ∷ []) ys l m = (l.0, l.1, m)
Links-append f p e (x ∷ y ∷ xs) ys l m = (l.0, l.1, Links-append f x e (y ∷ xs) ys l.2 m)

pub Links-split :
    (f : ℕ → Tcb) (p e : ℕ) (xs ys : List ℕ)
    → Links f p (xs ++ ys) e
    → Links f p xs (first_or e ys) × Links f (last_or p xs) ys e
Links-split f p e [] ys l = (tt, l)
Links-split f p e (x ∷ []) ys l = ((l.0, l.1, tt), l.2)
Links-split f p e (x ∷ y ∷ xs) ys l =
    let (a, b) = Links-split f x e (y ∷ xs) ys l.2 in ((l.0, l.1, a), b)

module _ (f : ℕ → Tcb) where
  pub Links-with_next :
      (i v p e : ℕ) (xs : List ℕ)
      → has i xs ≡ false
      → Links f p xs e
      → Links (with_next f i v) p xs e
  Links-with_next i v p e [] out l = tt
  Links-with_next i v p e (x ∷ xs) out l =
      (ground arith, ground arith, Links-with_next i v x e xs (ground arith) l.2)

  pub Links-with_prev :
      (i v p e : ℕ) (xs : List ℕ)
      → has i xs ≡ false
      → Links f p xs e
      → Links (with_prev f i v) p xs e
  Links-with_prev i v p e [] out l = tt
  Links-with_prev i v p e (x ∷ xs) out l =
      (ground arith, ground arith, Links-with_prev i v x e xs (ground arith) l.2)

  pub Links-with_state :
      (i : ℕ) (v : ThreadState) (p e : ℕ) (xs : List ℕ)
      → Links f p xs e
      → Links (with_state f i v) p xs e
  Links-with_state i v p e [] l = tt
  Links-with_state i v p e (x ∷ xs) l =
      (ground arith, ground arith, Links-with_state i v x e xs l.2)

  -- Another TCB follows the last one.
  pub Links-retarget :
      (p e e' x : ℕ) (xs : List ℕ)
      → Distinct (x ∷ xs)
      → Links f p (x ∷ xs) e
      → Links (with_next f (last_or x xs) e') p (x ∷ xs) e'
  Links-retarget p e e' x [] d l = (ground arith, ground arith, tt)
  Links-retarget p e e' x (y ∷ ys) d l =
      let ne : x ≢ last_or y ys = λ same. ground (arith, has-last y ys) in
      let other = ==_ne x (last_or y ys) ne in
      (rw other l.0, rw other l.1, Links-retarget x e e' y ys d.1 l.2)

  -- Another TCB precedes the first one.
  pub Links-reprev :
      (p p' e x : ℕ) (xs : List ℕ)
      → Distinct (x ∷ xs)
      → Links f p (x ∷ xs) e
      → Links (with_prev f x p') p' (x ∷ xs) e
  Links-reprev p p' e x xs d l = (ground arith, ground arith, Links-with_prev x p' x e xs d.0 l.2)

  pub Links-one : (i p e : ℕ) → Links (with_next (with_prev f i p) i e) p (i ∷ []) e
  Links-one i p e = (ground arith, ground arith, tt)
