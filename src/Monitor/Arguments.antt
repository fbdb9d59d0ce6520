-- ===== src/Monitor/Arguments.antt =====
-- The arguments that RunCommand has found, and the words they stand for.
use storm_os.Base.{
  ==_eq, ==_ne, Bool-cases, length, All, ℕ, zero, suc, ◌+◌, ◌≤◌, ◌<◌, ◌≡◌, refl, sym, ap, ◌∙◌, ◌⊎◌,
  inl, inr, false, List, [], ◌∷◌, ◌++◌, map, arith,
}
use storm_os.Printf.{until_zero}
use storm_os.Monitor.Parse.{is_space}
use storm_os.Monitor.Words.{drop_spaces, after_word}
use storm_os.Monitor.Loops.{Word}

pub Word-later :
    (w : List ℕ) (buf buf' : ℕ → ℕ) (i j a : ℕ)
    → i < j
    → ((x : ℕ) → x < i → buf' x ≡ buf x)
    → buf' i ≡ 0
    → Word buf i a w
    → Word buf' j a w
unfolding Word
Word-later [] buf buf' i j a h same end (inl e) = inr (omega (arith, e), ap buf' e ∙ end)
Word-later [] buf buf' i j a h same end (inr (lt, z)) = inr (omega (arith, lt), same a lt ∙ z)
Word-later (c ∷ w) buf buf' i j a h same end (e, ne, lt, rest) =
    (same a lt ∙ e, ne, omega arith, Word-later w buf buf' i j (a + 1) h same end rest)

pub Word-string :
    (w : List ℕ) (n : ℕ) (buf buf' : ℕ → ℕ) (i a : ℕ)
    → i < a + n
    → ((x : ℕ) → x < i → buf' x ≡ buf x)
    → buf' i ≡ 0
    → Word buf i a w
    → until_zero n buf' a ≡ w
unfolding Word until_zero
Word-string [] zero buf buf' i a h same end (inl e) = absurd (omega (arith, e))
Word-string [] zero buf buf' i a h same end (inr (lt, z)) = absurd (omega (arith, lt))
Word-string [] (suc n) buf buf' i a h same end (inl e) =
    rw (==_eq (buf' a) 0 (ap buf' e ∙ end)) refl
Word-string [] (suc n) buf buf' i a h same end (inr (lt, z)) =
    rw (==_eq (buf' a) 0 (same a lt ∙ z)) refl
Word-string (c ∷ w) zero buf buf' i a h same end (e, ne, lt, rest) = absurd (omega (arith, lt))
Word-string (c ∷ w) (suc n) buf buf' i a h same end (e, ne, lt, rest) =
    let first = same a lt ∙ e in
    rw (==_ne (buf' a) 0 (λ z. ne (sym first ∙ z))) (
      ap (λ x. x ∷ until_zero n buf' (a + 1)) first
      ∙ ap (λ xs. c ∷ xs) (Word-string w n buf buf' i (a + 1) (omega arith) same end rest))

pub drop_spaces-le : (cs : List ℕ) → length (drop_spaces cs) ≤ length cs
unfolding drop_spaces
drop_spaces-le [] = omega arith
drop_spaces-le (c ∷ cs) = elim (Bool-cases (is_space c)) [
  | inl space ↦ rw (space) (omega (arith, drop_spaces-le cs))
  | inr word ↦ rw (word) (omega arith)
]

pub drop_spaces-cases :
    (cs : List ℕ)
    → (drop_spaces cs ≡ [])
      ⊎ ((c : ℕ) × (ds : List ℕ) × (drop_spaces cs ≡ c ∷ ds) × (is_space c ≡ false))
unfolding drop_spaces
drop_spaces-cases [] = inl refl
drop_spaces-cases (c ∷ cs) = elim (Bool-cases (is_space c)) [
  | inl space ↦ rw (space) (drop_spaces-cases cs)
  | inr word ↦ inr (c, cs, rw (word) refl, word)
]

-- The text begins with whitespace, or is empty.
abbrev pub Ready : List ℕ → Type 0
Ready cs = length (drop_spaces cs) ≡ length cs → length cs ≡ 0

pub after_word-Ready : (cs : List ℕ) → Ready (after_word cs)
unfolding after_word drop_spaces
after_word-Ready [] = λ e. refl
after_word-Ready (c ∷ cs) = elim (Bool-cases (is_space c)) [
  | inl space ↦ rw (space, space) (λ e. absurd (omega (arith, e, drop_spaces-le cs)))
  | inr word ↦ rw (word) (after_word-Ready cs)
]

-- The pointers found so far, each with its word.
abbrev pub Found : Type 0
Found = List (ℕ × List ℕ)

abbrev pub pointers : Found → List ℕ
pointers ps = map (λ p. p.0) ps

abbrev pub texts : Found → List (List ℕ)
texts ps = map (λ p. p.1) ps

abbrev pub AllWord : (ℕ → ℕ) → ℕ → Found → Type 0
AllWord buf i ps = All (λ p. Word buf i p.0 p.1) ps

pub map-snoc :
    {B : Type 0} (f : ℕ × List ℕ → B) (ps : Found) (p : ℕ × List ℕ)
    → map f (ps ++ p ∷ []) ≡ map f ps ++ f p ∷ []
map-snoc f [] p = refl
map-snoc f (q ∷ ps) p = ap (λ xs. f q ∷ xs) (map-snoc f ps p)

pub AllWord-next :
    (ps : Found) (p : ℕ × List ℕ) (buf buf' : ℕ → ℕ) (i j : ℕ)
    → ((a : ℕ) (w : List ℕ) → Word buf i a w → Word buf' j a w)
    → Word buf' j p.0 p.1
    → AllWord buf i ps
    → AllWord buf' j (ps ++ p ∷ [])
AllWord-next [] p buf buf' i j f h all = (h, tt)
AllWord-next (q ∷ ps) p buf buf' i j f h (w, all) =
    (f q.0 q.1 w, AllWord-next ps p buf buf' i j f h all)

pub strings :
    (ps : Found) (size : ℕ) (buf buf' : ℕ → ℕ) (i : ℕ)
    → i < size
    → ((x : ℕ) → x < i → buf' x ≡ buf x)
    → buf' i ≡ 0
    → AllWord buf i ps
    → map (λ a. until_zero size buf' a) (pointers ps) ≡ texts ps
strings [] size buf buf' i h same end all = refl
strings ((a, w) ∷ ps) size buf buf' i h same end (word, all) =
    ap (λ x. x ∷ map (λ a. until_zero size buf' a) (pointers ps))
      (Word-string w size buf buf' i a (omega arith) same end word)
    ∙ ap (λ xs. w ∷ xs) (strings ps size buf buf' i h same end all)
