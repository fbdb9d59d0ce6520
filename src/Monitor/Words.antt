-- ===== src/Monitor/Words.antt =====
-- The words of a line, and the loops that find them.
use storm_os.Base.{
  if◌then◌else◌, Bool-cases, ℕ, ◌+◌, ◌≡◌, refl, ap, ◌≢◌, inl, inr, false, List, [], ◌∷◌,
}
use storm_os.Monitor.Parse.{is_space}

-- The pieces between the whitespace.
push : ℕ → List (List ℕ) → List (List ℕ)
push c [] = (c ∷ []) ∷ []
push c (w ∷ ws) = (c ∷ w) ∷ ws

split : List ℕ → List (List ℕ)
split [] = [] ∷ []
split (c ∷ cs) = if is_space c then [] ∷ split cs else push c (split cs)

non_empty : List (List ℕ) → List (List ℕ)
non_empty [] = []
non_empty ([] ∷ ws) = non_empty ws
non_empty ((c ∷ w) ∷ ws) = (c ∷ w) ∷ non_empty ws

-- The pieces that are not empty.
pub words : List ℕ → List (List ℕ)
words cs = non_empty (split cs)

unfoldable pub drop_spaces : List ℕ → List ℕ
drop_spaces [] = []
drop_spaces (c ∷ cs) = if is_space c then drop_spaces cs else c ∷ cs

unfoldable pub word_of : List ℕ → List ℕ
word_of [] = []
word_of (c ∷ cs) = if is_space c then [] else c ∷ word_of cs

unfoldable pub after_word : List ℕ → List ℕ
after_word [] = []
after_word (c ∷ cs) = if is_space c then c ∷ cs else after_word cs

pub words-drop_spaces : (cs : List ℕ) → words (drop_spaces cs) ≡ words cs
unfolding words split drop_spaces non_empty
words-drop_spaces [] = refl
words-drop_spaces (c ∷ cs) = elim (Bool-cases (is_space c)) [
  | inl space ↦ rw (space) (words-drop_spaces cs)
  | inr word ↦ rw (word, word) refl
]

split_word :
    (cs : List ℕ)
    → (ws : List (List ℕ)) × (split cs ≡ word_of cs ∷ ws) × (non_empty ws ≡ words (after_word cs))
unfolding words split word_of after_word non_empty push
split_word [] = ([], refl, refl)
split_word (c ∷ cs) = elim (Bool-cases (is_space c)) [
  | inl space ↦ (split cs, rw (space) refl, rw (space, space) refl)
  | inr word ↦ let (ws, e, same) = split_word cs in (ws, rw (word, e) refl, rw (word) same)
]

pub words-word :
    (c : ℕ) (cs : List ℕ)
    → is_space c ≡ false
    → words (c ∷ cs) ≡ (c ∷ word_of cs) ∷ words (after_word cs)
unfolding words split non_empty push
words-word c cs word =
    let (ws, e, same) = split_word cs in rw (word, e) (ap (λ xs. (c ∷ word_of cs) ∷ xs) same)

-- The bytes from `i` on are those of the text and a zero.
unfoldable pub Text : (ℕ → ℕ) → ℕ → List ℕ → Type 0
Text buf i [] = buf i ≡ 0
Text buf i (c ∷ cs) = (buf i ≡ c) × (c ≢ 0) × Text buf (i + 1) cs

pub words-nil : words [] ≡ []
unfolding words split non_empty
words-nil = refl
