-- ===== src/Monitor/Loops.antt =====
-- The loops of RunCommand that gobble whitespace and scan past an argument.
use storm_os.Base.{
  ==_eq, ==_ne, Bool-cases, length, update, update_self, update_ne, ℕ, zero, suc, ◌+◌, ◌≤◌, ◌<◌,
  ◌≡◌, refl, sym, ap, ◌∙◌, ◌≢◌, ◌⊎◌, inl, inr, some, List, [], ◌∷◌, arith,
}
use storm_os.Monitor.Parse.{is_space, gobble, scan_argument}
use storm_os.Monitor.Words.{Text, drop_spaces, word_of, after_word}

Text-update :
    (cs : List ℕ) (buf : ℕ → ℕ) (j i v : ℕ) → i < j → Text buf j cs → Text (update buf i v) j cs
unfolding Text
Text-update [] buf j i v h end = update_ne buf i j v (omega arith) ∙ end
Text-update (c ∷ cs) buf j i v h (e, ne, rest) =
    (update_ne buf i j v (omega arith) ∙ e, ne, Text-update cs buf (j + 1) i v (omega arith) rest)

pub record Gobbled (buf : ℕ → ℕ) (i : ℕ) (cs : List ℕ) (j : ℕ) (cleared : ℕ → ℕ) : Type 0 where
  pub later : i ≤ j
  pub place : j + length (drop_spaces cs) ≡ i + length cs
  pub text : Text cleared j (drop_spaces cs)
  pub before : (a : ℕ) → a < i → cleared a ≡ buf a
  pub ended : (i ≡ j) ⊎ ((i < j) × (cleared i ≡ 0))

pub gobble_lem :
    (n : ℕ) (buf : ℕ → ℕ) (i : ℕ) (cs : List ℕ)
    → length cs < n
    → Text buf i cs
    → (j : ℕ) × (cleared : ℕ → ℕ) × (gobble n buf i ≡ some (j, cleared))
      × Gobbled buf i cs j cleared
unfolding gobble drop_spaces Text
gobble_lem zero buf i cs h text = absurd (omega (arith, h))
gobble_lem (suc n) buf i [] h end = (
  i,
  buf,
  rw (==_eq (buf i) 0 end) refl,
  record { later = omega arith; place = refl; text = end; before = λ a ha. refl; ended = inl refl },
)
gobble_lem (suc n) buf i (c ∷ cs) h (e, ne, text) = elim (Bool-cases (is_space c)) [
  | inr word ↦ (
    i,
    buf,
    rw (==_ne (buf i) 0 (λ z. ne (sym e ∙ z)), ap is_space e, word) refl,
    (record {
      later = omega arith;
      place = rw (word) refl;
      text = rw (word) (e, ne, text);
      before = λ a ha. refl;
      ended = inl refl;
    }),
  )
  | inl space ↦
      let (j, cleared, found, g) =
        gobble_lem n (update buf i 0) (i + 1) cs (omega arith)
          (Text-update cs buf (i + 1) i 0 (omega arith) text) in
      (
        j,
        cleared,
        rw (==_ne (buf i) 0 (λ z. ne (sym e ∙ z)), ap is_space e, space) found,
        (record {
          later = omega (arith, g.later);
          place = rw (space) (omega (arith, g.place));
          text = rw (space) g.text;
          before = λ a ha. g.before a (omega arith) ∙ update_ne buf i a 0 (omega arith);
          ended = inr (omega (arith, g.later), g.before i (omega arith) ∙ update_self buf i 0);
        }),
      )
]

-- An argument `w` at `a` in front of `i`: its bytes, and a zero behind them unless they end at `i`.
unfoldable pub Word : (ℕ → ℕ) → ℕ → ℕ → List ℕ → Type 0
Word buf i a [] = (a ≡ i) ⊎ ((a < i) × (buf a ≡ 0))
Word buf i a (c ∷ w) = (buf a ≡ c) × (c ≢ 0) × (a < i) × Word buf i (a + 1) w

pub record Scanned (buf : ℕ → ℕ) (i : ℕ) (cs : List ℕ) (n : ℕ) (end : ℕ) : Type 0 where
  pub found : scan_argument n buf i ≡ some end
  pub later : i ≤ end
  pub place : end + length (after_word cs) ≡ i + length cs
  pub text : Text buf end (after_word cs)
  pub word : Word buf end i (word_of cs)

pub scan_argument_lem :
    (n : ℕ) (buf : ℕ → ℕ) (i : ℕ) (cs : List ℕ)
    → length cs < n
    → Text buf i cs
    → (end : ℕ) × Scanned buf i cs n end
unfolding scan_argument word_of after_word Text Word
scan_argument_lem zero buf i cs h text = absurd (omega (arith, h))
scan_argument_lem (suc n) buf i [] h end = (
  i,
  record {
    later = omega arith;
    found = rw (==_eq (buf i) 0 end) refl;
    place = refl;
    text = end;
    word = inl refl;
  },
)
scan_argument_lem (suc n) buf i (c ∷ cs) h (e, ne, text) = elim (Bool-cases (is_space c)) [
  | inl space ↦ (
    i,
    record {
      later = omega arith;
      found = rw (==_ne (buf i) 0 (λ z. ne (sym e ∙ z)), ap is_space e, space) refl;
      place = rw (space) refl;
      text = rw (space) (e, ne, text);
      word = rw (space) (inl refl);
    },
  )
  | inr word ↦
      let (end, s) = scan_argument_lem n buf (i + 1) cs (omega arith) text in
      (
        end,
        record {
          later = omega (arith, s.later);
          found = rw (==_ne (buf i) 0 (λ z. ne (sym e ∙ z)), ap is_space e, word) s.found;
          place = rw (word) (omega (arith, s.place));
          text = rw (word) s.text;
          word = rw (word) (e, ne, omega (arith, s.later), s.word);
        },
      )
]
