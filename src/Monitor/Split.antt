-- ===== src/Monitor/Split.antt =====
-- RunCommand splits its line into the words.
use mathlib.Core.Path.{subst}
use mathlib.Core.List.{append_assoc, append-nil}
use native.Mathlib.Decide.{ℕ_discrete}
use storm_os.Base.{
  ==_eq, ==_ne, length, length-append, ℕ, zero, suc, ◌+◌, ◌-◌, ◌≤◌, ◌<◌, ◌≡◌, refl, sym, ap, ◌∙◌,
  ◌≢◌, ◌⊎◌, inl, inr, false, Option, some, List, [], ◌∷◌, ◌++◌, map, arith,
}
use storm_os.Printf.{until_zero}
use storm_os.Monitor.Parse.{
  is_space, gobble, Arguments, too_many, arguments, parse_arguments, max_args,
}
use storm_os.Monitor.Words.{
  Text, words, drop_spaces, word_of, after_word, words-drop_spaces, words-word, words-nil,
}
use storm_os.Monitor.Loops.{Gobbled, gobble_lem, Scanned, scan_argument_lem, Word}
use storm_os.Monitor.Arguments.{
  Ready, Found, pointers, texts, AllWord, AllWord-next, strings, map-snoc, Word-later,
  drop_spaces-cases, after_word-Ready,
}

-- What the loop makes of the rest of the line.
abbrev pub Parsed : ℕ → Found → List ℕ → Option Arguments → Type 0
Parsed size ps cs o =
    ((length ps + length (words cs) < max_args)
      × (argv : List ℕ) × (cleared : ℕ → ℕ) × (o ≡ some (arguments argv cleared))
      × (map (λ a. until_zero size cleared a) argv ≡ texts ps ++ words cs))
    ⊎ ((max_args ≤ length ps + length (words cs))
        × (cleared : ℕ → ℕ) × (o ≡ some (too_many cleared)))

length-map : {A B : Type 0} (f : A → B) (xs : List A) → length (map f xs) ≡ length xs
length-map f [] = refl
length-map f (x ∷ xs) = omega (arith, length-map f xs)

module _ (size : ℕ) (buf cleared : ℕ → ℕ) (i j : ℕ) (ps : Found) (cs : List ℕ)
    (g : Gobbled buf i cs j cleared) (found : gobble size buf i ≡ some (j, cleared))
    (room : i + length cs < size) (all : AllWord buf i ps) where
  -- The end of the line.
  parse_end :
      (rounds : ℕ)
      → drop_spaces cs ≡ []
      → length ps < max_args
      → Parsed size ps cs (parse_arguments (suc rounds) size (pointers ps) buf i)
  unfolding parse_arguments Text
  parse_end rounds none_left few =
      let end : cleared j ≡ 0 = subst (Text cleared j) none_left g.text in
      let here : cleared i ≡ 0 = elim g.ended [ inl e ↦ ap cleared e ∙ end | inr (lt, z) ↦ z ] in
      let no_words : words cs ≡ [] = sym (words-drop_spaces cs) ∙ ap words none_left ∙ words-nil in
      inl (
        rw (no_words) (omega arith),
        pointers ps,
        cleared,
        rw (parse_arguments, found, ==_eq (cleared j) 0 end) refl,
        strings ps size buf cleared i (omega arith) g.before here all
            ∙ rw (no_words) (sym (append-nil (texts ps))),
      )

  -- An argument more, that is refused when there is no room for it.
  module _ (c : ℕ) (ds : List ℕ) (rest : drop_spaces cs ≡ c ∷ ds) (word : is_space c ≡ false) where
    word-Text : Text cleared j (c ∷ ds)
    word-Text = subst (Text cleared j) rest g.text

    word_byte : cleared j ≢ 0
    unfolding Text
    word_byte z = let (e, ne, later) = word-Text in ne (sym e ∙ z)

    words_more : words cs ≡ (c ∷ word_of ds) ∷ words (after_word ds)
    words_more = sym (words-drop_spaces cs) ∙ ap words rest ∙ words-word c ds word

    parse_too_many :
        (rounds : ℕ)
        → length ps + 1 ≡ max_args
        → Parsed size ps cs (parse_arguments (suc rounds) size (pointers ps) buf i)
    unfolding parse_arguments
    parse_too_many rounds full = inr (
      rw (words_more) (omega (arith, full)),
      cleared,
      rw
          (
            parse_arguments,
            found,
            ==_ne (cleared j) 0 word_byte,
            ==_eq (length (pointers ps)) (max_args - 1)
                (omega (arith, full, length-map (λ (p : ℕ × List ℕ). p.0) ps)),
          )
          refl,
    )

    -- The arguments in front end where the whitespace was cleared.
    all_next :
        (end : ℕ)
        → Ready cs ⊎ (ps ≡ [])
        → j < end
        → Word cleared end j (c ∷ word_of ds)
        → AllWord cleared end (ps ++ (j, c ∷ word_of ds) ∷ [])
    all_next end (inr none_yet) lt scanned =
        subst (λ qs. AllWord cleared end (qs ++ (j, c ∷ word_of ds) ∷ [])) (sym none_yet)
          (scanned, tt)
    all_next end (inl ready) lt scanned =
        let length_rest : length (drop_spaces cs) ≡ suc (length ds) = ap (λ xs. length xs) rest in
        elim g.ended [
          | inl e ↦
              let none_left = ready (omega (arith, e, g.place)) in
              absurd (omega (arith, e, g.place, length_rest, none_left))
          | inr (before, z) ↦
              AllWord-next ps (j, c ∷ word_of ds) buf cleared i end
                (λ a w. Word-later w buf cleared i end a (omega (arith, before, lt)) g.before z)
                scanned all
        ]

    -- The argument is scanned, and the loop goes on behind it.
    parse_word :
        (rounds end : ℕ)
        → length ps + 1 < max_args
        → Ready cs ⊎ (ps ≡ [])
        → Scanned cleared j (c ∷ ds) size end
        → ((qs : Found)
            → length qs ≡ length ps + 1
            → end + length (after_word ds) < size
            → length (after_word ds) < length cs
            → Text cleared end (after_word ds)
            → AllWord cleared end qs
            → Parsed size qs
                (after_word ds)
                (parse_arguments rounds size (pointers qs) cleared end))
        → Parsed size ps cs (parse_arguments (suc rounds) size (pointers ps) buf i)
    unfolding parse_arguments word_of after_word Word
    parse_word rounds end few ready s later =
        let w = c ∷ word_of ds in
        let qs = ps ++ (j, w) ∷ [] in
        let e : word_of (c ∷ ds) ≡ w = rw (word) refl in
        let behind : after_word (c ∷ ds) ≡ after_word ds = rw (word) refl in
        let scanned : Word cleared end j w = subst (Word cleared end j) e s.word in
        let (here, ne, lt, more) = scanned in
        let length_behind : length (after_word (c ∷ ds)) ≡ length (after_word ds) =
          ap (λ xs. length xs) behind in
        let length_rest : length (drop_spaces cs) ≡ suc (length ds) = ap (λ xs. length xs) rest in
        let total = length-append ps ((j, w) ∷ []) in
        let goes : parse_arguments (suc rounds) size (pointers ps) buf i
            ≡ parse_arguments rounds size (pointers qs) cleared end =
          rw
            (
              parse_arguments,
              found,
              ==_ne (cleared j) 0 word_byte,
              ==_ne (length (pointers ps)) (max_args - 1)
                  (omega (arith, length-map (λ (p : ℕ × List ℕ). p.0) ps)),
              s.found,
            )
            (ap (λ argv. parse_arguments rounds size argv cleared end)
              (sym (map-snoc (λ p. p.0) ps (j, w)))) in
        let parsed =
          later qs total (omega (arith, length_behind, length_rest, s.place, g.place))
            (omega (arith, length_behind, length_rest, s.place, g.place, g.later, lt))
            (subst (Text cleared end) behind s.text) (all_next end ready lt scanned) in
        elim parsed [
          | inl (still, argv, last, e', strs) ↦ inl (
            rw (words_more) (omega (arith, still, total)),
            argv,
            last,
            goes ∙ e',
            strs
                ∙ ap (λ xs. xs ++ words (after_word ds)) (map-snoc (λ p. p.1) ps (j, w))
                ∙ append_assoc (texts ps) (w ∷ []) (words (after_word ds))
                ∙ ap (λ xs. texts ps ++ xs) (sym words_more),
          )
          | inr (over, last, e') ↦
              inr (rw (words_more) (omega (arith, over, total)), last, goes ∙ e')
        ]

parse_arguments-Parsed :
    (rounds size : ℕ) (buf : ℕ → ℕ) (i : ℕ) (ps : Found) (cs : List ℕ)
    → length cs < rounds
    → i + length cs < size
    → length ps < max_args
    → Text buf i cs
    → Ready cs ⊎ (ps ≡ [])
    → AllWord buf i ps
    → Parsed size ps cs (parse_arguments rounds size (pointers ps) buf i)
parse_arguments-Parsed zero size buf i ps cs h room few text ready all = absurd (omega (arith, h))
parse_arguments-Parsed (suc rounds) size buf i ps cs h room few text ready all =
    let (j, cleared, found, g) = gobble_lem size buf i cs (omega arith) text in
    elim (drop_spaces-cases cs) [
      | inl none_left ↦ parse_end size buf cleared i j ps cs g found room all rounds none_left few
      | inr (c, ds, rest, word) ↦ elim (ℕ_discrete (length ps + 1) max_args) [
        | yes full ↦
            parse_too_many size buf cleared i j ps cs g found room all c ds rest word rounds full
        | no more ↦
            let text_here = word-Text size buf cleared i j ps cs g found room all c ds rest word in
            let length_rest : length (drop_spaces cs) ≡ suc (length ds) =
              ap (λ xs. length xs) rest in
            let (end, s) =
              scan_argument_lem size cleared j (c ∷ ds) (omega (arith, length_rest, g.place))
                text_here in
            parse_word size buf cleared i j ps cs g found room all c ds rest word rounds end
              (omega (arith, more)) ready s
              (λ qs count room' shorter text' all'.
                parse_arguments-Parsed rounds size cleared end qs (after_word ds)
                  (omega (arith, shorter)) room' (omega (arith, count, more)) text'
                  (inl (after_word-Ready ds)) all')
      ]
    ]

-- RunCommand splits a line that fits into its buffer the way its words are read off the line: if
-- there are fewer than 16, the pointers that it finds read as the words in their order, after it has
-- cleared the whitespace; if there are more, the line is refused.
pub parse_arguments_lem :
    (size : ℕ) (buf : ℕ → ℕ) (line : List ℕ)
    → length line < size
    → Text buf 0 line
    → ((length (words line) < max_args)
        × (argv : List ℕ) × (cleared : ℕ → ℕ) × (parse_arguments size size [] buf 0
            ≡ some (arguments argv cleared))
        × (map (λ a. until_zero size cleared a) argv ≡ words line))
      ⊎ ((max_args ≤ length (words line))
          × (cleared : ℕ → ℕ) × (parse_arguments size size [] buf 0 ≡ some (too_many cleared)))
parse_arguments_lem size buf line fits text =
    elim (parse_arguments-Parsed size size buf 0 [] line fits (omega arith) (omega arith) text
      (inr refl) tt) [
        | inl (few, argv, cleared, e, strs) ↦ inl (omega arith, argv, cleared, e, strs)
        | inr (many, cleared, e) ↦ inr (omega arith, cleared, e)
      ]
