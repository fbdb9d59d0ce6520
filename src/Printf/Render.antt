-- ===== src/Printf/Render.antt =====
-- What a format and its arguments stand for.
use storm_os.Base.{
  ltb, ◌==◌, if◌then◌else◌, ℤ, ℕ, suc, ◌-◌, ◌^◌, ◌<◌, Bool, true, false, Option, none, some, List,
  [], ◌∷◌, ◌++◌, map, pos, negsuc,
}
use storm_os.Types.Divide.{u64_mod}
use storm_os.Printf.{Arg, word32, word64, string, null_text, hex_digit, takes_arg}
use storm_os.Printf.Number.{digits}

-- The numeral of a 64-bit number.
abbrev pub numeral : ℕ → ℕ → List ℕ
numeral base n = map hex_digit (digits 64 base n)

-- The number that the pattern of an `int` stands for.
abbrev pub signed : ℕ → ℤ
signed w = if ltb w (2 ^ 31) then pos w else negsuc (2 ^ 32 - 1 - w)

abbrev pub decimal : ℤ → List ℕ
decimal (pos n) = numeral 10 n
decimal (negsuc n) = b'-' ∷ numeral 10 (suc n)

-- The text of an argument. There is none for the least `int`, whose negation C leaves undefined, and
-- for an argument of another type than the conversion takes.
abbrev pub arg_text : ℕ → Arg → Option (List ℕ)
arg_text ch (word32 w) =
    if ch == b'c'
    then some (w ∷ [])
    else if ch == b'd'
    then (if w == 2 ^ 31 then none else some (decimal (signed w)))
    else if ch == b'u'
    then some (numeral 10 w)
    else if ch == b'o'
    then some (numeral 8 w)
    else if ch == b'p'
    then some (b'0' ∷ b'x' ∷ numeral 16 w)
    else if ch == b'x'
    then some (numeral 16 w)
    else none
arg_text ch (word64 w) = if ch == b'l' then some (numeral 16 w) else none
arg_text ch (string none) = if ch == b's' then some null_text else none
arg_text ch (string (some text)) = if ch == b's' then some text else none

abbrev pub behind : Option (List ℕ) → List ℕ → Option (List ℕ)
behind none front = none
behind (some text) front = some (front ++ text)

-- The text of a format with its arguments; the flag tells whether a `%` stands before it.
unfoldable pub render : Bool → List ℕ → List Arg → Option (List ℕ)
render false [] args = some []
render true [] args = some (b'%' ∷ [])
render false (ch ∷ fmt) args =
    let escape = render true fmt args in
    let next = behind (render false fmt args) (ch ∷ []) in if ch == b'%' then escape else next
render true (ch ∷ fmt) args =
    let percent = behind (render false fmt args) (ch ∷ []) in
    let literal = behind (render false fmt args) (b'%' ∷ ch ∷ []) in
    if ch == b'%'
    then percent
    else if takes_arg ch
    then elim args [
      | [] ↦ none
      | arg ∷ more ↦ elim (arg_text ch arg) [
        | none ↦ none
        | some text ↦ behind (render false fmt more) text
      ]
    ]
    else literal

-- The words are words.
abbrev pub IsArg : Arg → Type 0
IsArg (word32 w) = w < 2 ^ 32
IsArg (word64 w) = w < u64_mod
IsArg (string text) = Unit
