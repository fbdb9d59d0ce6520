-- ===== src/Monitor/Parse.antt =====
-- The part of RunCommand of src/monitor.c that splits the line into arguments. A pointer into the
-- buffer is its index.
use storm_os.Base.{
  ◌==◌, if◌then◌else◌, length, update, ℕ, zero, suc, ◌+◌, ◌-◌, Bool, true, false, not, ◌&&◌, Option,
  none, some, List, [], ◌∷◌, ◌++◌,
}
use storm_os.Strings.{string_find_char}

abbrev pub max_args : ℕ
max_args = 16

-- "\t\r\n "
abbrev pub whitespace : List ℕ
whitespace = b'\t' ∷ b'\r' ∷ b'\n' ∷ b' ' ∷ []

-- `StringFindChar(WHITESPACE, c)` as a condition
unfoldable pub is_space : ℕ → Bool
is_space c = elim (string_find_char whitespace c) [ none ↦ false | some rest ↦ true ]

-- `while (*buf && StringFindChar(WHITESPACE, *buf)) *buf++ = 0;`: where it ends, and the buffer.
unfoldable pub gobble : ℕ → (ℕ → ℕ) → ℕ → Option (ℕ × (ℕ → ℕ))
gobble zero buf i = none
gobble (suc n) buf i =
    let rest = gobble n (update buf i 0) (i + 1) in
    if not (buf i == 0) && is_space (buf i) then rest else some (i, buf)

-- `while (*buf && !StringFindChar(WHITESPACE, *buf)) buf++;`
unfoldable pub scan_argument : ℕ → (ℕ → ℕ) → ℕ → Option ℕ
scan_argument zero buf i = none
scan_argument (suc n) buf i =
    let rest = scan_argument n buf (i + 1) in
    if not (buf i == 0) && not (is_space (buf i)) then rest else some i

-- The pointers of argv up to argc with the buffer they point into, or too many with the buffer.
pub data Arguments : Type 0 where
  too_many : (ℕ → ℕ) → Arguments
  arguments : List ℕ → (ℕ → ℕ) → Arguments

-- `while (1)`, `rounds` times at most; `size` bounds the loops inside.
unfoldable pub parse_arguments : ℕ → ℕ → List ℕ → (ℕ → ℕ) → ℕ → Option Arguments
parse_arguments zero size argv buf i = none
parse_arguments (suc rounds) size argv buf i = elim (gobble size buf i) [
  | none ↦ none
  | some (j, cleared) ↦
      let next : Option Arguments = elim (scan_argument size cleared j) [
        | none ↦ none
        | some end ↦ parse_arguments rounds size (argv ++ j ∷ []) cleared end
      ] in
      if cleared j == 0
      then some (arguments argv cleared)
      else if length argv == max_args - 1
      then some (too_many cleared)
      else next
]
