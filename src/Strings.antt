-- ===== src/Strings.antt =====
-- src/string.c. A string is the list of the bytes in front of its zero.
pub mod Compare
use storm_os.Base.{
  leb, ◌==◌, if◌then◌else◌, ℤ, ℕ, zero, suc, ◌-◌, Option, none, some, List, [], ◌∷◌, pos, negsuc,
}

-- The byte that a pointer to the string reads.
abbrev pub first_char : List ℕ → ℕ
first_char [] = 0
first_char (c ∷ cs) = c

-- `(int)((unsigned char)*str1 - (unsigned char)*str2)`
abbrev pub char_difference : ℕ → ℕ → ℤ
char_difference a b = if leb b a then pos (a - b) else negsuc (b - a - 1)

unfoldable pub string_cmp : List ℕ → List ℕ → ℤ
string_cmp [] ys = char_difference 0 (first_char ys)
string_cmp (x ∷ xs) [] = char_difference x 0
string_cmp (x ∷ xs) (y ∷ ys) =
    let rest = string_cmp xs ys in if x == y then rest else char_difference x y

unfoldable pub string_cmp_n : List ℕ → List ℕ → ℕ → ℤ
string_cmp_n xs ys zero = pos 0
string_cmp_n [] ys (suc size) = char_difference 0 (first_char ys)
string_cmp_n (x ∷ xs) [] (suc size) = char_difference x 0
string_cmp_n (x ∷ xs) (y ∷ ys) (suc size) =
    let rest = string_cmp_n xs ys size in if x == y then rest else char_difference x y

unfoldable pub string_len_n : List ℕ → ℕ → ℕ
string_len_n xs zero = 0
string_len_n [] (suc size) = 0
string_len_n (x ∷ xs) (suc size) = suc (string_len_n xs size)

-- What the pointer that is returned reads, or no pointer.
unfoldable pub string_find_char : List ℕ → ℕ → Option (List ℕ)
string_find_char [] c = none
string_find_char (x ∷ xs) c =
    let rest = string_find_char xs c in if x == c then some (x ∷ xs) else rest
