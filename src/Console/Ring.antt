-- ===== src/Console/Ring.antt =====
-- The ring of src/console.c is a queue of characters.
use storm_os.Base.{
  ==_eq, update, update_ne, ℕ, ◌%◌, ◌^◌, ◌<◌, ◌≡◌, refl, sym, ap, ◌∙◌, ◌≢◌, List, [], ◌∷◌, ◌++◌,
  arith,
}
use storm_os.Console.{Console, keep, next_pos, console_buffer_size}

-- From `r` on up to `w` the ring holds the characters of the list.
abbrev pub Span : (ℕ → ℕ) → ℕ → List ℕ → ℕ → Type 0
Span buf r [] w = r ≡ w
Span buf r (x ∷ xs) w = (buf r ≡ x) × (r ≢ w) × Span buf (next_pos r) xs w

abbrev pub Holds : Console → List ℕ → Type 0
Holds s xs = Span s.buf s.read_pos xs s.write_pos

next_pos-ne :
    (a b : ℕ) → a < console_buffer_size → b < console_buffer_size → a ≢ b → next_pos a ≢ next_pos b
next_pos-ne a b ha hb ne e = absurd (ground arith)

pub next_pos-less : (a : ℕ) → a < console_buffer_size → next_pos a < console_buffer_size
next_pos-less a h = ground arith

next_pos_self : (a : ℕ) → a < console_buffer_size → a ≢ next_pos a
next_pos_self a h e = absurd (ground arith)

Span-snoc :
    (buf : ℕ → ℕ) (xs : List ℕ) (r w c : ℕ)
    → r < console_buffer_size
    → w < console_buffer_size
    → next_pos w ≢ r
    → Span buf r xs w
    → Span (update buf w c) r (xs ++ c ∷ []) (next_pos w)
Span-snoc buf [] r w c hr hw room e =
    (rw (==_eq r w e) refl, (λ same. room (sym same)), ap next_pos e)
Span-snoc buf (x ∷ xs) r w c hr hw room (at, ne, rest) = (
  update_ne buf w r c ne ∙ at,
  (λ same. room (sym same)),
  Span-snoc buf xs (next_pos r) w c (next_pos-less r hr) hw
      (next_pos-ne w r hw hr (λ same. ne (sym same))) rest,
)

-- A character that GetChar keeps while the ring is not full stands behind those that were there.
pub keep-Holds :
    (ch : ℕ) (s : Console) (xs : List ℕ)
    → s.read_pos < console_buffer_size
    → s.write_pos < console_buffer_size
    → next_pos s.write_pos ≢ s.read_pos
    → Holds s xs
    → Holds (keep ch s) (xs ++ ch % 2 ^ 8 ∷ [])
keep-Holds ch s xs hr hw room h =
    Span-snoc s.buf xs s.read_pos s.write_pos (ch % 2 ^ 8) hr hw room h
