-- ===== src/Console/Queue.antt =====
-- GetChar of src/console.c as a queue that the keyboard fills.
use storm_os.Base.{
  ◌==◌, if◌then◌else◌, ==_eq, ==_ne, ℤ, length, length-append, ℕ, zero, suc, ◌+◌, ◌%◌, ◌^◌, ◌<◌,
  ◌≡◌, refl, ◌≢◌, Option, none, some, List, [], ◌∷◌, ◌++◌, arith, pos,
}
use native.Mathlib.Decide.{ℕ_discrete}
use mathlib.Core.List.{append_assoc, append-nil}
use storm_os.Keyboard.{Keyboard, keyboard_get_data}
use storm_os.Console.{Console, keep, poll, get_char, next_pos, char_value, console_buffer_size}
use storm_os.Console.Bounds.{get_data-nil, get_data-cons}
use storm_os.Console.Ring.{Span, Holds, keep-Holds, next_pos-less}

-- The characters that the bytes of the keyboard stand for, without the zeros.
unfoldable pub typed : List ℕ → Keyboard → List ℕ
typed [] k = []
typed (byte ∷ bytes) k =
    let later = typed bytes (keyboard_get_data k).1 in
    elim (keyboard_get_data k).0 [
      | none ↦ later
      | some ch ↦ if ch == 0 then later else ch % 2 ^ 8 ∷ later
    ]

-- The place behind the last character.
Span-end :
    (buf : ℕ → ℕ) (xs : List ℕ) (r w : ℕ)
    → r < console_buffer_size
    → Span buf r xs w
    → (r + length xs) % console_buffer_size ≡ w
Span-end buf [] r w small e = omega (arith, e)
Span-end buf (x ∷ xs) r w small (_, _, rest) =
    let ih = Span-end buf xs (next_pos r) w (next_pos-less r small) rest in ground (arith, ih)

ring_room :
    (s : Console) (xs : List ℕ)
    → s.read_pos < console_buffer_size
    → length xs + 1 < console_buffer_size
    → Holds s xs
    → next_pos s.write_pos ≢ s.read_pos
ring_room s xs small room h e =
    let end = Span-end s.buf xs s.read_pos s.write_pos small h in absurd (ground (arith, end, e))

-- What the polling loop leaves.
record Filled (fuel : ℕ) (k : Keyboard) (s : Console) (xs : List ℕ) : Type 0 where
  keyboard : Keyboard
  console : Console
  returns : poll fuel k s ≡ some (keyboard, console)
  drained : keyboard.input ≡ []
  holds : Holds console xs

poll-Filled :
    (fuel : ℕ) (bytes xs : List ℕ) (k : Keyboard) (s : Console)
    → k.input ≡ bytes
    → length bytes < fuel
    → s.read_pos < console_buffer_size
    → s.write_pos < console_buffer_size
    → length xs + length bytes < console_buffer_size
    → Holds s xs
    → Filled fuel k s (xs ++ typed bytes k)
unfolding poll typed
poll-Filled zero bytes xs k s e h hr hw room held = absurd (omega arith)
poll-Filled (suc fuel) [] xs k s e h hr hw room held = record {
  keyboard = (keyboard_get_data k).1;
  console = s;
  returns = rw (poll, (get_data-nil k e).0) refl;
  drained = (get_data-nil k e).1;
  holds = rw (append-nil xs) held;
}
poll-Filled (suc fuel) (byte ∷ bytes) xs k s e h hr hw room held =
    let (ch, got, left) = get_data-cons k byte bytes e in
    let k' = (keyboard_get_data k).1 in
    elim (ℕ_discrete ch 0) [
      | yes z ↦
          let rest = poll-Filled fuel bytes xs k' s left (omega arith) hr hw (omega arith) held in
          record {
            keyboard = rest.keyboard;
            console = rest.console;
            returns = rw (poll, got, ==_eq ch 0 z) rest.returns;
            drained = rest.drained;
            holds = rw (typed, got, ==_eq ch 0 z) rest.holds;
          }
      | no ne ↦
          let kept = keep-Holds ch s xs hr hw (ring_room s xs hr (omega arith) held) held in
          let rest =
            poll-Filled fuel bytes (xs ++ ch % 2 ^ 8 ∷ []) k' (keep ch s) left (omega arith) hr
              (next_pos-less s.write_pos hw) (omega (arith, length-append xs (ch % 2 ^ 8 ∷ [])))
              kept in
          record {
            keyboard = rest.keyboard;
            console = rest.console;
            returns = rw (poll, got, ==_ne ch 0 ne) rest.returns;
            drained = rest.drained;
            holds =
                rw (typed, got, ==_ne ch 0 ne)
                  (rw (append_assoc xs (ch % 2 ^ 8 ∷ []) (typed bytes k')) at rest.holds);
          }
    ]

-- The first character of a queue as an `int`, 0 for the empty one; and the others.
abbrev pub first : List ℕ → ℤ
first [] = pos 0
first (x ∷ xs) = char_value x

abbrev pub others : List ℕ → List ℕ
others [] = []
others (x ∷ xs) = xs

-- GetChar behind the polling loop.
abbrev answer : Keyboard → Console → Option (ℤ × Keyboard × Console)
answer k t =
    if t.read_pos == t.write_pos
    then some (pos 0, k, t)
    else some (char_value (t.buf t.read_pos), k, record t { read_pos = next_pos t.read_pos })

take-Holds :
    (k : Keyboard) (t : Console) (xs : List ℕ)
    → Holds t xs
    → (u : Console) × (answer k t ≡ some (first xs, k, u)) × Holds u (others xs)
take-Holds k t [] e = (t, rw (==_eq t.read_pos t.write_pos e) refl, e)
take-Holds k t (x ∷ xs) (at, ne, rest) = (
  record t { read_pos = next_pos t.read_pos },
  rw (==_ne t.read_pos t.write_pos ne, at) refl,
  rest,
)

-- GetChar is a queue that the keyboard fills: if the ring has room for what the keyboard holds, the
-- characters of all its bytes are put behind those of the ring, in their order and without the
-- zeros; the first of all is returned, or 0 if there is none, and the others stay.
pub get_char-Holds :
    (k : Keyboard) (s : Console) (xs : List ℕ)
    → s.read_pos < console_buffer_size
    → s.write_pos < console_buffer_size
    → length xs + length k.input < console_buffer_size
    → Holds s xs
    → (k' : Keyboard) × (t : Console) × (get_char k s ≡ some (first (xs ++ typed k.input k), k', t))
      × (k'.input ≡ [])
      × Holds t (others (xs ++ typed k.input k))
unfolding get_char
get_char-Holds k s xs hr hw room held =
    let filled =
      poll-Filled (suc (length k.input)) k.input xs k s refl (omega arith) hr hw room held in
    let (t, e, h) =
      take-Holds filled.keyboard filled.console (xs ++ typed k.input k) filled.holds in
    (filled.keyboard, t, rw (get_char, filled.returns) e, filled.drained, h)
