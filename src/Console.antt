-- ===== src/Console.antt =====
-- src/console.c: the ring of characters that were typed, and the cursor. DrawCharAt and ScrollScreen
-- of src/screen.c are kept as calls, oldest first.
pub mod Bounds
pub mod Queue
pub mod Ring
use storm_os.Base.{
  ltb, leb, ◌==◌, if◌then◌else◌, ℤ, length, update, ℕ, zero, suc, ◌+◌, ◌-◌, ◌%◌, ◌^◌, Option, none,
  some, List, [], ◌∷◌, ◌++◌, pos, negsuc,
}
use storm_os.Keyboard.{Keyboard, keyboard_get_data}

abbrev pub console_buffer_size : ℕ
console_buffer_size = 512

abbrev pub char_rows : ℕ
char_rows = 60

abbrev pub char_cols : ℕ
char_cols = 80

-- DrawCharAt(c, row, col, fontBasic, color), or ScrollScreen(CHAR_SIZE)
pub data Call : Type 0 where
  draw_char_at : ℕ → ℕ → ℕ → ℕ → Call
  scroll_screen : Call

pub record Console : Type 0 where
  pub buf : ℕ → ℕ
  pub read_pos : ℕ
  pub write_pos : ℕ
  pub row : ℕ
  pub col : ℕ
  pub calls : List Call

abbrev pub called : Call → Console → Console
called call s = record s { calls = s.calls ++ call ∷ [] }

-- `pos += d; if (pos < 0) pos = 0;`
abbrev pub add_clamped : ℕ → ℤ → ℕ
add_clamped a (pos n) = a + n
add_clamped a (negsuc n) = a - (n + 1)

-- The part of MoveCursor that is about the row.
unfoldable pub move_row : ℤ → Console → Console
move_row d_row s =
    let row = add_clamped s.row d_row in
    if leb char_rows row
    then called scroll_screen (record s { row = char_rows - 1 })
    else record s { row = row }

-- Behind the last column MoveCursor calls itself for the start of the next row.
unfoldable pub move_cursor : ℤ → ℤ → Console → Console
move_cursor d_row d_col s =
    let moved = move_row d_row s in
    let col = add_clamped moved.col d_col in
    if leb char_cols col
    then record (move_row (pos 1) (record moved { col = col })) { col = 0 }
    else record moved { col = col }

-- `-cursorPos.col`
abbrev pub minus : ℕ → ℤ
minus zero = pos 0
minus (suc n) = negsuc n

unfoldable pub put_char : ℕ → ℕ → Console → Console
put_char c color s =
    let back = move_cursor (pos 0) (negsuc 0) s in
    if c == 0x0A
    then move_cursor (pos 1) (minus s.col) s
    else if c == 0x08
    then called (draw_char_at 0x08 back.row back.col color) back
    else move_cursor (pos 0) (pos 1) (called (draw_char_at c s.row s.col color) s)

-- The loop of PutStr.
unfoldable pub put_str : List ℕ → ℕ → Console → Console
put_str [] color s = s
put_str (c ∷ cs) color s = put_str cs color (put_char c color s)

pub reset_cursor : Console → Console
reset_cursor s = record s { row = 0; col = 0 }

-- `pos++`, and 0 at the end of the ring
abbrev pub next_pos : ℕ → ℕ
next_pos p = if p + 1 == console_buffer_size then 0 else p + 1

abbrev pub keep : ℕ → Console → Console
keep ch s = record s {
  buf = update s.buf s.write_pos (ch % 2 ^ 8);
  write_pos = next_pos s.write_pos;
}

-- "Poll for any pending input characters", `fuel` rounds at most: a round takes a byte of the
-- keyboard's, so that one more than it holds are enough.
unfoldable pub poll : ℕ → Keyboard → Console → Option (Keyboard × Console)
poll zero k s = none
poll (suc fuel) k s = elim (keyboard_get_data k).0 [
  | none ↦ some ((keyboard_get_data k).1, s)
  | some ch ↦ poll fuel (keyboard_get_data k).1 (if ch == 0 then s else keep ch s)
]

-- A `char` as an `int`.
abbrev pub char_value : ℕ → ℤ
char_value b = if ltb b (2 ^ 7) then pos b else negsuc (2 ^ 8 - 1 - b)

unfoldable pub get_char : Keyboard → Console → Option (ℤ × Keyboard × Console)
get_char k s = elim (poll (suc (length k.input)) k s) [
  | none ↦ none
  | some (k', t) ↦
      if t.read_pos == t.write_pos
      then some (pos 0, k', t)
      else some (char_value (t.buf t.read_pos), k', record t { read_pos = next_pos t.read_pos })
]
