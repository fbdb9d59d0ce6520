-- ===== src/Console/Bounds.antt =====
-- The positions of src/console.c stay in their arrays, and its loop over the keyboard ends.
use native.Mathlib.Decide.{ℕ_discrete, dec_lt}
use storm_os.Base.{
  ◌==◌, if◌then◌else◌, ==_eq, ==_ne, leb-true, leb-false, ℤ, length, All, ℕ, zero, suc, ◌<◌, ◌≡◌,
  refl, none, some, List, [], ◌∷◌, ◌++◌, arith, pos, negsuc,
}
use storm_os.Keyboard.{Keyboard, keyboard_get_data, key_pressed}
use storm_os.Console.{
  Console, move_row, move_cursor, put_char, put_str, keep, poll, get_char, add_clamped, minus,
  char_rows, char_cols, console_buffer_size, called, char_value, Call, draw_char_at, scroll_screen,
  next_pos,
}

abbrev pub OnScreen : Call → Type 0
OnScreen (draw_char_at c row col color) = (row < char_rows) × (col < char_cols)
OnScreen scroll_screen = Unit

-- Positions in the ring and on the screen, but for the column, and nothing drawn elsewhere.
pub record Rows (s : Console) : Type 0 where
  pub read_small : s.read_pos < console_buffer_size
  pub write_small : s.write_pos < console_buffer_size
  pub row_small : s.row < char_rows
  pub drawn : All OnScreen s.calls

pub record InBounds (s : Console) : Type 0 where
  pub rows : Rows s
  pub col_small : s.col < char_cols

All-snoc : (xs : List Call) (c : Call) → All OnScreen xs → OnScreen c → All OnScreen (xs ++ c ∷ [])
All-snoc [] c h ok = (ok, tt)
All-snoc (x ∷ xs) c (h, rest) ok = (h, All-snoc xs c rest ok)

called-Rows : (call : Call) (s : Console) → OnScreen call → Rows s → Rows (called call s)
called-Rows call s ok v = record {
  read_small = v.read_small;
  write_small = v.write_small;
  row_small = v.row_small;
  drawn = All-snoc s.calls call v.drawn ok;
}

move_row-Rows : (d : ℤ) (s : Console) → Rows s → Rows (move_row d s)
unfolding move_row
move_row-Rows d s v = elim (dec_lt (add_clamped s.row d) char_rows) [
  | yes small ↦ rw (leb-false char_rows (add_clamped s.row d) small) (record {
    read_small = v.read_small;
    write_small = v.write_small;
    row_small = small;
    drawn = v.drawn;
  })
  | no large ↦ rw (leb-true char_rows (add_clamped s.row d) (omega (arith, large))) (record {
    read_small = v.read_small;
    write_small = v.write_small;
    row_small = omega arith;
    drawn = All-snoc s.calls scroll_screen v.drawn tt;
  })
]

Rows-col : (s : Console) (c : ℕ) → Rows s → Rows (record s { col = c })
Rows-col s c v = record {
  read_small = v.read_small;
  write_small = v.write_small;
  row_small = v.row_small;
  drawn = v.drawn;
}

move_cursor-InBounds : (d e : ℤ) (s : Console) → Rows s → InBounds (move_cursor d e s)
unfolding move_cursor
move_cursor-InBounds d e s v =
    let moved = move_row d s in
    let inside = move_row-Rows d s v in
    let col = add_clamped moved.col e in
    elim (dec_lt col char_cols) [
      | yes small ↦
          rw (leb-false char_cols col small)
            (record { rows = Rows-col moved col inside; col_small = small })
      | no large ↦
          let wide = record moved { col = col } in
          rw (leb-true char_cols col (omega (arith, large))) (record {
            rows =
                Rows-col (move_row (pos 1) wide) 0
                  (move_row-Rows (pos 1) wide (Rows-col moved col inside));
            col_small = omega arith;
          })
    ]

-- PutChar draws on the screen only, and leaves the cursor on it.
put_char-InBounds : (c color : ℕ) (s : Console) → InBounds s → InBounds (put_char c color s)
unfolding put_char
put_char-InBounds c color s v =
    let back = move_cursor (pos 0) (negsuc 0) s in
    let moved = move_cursor-InBounds (pos 0) (negsuc 0) s v.rows in
    elim (ℕ_discrete c 0x0A) [
      | yes e ↦ rw (==_eq c 0x0A e) (move_cursor-InBounds (pos 1) (minus s.col) s v.rows)
      | no ne ↦ rw (==_ne c 0x0A ne) (elim (ℕ_discrete c 0x08) [
        | yes e ↦ rw (==_eq c 0x08 e) (record {
          rows =
              called-Rows (draw_char_at 0x08 back.row back.col color) back
                (moved.rows.row_small, moved.col_small) moved.rows;
          col_small = moved.col_small;
        })
        | no other ↦ rw (==_ne c 0x08 other) (
            move_cursor-InBounds (pos 0) (pos 1) (called (draw_char_at c s.row s.col color) s) (
              called-Rows (draw_char_at c s.row s.col color) s (v.rows.row_small, v.col_small)
                v.rows))
      ])
    ]

-- PutStr draws on the screen only, whatever the string, and leaves the cursor on it.
pub put_str-InBounds :
    (cs : List ℕ) (color : ℕ) (s : Console) → InBounds s → InBounds (put_str cs color s)
unfolding put_str
put_str-InBounds [] color s v = v
put_str-InBounds (c ∷ cs) color s v =
    put_str-InBounds cs color (put_char c color s) (put_char-InBounds c color s v)

next_pos-small : (p : ℕ) → p < console_buffer_size → next_pos p < console_buffer_size
next_pos-small p h = ground arith

keep-InBounds : (ch : ℕ) (s : Console) → InBounds s → InBounds (keep ch s)
keep-InBounds ch s v = record {
  rows = record {
    read_small = v.rows.read_small;
    write_small = next_pos-small s.write_pos v.rows.write_small;
    row_small = v.rows.row_small;
    drawn = v.rows.drawn;
  };
  col_small = v.col_small;
}

pub get_data-cons :
    (k : Keyboard) (byte : ℕ) (rest : List ℕ)
    → k.input ≡ byte ∷ rest
    → (ch : ℕ) × ((keyboard_get_data k).0 ≡ some ch) × ((keyboard_get_data k).1.input ≡ rest)
unfolding keyboard_get_data key_pressed
get_data-cons k byte rest e = elim (ℕ_discrete byte 0xE0) [
  | yes z ↦ (
    0,
    rw (keyboard_get_data, e, ==_eq byte 0xE0 z) refl,
    rw (keyboard_get_data, e, ==_eq byte 0xE0 z) refl,
  )
  | no ne ↦ elim (dec_lt byte 0x80) [
    | yes small ↦ (
      (key_pressed byte (record k { input = rest })).0,
      rw (keyboard_get_data, e, ==_ne byte 0xE0 ne, leb-false 0x80 byte small) refl,
      rw (keyboard_get_data, e, ==_ne byte 0xE0 ne, leb-false 0x80 byte small) refl,
    )
    | no large ↦
        let high = leb-true 0x80 byte (omega (arith, large)) in
        (
          0,
          rw (keyboard_get_data, e, ==_ne byte 0xE0 ne, high) refl,
          rw (keyboard_get_data, e, ==_ne byte 0xE0 ne, high) refl,
        )
  ]
]

pub get_data-nil :
    (k : Keyboard)
    → k.input ≡ []
    → ((keyboard_get_data k).0 ≡ none) × ((keyboard_get_data k).1.input ≡ [])
unfolding keyboard_get_data
get_data-nil k e = (rw (keyboard_get_data, e) refl, rw (keyboard_get_data, e) e)

-- What the polling loop leaves.
record Polled (fuel : ℕ) (k : Keyboard) (s : Console) : Type 0 where
  keyboard : Keyboard
  console : Console
  returns : poll fuel k s ≡ some (keyboard, console)
  drained : keyboard.input ≡ []
  bounds : InBounds console

poll-Polled :
    (fuel : ℕ) (xs : List ℕ) (k : Keyboard) (s : Console)
    → k.input ≡ xs
    → length xs < fuel
    → InBounds s
    → Polled fuel k s
unfolding poll
poll-Polled zero xs k s e h v = absurd (omega arith)
poll-Polled (suc fuel) [] k s e h v = record {
  keyboard = (keyboard_get_data k).1;
  console = s;
  returns = rw (poll, (get_data-nil k e).0) refl;
  drained = (get_data-nil k e).1;
  bounds = v;
}
poll-Polled (suc fuel) (byte ∷ xs) k s e h v =
    let (ch, got, left) = get_data-cons k byte xs e in
    let s' = if ch == 0 then s else keep ch s in
    let v' : InBounds s' = elim (ℕ_discrete ch 0) [
      | yes z ↦ rw (==_eq ch 0 z) v
      | no ne ↦ rw (==_ne ch 0 ne) (keep-InBounds ch s v)
    ] in
    let rest = poll-Polled fuel xs (keyboard_get_data k).1 s' left (omega arith) v' in
    record {
      keyboard = rest.keyboard;
      console = rest.console;
      returns = rw (poll, got) rest.returns;
      drained = rest.drained;
      bounds = rest.bounds;
    }

abbrev taken : Console → Console
taken t = record t { read_pos = next_pos t.read_pos }

taken-InBounds : (t : Console) → InBounds t → InBounds (taken t)
taken-InBounds t v = record {
  rows = record {
    read_small = next_pos-small t.read_pos v.rows.read_small;
    write_small = v.rows.write_small;
    row_small = v.rows.row_small;
    drawn = v.rows.drawn;
  };
  col_small = v.col_small;
}

-- GetChar ends, takes all that the keyboard holds, and keeps every position in its array.
pub get_char-total :
    (k : Keyboard) (s : Console)
    → InBounds s
    → (ch : ℤ) × (k' : Keyboard) × (t : Console) × (get_char k s ≡ some (ch, k', t))
      × (k'.input ≡ [])
      × InBounds t
unfolding get_char
get_char-total k s v =
    let polled = poll-Polled (suc (length k.input)) k.input k s refl (omega arith) v in
    let t = polled.console in
    elim (ℕ_discrete t.read_pos t.write_pos) [
      | yes e ↦ (
        pos 0,
        polled.keyboard,
        t,
        rw (get_char, polled.returns, ==_eq t.read_pos t.write_pos e) refl,
        polled.drained,
        polled.bounds,
      )
      | no ne ↦ (
        char_value (t.buf t.read_pos),
        polled.keyboard,
        taken t,
        rw (get_char, polled.returns, ==_ne t.read_pos t.write_pos ne) refl,
        polled.drained,
        taken-InBounds t polled.bounds,
      )
    ]
