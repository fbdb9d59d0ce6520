-- ===== src/Screen/Pixels.antt =====
-- DrawCharAt, pixel by pixel.
use storm_os.Base.{
  ◌==◌, if◌then◌else◌, ==_eq, ==_ne, ℕ, ◌+◌, ◌-◌, ◌*◌, ◌/◌, ◌%◌, ◌^◌, ◌≤◌, ◌<◌, ◌≡◌, sym, ap, ◌∙◌,
  ◌≢◌, ◌⊎◌, arith, pos,
}
use native.Mathlib.Decide.{ℕ_discrete}
use Prim.Native.Nat.{min, max, bit_and}
use storm_os.Console.{char_rows, char_cols}
use storm_os.Syscalls.{plane_size, vga_planes}
use storm_os.Screen.{
  Screen, draw_char_at, drawn_byte, plane_color, vga_width, vga_height, char_size,
}
use storm_os.Screen.Reverse.{reverse_bits}
use storm_os.Screen.Bits.{
  bit, bit-bit_and, bit-bit_or, bit_complement, bit_small, bit_zero, bit_full, bit-reverse_bits,
  reverse_bits_small,
}
use storm_os.Screen.Draw.{draw_char_at_bytes}

-- The pixel at column `x` of a byte, from the left: the highest bit is the first.
abbrev pub pixel : ℕ → ℕ → ℕ
pixel x byte = bit (7 - x) byte

-- What a plane shows at a pixel of the cell: where the font has a dot, the plane's part of the
-- color, elsewhere what was there; a backspace clears the cell.
abbrev pub shown : (ℕ → ℕ → ℕ) → ℕ → ℕ → ℕ → ℕ → ℕ → ℕ → ℕ → ℕ
shown font c color clear_color p i x old =
    if c == 0x08
    then clear_color / 2 ^ p % 2
    else if bit x (font c i) == 1
    then color / 2 ^ p % 2
    else old

pixel-plane_color : (color p x : ℕ) → pixel x (plane_color color p) ≡ color / 2 ^ p % 2
pixel-plane_color color p x = elim (ℕ_discrete (color / 2 ^ p % 2) 0) [
  | yes z ↦ rw (==_eq _ 0 z) (bit_zero (7 - x) ∙ sym z)
  | no ne ↦ rw (==_ne _ 0 ne) (bit_full (7 - x) (omega arith) ∙ omega (arith, ne))
]

mix :
    (f r pc old : ℕ)
    → r ≡ f
    → f < 2
    → pc < 2
    → old < 2
    → max (min old (1 - r)) (min r pc) ≡ (if f == 1 then pc else old)
mix f r pc old e hf hp ho = ground arith

pixel-drawn_byte :
    (font : ℕ → ℕ → ℕ) (c color clear_color p i x old : ℕ)
    → font c i < 2 ^ 8
    → x < 8
    → pixel x (drawn_byte font c color clear_color p i old)
      ≡ shown font c color clear_color p i x (pixel x old)
pixel-drawn_byte font c color clear_color p i x old hf hx = elim (ℕ_discrete c 0x08) [
  | yes back ↦ rw (==_eq c 0x08 back) (pixel-plane_color clear_color p x)
  | no other ↦
      let r = reverse_bits (font c i) in
      let pc = plane_color color p in
      let mirrored = bit-reverse_bits (font c i) x hf hx in
      rw (==_ne c 0x08 other) (
        bit-bit_or (7 - x) (bit_and old (0xff - r)) (bit_and r pc)
        ∙ rw
            (
              bit-bit_and (7 - x) old (0xff - r),
              bit-bit_and (7 - x) r pc,
              bit_complement (7 - x) r (omega arith) (reverse_bits_small (font c i) hf),
              pixel-plane_color color p x,
            )
            (mix (bit x (font c i)) (bit (7 - x) r) (color / 2 ^ p % 2) (pixel x old) mirrored
              (bit_small x (font c i)) (omega arith) (bit_small (7 - x) old)))
]

-- A character below 128 at one of the console's cells, with a font of bytes: in each plane, each
-- pixel of its cell at which the font has a dot, the leftmost from the lowest bit of the font's
-- line, gets the plane's part of the color, and each other one is as it was; a backspace gives all
-- pixels of the cell the color of the last clear. All bytes outside of the cell are as they were.
pub draw_char_at_lem :
    (font : ℕ → ℕ → ℕ) (c row col color : ℕ) (s : Screen)
    → c < 2 ^ 7
    → row < char_rows
    → col < char_cols
    → ((i : ℕ) → font c i < 2 ^ 8)
    → let t = draw_char_at font c (pos row) (pos col) color s in
      let place = λ (p : ℕ) (y : ℕ) (x : ℕ). p * plane_size + y * vga_width + x in
      ((p i x : ℕ)
        → p < vga_planes
        → i < char_size
        → x < 8
        → pixel x (t.screen_buf (place p (row * char_size + i) col))
          ≡ shown font c color s.last_clear_color p i x
              (pixel x (s.screen_buf (place p (row * char_size + i) col))))
      × ((p y x : ℕ)
          → y < vga_height
          → x < vga_width
          → (x ≢ col) ⊎ ((y < row * char_size) ⊎ (row * char_size + char_size ≤ y))
          → t.screen_buf (place p y x) ≡ s.screen_buf (place p y x))
draw_char_at_lem font c row col color s hc hr hcol bytes =
    let (cell, rest) = draw_char_at_bytes font c row col color s hc hr hcol in
    (
      λ p i x hp hi hx.
          ap (pixel x) (cell p i hp hi)
          ∙ pixel-drawn_byte font c color s.last_clear_color p i x
              (s.screen_buf (p * plane_size + (row * char_size + i) * vga_width + col)) (bytes i)
              hx,
      rest,
    )
