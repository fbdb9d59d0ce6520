-- ===== src/Screen.antt =====
-- src/screen.c: the buffer of the screen, a byte for eight pixels of a line of a plane. The font is a
-- parameter. DisplayUserBuffer stands with the system calls.
pub mod Draw
pub mod Bits
pub mod Pixels
pub mod Reverse
pub mod Scroll
use storm_os.Base.{
  ltb, leb, ◌==◌, if◌then◌else◌, ℤ, update, for_upto, ℕ, zero, suc, ◌+◌, ◌-◌, ◌*◌, ◌/◌, ◌%◌, ◌^◌,
  ◌||◌, List, [], ◌∷◌, ◌++◌, pos, negsuc,
}
use storm_os.MemVirtual.Ram.{Ram}
use storm_os.MemVirtual.Copy.{mem_copy, mem_set}
use storm_os.Console.{char_rows, char_cols}
use storm_os.Syscalls.{plane_size, vga_planes, plane_masks}
use storm_os.Screen.Reverse.{reverse_bits}
use Prim.Native.Nat.{bit_and, bit_or}

abbrev pub vga_width : ℕ
vga_width = 80

abbrev pub vga_height : ℕ
vga_height = 480

abbrev pub vga_pixels_per_byte : ℕ
vga_pixels_per_byte = 8

abbrev pub char_size : ℕ
char_size = 8

-- VGA_WIDTH * VGA_PIXELS_PER_BYTE * VGA_HEIGHT
abbrev pub pixels : ℕ
pixels = 307200

-- screenBuf and lastClearColor
pub record Screen : Type 0 where
  pub screen_buf : Ram
  pub last_clear_color : ℕ

-- `planeColor[p]`
abbrev pub plane_color : ℕ → ℕ → ℕ
plane_color color p = if color / 2 ^ p % 2 == 0 then 0 else 0xff

-- `(start - 1) / VGA_PIXELS_PER_BYTE + 1`, where C rounds towards 0
abbrev pub start_byte : ℕ → ℕ
start_byte start = if start == 0 then 1 else (start - 1) / vga_pixels_per_byte + 1

-- The loop of PaintRange over the planes.
unfoldable pub paint_planes : ℕ → ℕ → ℕ → Ram → Ram
paint_planes start size color buf =
    for_upto vga_planes
      (λ p buf.
        mem_set (p * plane_size + start_byte start) (plane_color color p)
          (size / vga_pixels_per_byte) buf)
      buf

unfoldable pub paint_range : ℤ → ℤ → ℕ → Screen → Screen
paint_range (negsuc start) size color s = s
paint_range (pos start) (negsuc size) color s = s
paint_range (pos start) (pos size) color s =
    if ltb pixels start || ltb pixels (start + size)
    then s
    else record s { screen_buf = paint_planes start size color s.screen_buf }

-- The byte that a line of a character leaves, for its byte of the font reversed.
abbrev pub drawn : ℕ → ℕ → ℕ → ℕ → ℕ → ℕ
drawn c reversed color clear old =
    if c == 0x08 then clear else bit_or (bit_and old (0xff - reversed)) (bit_and reversed color)

-- The lines of a character in a plane, from `offset` on.
unfoldable pub draw_lines : ℕ → ℕ → (ℕ → ℕ → ℕ) → Ram → Ram
draw_lines lines offset byte buf =
    for_upto lines
      (λ i buf. update buf (offset + i * vga_width) (byte i (buf (offset + i * vga_width)))) buf

-- The loop over the planes.
unfoldable pub draw_planes : ℕ → ℕ → (ℕ → ℕ → ℕ → ℕ) → Ram → Ram
draw_planes planes start byte buf =
    for_upto planes (λ p buf. draw_lines char_size (start + p * plane_size) (byte p) buf) buf

-- `font` gives the byte of a line of a character.
module _ (font : ℕ → ℕ → ℕ) where
  -- `screenBuf` behind the loops, at a line of a plane, from the byte that was there.
  abbrev pub drawn_byte : ℕ → ℕ → ℕ → ℕ → ℕ → ℕ → ℕ
  drawn_byte c color clear_color p i old =
      drawn c (reverse_bits (font c i)) (plane_color color p) (plane_color clear_color p) old

  -- `c` is a byte, which is no character below 0 for a `char` with a sign.
  unfoldable pub draw_char_at : ℕ → ℤ → ℤ → ℕ → Screen → Screen
  draw_char_at c (negsuc row) col color s = s
  draw_char_at c (pos row) (negsuc col) color s = s
  draw_char_at c (pos row) (pos col) color s =
      if leb (2 ^ 7) c || (leb char_rows row || leb char_cols col) then s else record s {
        screen_buf =
            draw_planes vga_planes (row * char_size * vga_width + col)
              (drawn_byte c color s.last_clear_color) s.screen_buf;
      }

-- VGA_WIDTH * VGA_HEIGHT * VGA_PLANES
abbrev pub screen_size : ℕ
screen_size = 153600

unfoldable pub scroll_screen : ℕ → Screen → Screen
scroll_screen rows s =
    let moved = mem_copy 0 (vga_width * rows) (screen_size - vga_width * rows) s.screen_buf in
    paint_range (pos (vga_width * vga_pixels_per_byte * (vga_height - rows)))
      (pos (vga_width * vga_pixels_per_byte * rows)) s.last_clear_color
      (record s { screen_buf = moved })

-- What goes to the hardware: a word to a port, or a copy of the buffer or a value to the memory at
-- VGA_ADDRESS, which holds the planes that the mask selects.
pub data Output : Type 0 where
  port_word_out : ℕ → ℕ → Output
  mem_copy_out : Ram → ℕ → ℕ → Output
  mem_set_out : ℕ → ℕ → Output

-- The loop over the planes, from plane `p` on.
abbrev pub by_plane : ℕ → ℕ → (ℕ → Output) → List Output
by_plane zero p out = []
by_plane (suc n) p out = port_word_out 0x3c4 (plane_masks p) ∷ out p ∷ by_plane n (p + 1) out

abbrev pub display_buffer : Ram → List Output
display_buffer buf =
    port_word_out 0x3ce 0x5
      ∷ by_plane vga_planes 0 (λ p. mem_copy_out buf (p * plane_size) plane_size)
    ++ port_word_out 0x3c4 0x0f02 ∷ []

abbrev pub flush_buffer : Screen → List Output
flush_buffer s = display_buffer s.screen_buf

unfoldable pub clear_screen : ℕ → Screen → Screen × List Output
clear_screen color s = (
  record s {
    screen_buf =
        for_upto vga_planes (λ p buf. mem_set (p * plane_size) (plane_color color p) plane_size buf)
          s.screen_buf;
    last_clear_color = color;
  },
  port_word_out 0x3ce 0x5
        ∷ by_plane vga_planes 0 (λ p. mem_set_out (plane_color color p) plane_size)
      ++ port_word_out 0x3c4 0x0f02 ∷ [],
)
