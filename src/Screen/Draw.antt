-- ===== src/Screen/Draw.antt =====
-- DrawCharAt changes the cell of its character, and no other byte.
use mathlib.Core.Path.{subst}
use native.Mathlib.Decide.{ℕ_discrete}
use storm_os.Base.{
  leb-false, update_self, update_ne, for_upto, ℕ, zero, suc, ◌+◌, ◌*◌, ◌^◌, ◌≤◌, ◌<◌, ◌≡◌, refl,
  sym, ap, ◌∙◌, ◌≢◌, ◌⊎◌, inl, inr, arith, pos,
}
use storm_os.MemVirtual.Ram.{Ram}
use storm_os.Console.{char_rows, char_cols}
use storm_os.Syscalls.{plane_size, vga_planes}
use storm_os.Screen.{
  Screen, draw_lines, draw_planes, draw_char_at, drawn_byte, vga_width, vga_height, char_size,
}

draw_lines-other :
    (n offset : ℕ) (byte : ℕ → ℕ → ℕ) (buf : Ram) (a : ℕ)
    → ((i : ℕ) → i < n → a ≢ offset + i * vga_width)
    → draw_lines n offset byte buf a ≡ buf a
unfolding draw_lines for_upto
draw_lines-other zero offset byte buf a out = refl
draw_lines-other (suc n) offset byte buf a out =
    let before = draw_lines n offset byte buf in
    update_ne before (offset + n * vga_width) a (byte n (before (offset + n * vga_width)))
      (out n (omega arith))
    ∙ draw_lines-other n offset byte buf a (λ i h. out i (omega arith))

draw_lines-line :
    (n offset : ℕ) (byte : ℕ → ℕ → ℕ) (buf : Ram) (i : ℕ)
    → i < n
    → draw_lines n offset byte buf (offset + i * vga_width) ≡ byte i (buf (offset + i * vga_width))
unfolding draw_lines for_upto
draw_lines-line zero offset byte buf i h = absurd (omega (arith, h))
draw_lines-line (suc n) offset byte buf i h =
    let before = draw_lines n offset byte buf in
    let at = offset + n * vga_width in
    elim (ℕ_discrete i n) [
      | yes e ↦
          subst
            (λ m.
              draw_lines (suc n) offset byte buf (offset + m * vga_width)
              ≡ byte m (buf (offset + m * vga_width)))
            (sym e)
            (update_self before at (byte n (before at))
              ∙ ap (byte n) (draw_lines-other n offset byte buf at (λ k hk. omega (arith, hk))))
      | no ne ↦
          update_ne before at (offset + i * vga_width) (byte n (before at)) (omega (arith, ne))
          ∙ draw_lines-line n offset byte buf i (omega (arith, h, ne))
    ]

module _ (start : ℕ) (byte : ℕ → ℕ → ℕ → ℕ) (buf : Ram) where
  draw_planes-other :
      (n a : ℕ)
      → ((p i : ℕ) → p < n → i < char_size → a ≢ start + p * plane_size + i * vga_width)
      → draw_planes n start byte buf a ≡ buf a
  unfolding draw_planes for_upto
  draw_planes-other zero a out = refl
  draw_planes-other (suc n) a out =
      draw_lines-other char_size (start + n * plane_size) (byte n) (draw_planes n start byte buf) a
        (λ i h. out n i (omega arith) h)
      ∙ draw_planes-other n a (λ p i hp h. out p i (omega arith) h)

  draw_planes-line :
      (n p i : ℕ)
      → p < n
      → i < char_size
      → draw_planes n start byte buf (start + p * plane_size + i * vga_width)
        ≡ byte p i (buf (start + p * plane_size + i * vga_width))
  unfolding draw_planes for_upto
  draw_planes-line zero p i hp h = absurd (omega (arith, hp))
  draw_planes-line (suc n) p i hp h =
      let before = draw_planes n start byte buf in
      elim (ℕ_discrete p n) [
        | yes e ↦
            subst
              (λ m.
                draw_planes (suc n) start byte buf (start + m * plane_size + i * vga_width)
                ≡ byte m i (buf (start + m * plane_size + i * vga_width)))
              (sym e)
              (draw_lines-line char_size (start + n * plane_size) (byte n) before i h
                ∙ ap (byte n i) (
                    draw_planes-other n (start + n * plane_size + i * vga_width)
                      (λ q k hq hk. omega (arith, hq, hk, h))))
        | no ne ↦
            draw_lines-other char_size (start + n * plane_size) (byte n) before
              (start + p * plane_size + i * vga_width) (λ k hk. omega (arith, ne, hk, h, hp))
            ∙ draw_planes-line n p i (omega (arith, hp, ne)) h
      ]

same_place :
    (p q y z x w : ℕ)
    → y < vga_height
    → z < vga_height
    → x < vga_width
    → w < vga_width
    → p * plane_size + y * vga_width + x ≡ q * plane_size + z * vga_width + w
    → (y ≡ z) × (x ≡ w)
same_place p q y z x w hy hz hx hw e =
    let (line, column) : (p * vga_height + y ≡ q * vga_height + z) × (x ≡ w) =
      (omega arith, omega arith) in
    (omega (arith, line), column)

apart :
    (p q y x row col i : ℕ)
    → y < vga_height
    → x < vga_width
    → row < char_rows
    → col < char_cols
    → i < char_size
    → (x ≢ col) ⊎ ((y < row * char_size) ⊎ (row * char_size + char_size ≤ y))
    → p * plane_size + y * vga_width + x
      ≢ row * char_size * vga_width + col + q * plane_size + i * vga_width
apart p q y x row col i hy hx hr hcol hi out e =
    let (line, column) =
      same_place p q y (row * char_size + i) x col hy (omega arith) hx hcol (omega arith) in
    elim out [
      | inl ne ↦ absurd (ne column)
      | inr (inl lt) ↦ absurd (omega (arith, line, lt, hi))
      | inr (inr le) ↦ absurd (omega (arith, line, le, hi))
    ]

-- The bytes of DrawCharAt.
pub draw_char_at_bytes :
    (font : ℕ → ℕ → ℕ) (c row col color : ℕ) (s : Screen)
    → c < 2 ^ 7
    → row < char_rows
    → col < char_cols
    → let t = draw_char_at font c (pos row) (pos col) color s in
      let place = λ (p : ℕ) (y : ℕ) (x : ℕ). p * plane_size + y * vga_width + x in
      ((p i : ℕ)
        → p < vga_planes
        → i < char_size
        → t.screen_buf (place p (row * char_size + i) col)
          ≡ drawn_byte font c color s.last_clear_color p i
              (s.screen_buf (place p (row * char_size + i) col)))
      × ((p y x : ℕ)
          → y < vga_height
          → x < vga_width
          → (x ≢ col) ⊎ ((y < row * char_size) ⊎ (row * char_size + char_size ≤ y))
          → t.screen_buf (place p y x) ≡ s.screen_buf (place p y x))
unfolding draw_char_at
draw_char_at_bytes font c row col color s hc hr hcol =
    let start = row * char_size * vga_width + col in
    let byte = drawn_byte font c color s.last_clear_color in
    rw (leb-false (2 ^ 7) c hc, leb-false char_rows row hr, leb-false char_cols col hcol)
      (
        λ p i hp hi.
            let e : row * char_size * vga_width + col + p * plane_size + i * vga_width
                ≡ p * plane_size + (row * char_size + i) * vga_width + col =
              omega arith in
            subst
              (λ a. draw_planes vga_planes start byte s.screen_buf a ≡ byte p i (s.screen_buf a)) e
              (draw_planes-line start byte s.screen_buf vga_planes p i hp hi),
        λ p y x hy hx out.
            draw_planes-other start byte s.screen_buf vga_planes
              (p * plane_size + y * vga_width + x)
              (λ q i hq hi e. apart p q y x row col i hy hx hr hcol hi out e),
      )
