-- ===== src/Screen/Scroll.antt =====
-- ScrollScreen moves the lines of each plane up and clears the last ones.
use mathlib.Core.Path.{subst}
use native.Mathlib.Decide.{ℕ_discrete, dec_lt}
use storm_os.Base.{
  ltb, if◌then◌else◌, ==_ne, ltb-true, ltb-false, update_self, update_ne, for_upto, ℕ, zero, suc,
  ◌+◌, ◌-◌, ◌*◌, ◌/◌, ◌≤◌, ◌<◌, ◌≡◌, refl, sym, ap, ◌∙◌, inl, inr, arith,
}
use storm_os.MemVirtual.Ram.{Ram}
use storm_os.MemVirtual.Copy.{mem_copy, mem_set}
use storm_os.MemVirtual.Copy.Bytes.{Outside}
use storm_os.Syscalls.{plane_size, vga_planes}
use storm_os.Screen.{
  Screen, scroll_screen, paint_range, paint_planes, plane_color, screen_size, vga_width, vga_height,
  vga_pixels_per_byte, pixels,
}

-- MemCopy to a lower address, which may overlap.
mem_copy-other : (d s n a : ℕ) (r : Ram) → Outside a d n → mem_copy d s n r a ≡ r a
unfolding mem_copy for_upto
mem_copy-other d s zero a r out = refl
mem_copy-other d s (suc n) a r out =
    let before = mem_copy d s n r in
    elim out [
      | inl lt ↦
          update_ne before (d + n) a (before (s + n)) (omega (arith, lt))
          ∙ mem_copy-other d s n a r (inl lt)
      | inr le ↦
          update_ne before (d + n) a (before (s + n)) (omega (arith, le))
          ∙ mem_copy-other d s n a r (inr (omega (arith, le)))
    ]

mem_copy-down : (d s n i : ℕ) (r : Ram) → d ≤ s → i < n → mem_copy d s n r (d + i) ≡ r (s + i)
unfolding mem_copy for_upto
mem_copy-down d s zero i r le h = absurd (omega (arith, h))
mem_copy-down d s (suc n) i r le h =
    let before = mem_copy d s n r in
    elim (ℕ_discrete i n) [
      | yes e ↦
          subst (λ k. mem_copy d s (suc n) r (d + k) ≡ r (s + k)) (sym e)
            (update_self before (d + n) (before (s + n))
              ∙ mem_copy-other d s n (s + n) r (inr (omega arith)))
      | no ne ↦
          update_ne before (d + n) (d + i) (before (s + n)) (omega (arith, ne))
          ∙ mem_copy-down d s n i r le (omega (arith, ne, h))
    ]

mem_set-other : (d v n a : ℕ) (r : Ram) → Outside a d n → mem_set d v n r a ≡ r a
unfolding mem_set for_upto
mem_set-other d v zero a r out = refl
mem_set-other d v (suc n) a r out = elim out [
  | inl lt ↦
      update_ne (mem_set d v n r) (d + n) a v (omega (arith, lt)) ∙ mem_set-other d v n a r (inl lt)
  | inr le ↦
      update_ne (mem_set d v n r) (d + n) a v (omega (arith, le))
      ∙ mem_set-other d v n a r (inr (omega (arith, le)))
]

mem_set-in : (d v n i : ℕ) (r : Ram) → i < n → mem_set d v n r (d + i) ≡ v
unfolding mem_set for_upto
mem_set-in d v zero i r h = absurd (omega (arith, h))
mem_set-in d v (suc n) i r h = elim (ℕ_discrete i n) [
  | yes e ↦
      subst (λ k. mem_set d v (suc n) r (d + k) ≡ v) (sym e)
        (update_self (mem_set d v n r) (d + n) v)
  | no ne ↦
      update_ne (mem_set d v n r) (d + n) (d + i) v (omega (arith, ne))
      ∙ mem_set-in d v n i r (omega (arith, ne, h))
]

-- The loop of PaintRange over `n` planes.
module _ (from len : ℕ) (v : ℕ → ℕ) (r : Ram) where
  set_planes : ℕ → Ram
  set_planes n = for_upto n (λ p r. mem_set (p * plane_size + from) (v p) len r) r

  set_planes-other :
      (n a : ℕ) → ((p : ℕ) → p < n → Outside a (p * plane_size + from) len) → set_planes n a ≡ r a
  unfolding set_planes for_upto
  set_planes-other zero a out = refl
  set_planes-other (suc n) a out =
      mem_set-other (n * plane_size + from) (v n) len a (set_planes n) (out n (omega arith))
      ∙ set_planes-other n a (λ p h. out p (omega arith))

  set_planes-in :
      (n p i : ℕ)
      → p < n
      → i < len
      → from + len ≤ plane_size
      → set_planes n (p * plane_size + from + i) ≡ v p
  unfolding set_planes for_upto
  set_planes-in zero p i h hi fits = absurd (omega (arith, h))
  set_planes-in (suc n) p i h hi fits = elim (ℕ_discrete p n) [
    | yes e ↦
        subst (λ q. set_planes (suc n) (q * plane_size + from + i) ≡ v q) (sym e)
          (mem_set-in (n * plane_size + from) (v n) len i (set_planes n) hi)
    | no ne ↦
        mem_set-other (n * plane_size + from) (v n) len (p * plane_size + from + i) (set_planes n)
          (inl (omega (arith, ne, h, hi)))
        ∙ set_planes-in n p i (omega (arith, ne, h)) hi fits
  ]

module _ (rows : ℕ) (s : Screen) (h : rows < vga_height) where
  moved : Ram
  moved = mem_copy 0 (vga_width * rows) (screen_size - vga_width * rows) s.screen_buf

  scrolled : Ram
  scrolled =
      set_planes (vga_width * (vga_height - rows)) (vga_width * rows)
        (plane_color s.last_clear_color) moved vga_planes

  scroll_screen_buf : (scroll_screen rows s).screen_buf ≡ scrolled
  unfolding scroll_screen paint_range paint_planes scrolled set_planes moved
  scroll_screen_buf =
      let start = vga_width * vga_pixels_per_byte * (vga_height - rows) in
      let size = vga_width * vga_pixels_per_byte * rows in
      let c = plane_color s.last_clear_color in
      let from : (start - 1) / vga_pixels_per_byte + 1 ≡ vga_width * (vga_height - rows) =
        omega arith in
      let len : size / vga_pixels_per_byte ≡ vga_width * rows = omega arith in
      rw
        (
          ltb-false pixels start (omega arith),
          ltb-false pixels (start + size) (omega arith),
          ==_ne start 0 (omega arith),
        )
        (ap (λ b. set_planes b (size / vga_pixels_per_byte) c moved vga_planes) from
          ∙ ap (λ n. set_planes (vga_width * (vga_height - rows)) n c moved vga_planes) len)

-- The screen scrolled by fewer lines than it has: in each plane a line shows what stood `rows` lines
-- below it, and the last `rows` lines show the color that the screen was cleared with.
pub scroll_screen_lem :
    (rows : ℕ) (s : Screen)
    → rows < vga_height
    → (p y x : ℕ) → p < vga_planes
    → y < vga_height
    → x < vga_width
    → (scroll_screen rows s).screen_buf (p * plane_size + y * vga_width + x) ≡ (
        if ltb (y + rows) vga_height
        then s.screen_buf (p * plane_size + (y + rows) * vga_width + x)
        else plane_color s.last_clear_color p)
unfolding scrolled moved
scroll_screen_lem rows s h p y x hp hy hx =
    let at = p * plane_size + y * vga_width + x in
    let from = vga_width * (vga_height - rows) in
    let len = vga_width * rows in
    let bottom : at ≡ 0 + at = omega arith in
    let color = plane_color s.last_clear_color in
    ap (λ r. r at) (scroll_screen_buf rows s h) ∙ elim (dec_lt (y + rows) vga_height) [
      | yes lt ↦ rw (ltb-true (y + rows) vga_height lt) (
          set_planes-other from len color (moved rows s h) vga_planes at (λ q hq. outside q lt)
          ∙ ap (moved rows s h) bottom
          ∙ mem_copy-down 0 (vga_width * rows) (screen_size - vga_width * rows) at s.screen_buf
              (omega arith) (omega arith)
          ∙ ap s.screen_buf (omega arith))
      | no ge ↦ rw (ltb-false (y + rows) vga_height (omega (arith, ge))) (
          ap (scrolled rows s h) (omega (arith, ge))
          ∙ set_planes-in from len color (moved rows s h) vga_planes p
              ((y - (vga_height - rows)) * vga_width + x) hp (omega (arith, ge)) (omega arith))
    ]
  where
    outside :
        (q : ℕ)
        → y + rows < vga_height
        → Outside
            (p * plane_size + y * vga_width + x)
            (q * plane_size + vga_width * (vga_height - rows))
            (vga_width * rows)
    outside q lt = elim (dec_lt q p) [
      | yes l ↦ inr (omega (arith, l, lt))
      | no ge ↦ inl (omega (arith, ge, lt))
    ]
