-- ===== src/Keyboard/Case.antt =====
-- Keys that are pressed and released.
use storm_os.Base.{
  if◌then◌else◌, ==_ne, leb-true, leb-false, ℕ, ◌+◌, ◌%◌, ◌<◌, ◌≡◌, refl, ap, ◌∙◌, ◌≢◌, Bool, true,
  false, not, ◌&&◌, ◌||◌, List, [], ◌∷◌, arith,
}
use storm_os.Keyboard.Tables.{
  Flag, shift, ctl, alt, capslock, numlock, scrolllock, e0esc, shiftcode, togglecode,
}
use storm_os.Keyboard.{Keyboard, keyboard_get_data, key_pressed, press, release, is_entry}

shiftcode-e0esc : (b : ℕ) → is_entry (shiftcode b) e0esc ≡ false
unfolding shiftcode
shiftcode-e0esc b = ground arith

togglecode-e0esc : (b : ℕ) → is_entry (togglecode b) e0esc ≡ false
unfolding togglecode
togglecode-e0esc b = ground arith

press-e0esc : (b : ℕ) (flags : Flag → Bool) → flags e0esc ≡ false → press b flags e0esc ≡ false
unfolding press
press-e0esc b flags h = rw h (rw (shiftcode-e0esc b) (rw (togglecode-e0esc b) refl))

module _ (flags : Flag → Bool) (byte : ℕ) (rest : List ℕ) (writes : List (ℕ × ℕ)) where
  abbrev pub holding : Keyboard
  holding = record { flags = flags; input = byte ∷ rest; writes = writes; texts = [] }

get_data-press :
    (flags : Flag → Bool) (byte : ℕ) (rest : List ℕ) (writes : List (ℕ × ℕ))
    → byte < 0x80
    → flags e0esc ≡ false
    → ((keyboard_get_data (holding flags byte rest writes)).1.flags ≡ press byte flags)
      × ((keyboard_get_data (holding flags byte rest writes)).1.input ≡ rest)
unfolding keyboard_get_data key_pressed
get_data-press flags byte rest writes small plain =
    rw (==_ne byte 0xE0 (omega arith)) (rw (leb-false 0x80 byte small) (rw plain (refl, refl)))

get_data-release :
    (k : Keyboard) (byte : ℕ) (rest : List ℕ)
    → byte < 0x80
    → byte ≢ 0x60
    → k.flags e0esc ≡ false
    → k.input ≡ (byte + 0x80) ∷ rest
    → (keyboard_get_data k).1.flags ≡ release byte k.flags
unfolding keyboard_get_data
get_data-release k byte rest small ne plain e =
    let low : (byte + 0x80) % 0x80 ≡ byte = omega arith in
    rw
      (
        keyboard_get_data,
        e,
        ==_ne (byte + 0x80) 0xE0 (omega arith),
        leb-true 0x80 (byte + 0x80) (omega arith),
        plain,
        low,
      )
      refl

released :
    (h s t : Bool)
    → ((if t then not (h || s) else (h || s)) && not (s || false))
      ≡ (if s then false else if t then not h else h)
released h true true = ground arith
released h true false = ground arith
released true false true = refl
released true false false = refl
released false false true = refl
released false false false = refl

release-press :
    (byte : ℕ) (flags : Flag → Bool) (f : Flag)
    → flags e0esc ≡ false
    → release byte (press byte flags) f ≡ (
        if is_entry (shiftcode byte) f
        then false
        else if is_entry (togglecode byte) f
        then not (flags f)
        else flags f)
unfolding release press
release-press byte flags shift plain = released (flags shift) _ _
release-press byte flags ctl plain = released (flags ctl) _ _
release-press byte flags alt plain = released (flags alt) _ _
release-press byte flags capslock plain = released (flags capslock) _ _
release-press byte flags numlock plain = released (flags numlock) _ _
release-press byte flags scrolllock plain = released (flags scrolllock) _ _
release-press byte flags e0esc plain = rw (plain, shiftcode-e0esc byte, togglecode-e0esc byte) refl

-- The flags after a key with no escape was pressed and released: a modifier is off, a toggle is
-- flipped, and the others are as before.
pub press_release :
    (flags : Flag → Bool) (byte : ℕ) (rest : List ℕ) (writes : List (ℕ × ℕ)) (f : Flag)
    → byte < 0x80
    → byte ≢ 0x60
    → flags e0esc ≡ false
    → (keyboard_get_data
          (keyboard_get_data (holding flags byte ((byte + 0x80) ∷ rest) writes)).1).1.flags
        f
      ≡ (if is_entry (shiftcode byte) f
          then false
          else if is_entry (togglecode byte) f
          then not (flags f)
          else flags f)
press_release flags byte rest writes f small ne plain =
    let pressed = (keyboard_get_data (holding flags byte ((byte + 0x80) ∷ rest) writes)).1 in
    let (now, left) = get_data-press flags byte ((byte + 0x80) ∷ rest) writes small plain in
    let held = ap (λ (g : Flag → Bool). g e0esc) now ∙ press-e0esc byte flags plain in
    ap (λ (g : Flag → Bool). g f) (get_data-release pressed byte rest small ne held left)
    ∙ ap (λ (g : Flag → Bool). release byte g f) now
    ∙ release-press byte flags f plain
