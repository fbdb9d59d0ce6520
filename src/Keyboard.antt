-- ===== src/Keyboard.antt =====
-- KeyboardGetData of src/keyboard.c. `shift` is the record of its bits.
pub mod Tables
pub mod Case
use storm_os.Base.{
  leb, ◌==◌, if◌then◌else◌, ℕ, ◌+◌, ◌-◌, ◌%◌, Bool, true, false, not, ◌&&◌, ◌||◌, Option, none,
  some, List, [], ◌∷◌, ◌++◌,
}
use storm_os.Keyboard.Tables.{
  Flag, shift, ctl, alt, capslock, numlock, scrolllock, e0esc, shiftcode, togglecode, normalmap,
  shiftmap, ctlmap,
}

abbrev pub key_del : ℕ
key_del = 0xE9

-- `shift`, the bytes that the controller holds, and what the code writes to ports.
pub record Keyboard : Type 0 where
  pub flags : Flag → Bool
  pub input : List ℕ
  pub writes : List (ℕ × ℕ)
  pub texts : List (List ℕ)

abbrev pub same_flag : Flag → Flag → Bool
same_flag shift shift = true
same_flag ctl ctl = true
same_flag alt alt = true
same_flag capslock capslock = true
same_flag numlock numlock = true
same_flag scrolllock scrolllock = true
same_flag e0esc e0esc = true
same_flag f g = false

-- Is it the flag of a table's entry?
abbrev pub is_entry : Option Flag → Flag → Bool
is_entry none g = false
is_entry (some f) g = same_flag f g

-- `shift &= ~(shiftcode[data] | E0ESC)`
unfoldable pub release : ℕ → (Flag → Bool) → Flag → Bool
release byte flags f = flags f && not (is_entry (shiftcode byte) f || same_flag e0esc f)

-- `shift &= ~E0ESC`
abbrev pub end_escape : (Flag → Bool) → Flag → Bool
end_escape flags f = flags f && not (same_flag e0esc f)

-- `shift |= shiftcode[data]; shift ^= togglecode[data];`
unfoldable pub press : ℕ → (Flag → Bool) → Flag → Bool
press byte flags f =
    let held = flags f || is_entry (shiftcode byte) f in
    if is_entry (togglecode byte) f then not held else held

-- `charcode[shift & (CTL | SHIFT)][data]`
unfoldable pub charcode : (Flag → Bool) → ℕ → ℕ
charcode flags byte =
    if flags ctl then ctlmap byte else if flags shift then shiftmap byte else normalmap byte

-- The case of a letter is swapped under caps lock.
unfoldable pub swap_case : Bool → ℕ → ℕ
swap_case caps c =
    if not caps
    then c
    else if leb 0x61 c && leb c 0x7A
    then c - 0x20
    else if leb 0x41 c && leb c 0x5A
    then c + 0x20
    else c

-- "Rebooting!\n"
abbrev pub rebooting : List ℕ
rebooting = 0x52 ∷ 0x65 ∷ 0x62 ∷ 0x6F ∷ 0x6F ∷ 0x74 ∷ 0x69 ∷ 0x6E ∷ 0x67 ∷ 0x21 ∷ 0x0A ∷ []

-- A byte that is neither the escape nor a release. Ctrl-Alt-Del prints, and then writes to port 0x92.
unfoldable pub key_pressed : ℕ → Keyboard → ℕ × Keyboard
key_pressed byte k =
    let escaped = k.flags e0esc in
    let code = if escaped then byte + 0x80 else byte in
    let flags = press code (if escaped then end_escape k.flags else k.flags) in
    let c = swap_case (flags capslock) (charcode flags code) in
    let reboots = flags ctl && flags alt && (c == key_del) in
    (
      c,
      record k {
        flags = flags;
        texts = if reboots then k.texts ++ rebooting ∷ [] else k.texts;
        writes = if reboots then k.writes ++ (0x92, 0x3) ∷ [] else k.writes;
      },
    )

-- `none` is -1: there is no data.
unfoldable pub keyboard_get_data : Keyboard → Option ℕ × Keyboard
unfolding key_pressed
keyboard_get_data k = elim k.input [
  | [] ↦ (none, k)
  | byte ∷ rest ↦
      let read = record k { input = rest } in
      let code = if k.flags e0esc then byte else byte % 0x80 in
      if byte == 0xE0
      then (some 0, record read { flags = λ f. k.flags f || same_flag e0esc f })
      else if leb 0x80 byte
      then (some 0, record read { flags = release code k.flags })
      else (some (key_pressed byte read).0, (key_pressed byte read).1)
]
