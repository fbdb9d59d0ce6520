-- ===== src/Keyboard/Tables.antt =====
-- The tables of src/keyboard.c.
use storm_os.Base.{
  ltb, ◌==◌, if◌then◌else◌, length, get_or, ℕ, ◌||◌, Option, none, some, List, [], ◌∷◌,
}

-- The bits of `shift`.
pub data Flag : Type 0 where
  shift ctl alt capslock numlock scrolllock e0esc : Flag

unfoldable pub shiftcode : ℕ → Option Flag
shiftcode byte =
    if (byte == 0x1D) || (byte == 0x9D)
    then some ctl
    else if (byte == 0x2A) || (byte == 0x36)
    then some shift
    else if (byte == 0x38) || (byte == 0xB8)
    then some alt
    else none

unfoldable pub togglecode : ℕ → Option Flag
togglecode byte =
    if byte == 0x3A
    then some capslock
    else if byte == 0x45
    then some numlock
    else if byte == 0x46
    then some scrolllock
    else none

-- A table that is given by its first entries and those at some later indices.
pub lookup : List (ℕ × ℕ) → ℕ → ℕ
lookup [] i = 0
lookup ((j, c) ∷ later) i = let rest = lookup later i in if j == i then c else rest

pub table : List ℕ → List (ℕ × ℕ) → ℕ → ℕ
table first later i = if ltb i (length first) then get_or first i 0 else lookup later i

unfoldable pub normalmap : ℕ → ℕ
unfolding table lookup
normalmap =
    table
      (0x00 ∷ 0x1B ∷ 0x31 ∷ 0x32 ∷ 0x33 ∷ 0x34 ∷ 0x35 ∷ 0x36 ∷ 0x37 ∷ 0x38 ∷ 0x39 ∷ 0x30 ∷ 0x2D
        ∷ 0x3D ∷ 0x08 ∷ 0x09 ∷ 0x71 ∷ 0x77 ∷ 0x65 ∷ 0x72 ∷ 0x74 ∷ 0x79 ∷ 0x75 ∷ 0x69 ∷ 0x6F ∷ 0x70
        ∷ 0x5B ∷ 0x5D ∷ 0x0A ∷ 0x00 ∷ 0x61 ∷ 0x73 ∷ 0x64 ∷ 0x66 ∷ 0x67 ∷ 0x68 ∷ 0x6A ∷ 0x6B ∷ 0x6C
        ∷ 0x3B ∷ 0x27 ∷ 0x60 ∷ 0x00 ∷ 0x5C ∷ 0x7A ∷ 0x78 ∷ 0x63 ∷ 0x76 ∷ 0x62 ∷ 0x6E ∷ 0x6D ∷ 0x2C
        ∷ 0x2E ∷ 0x2F ∷ 0x00 ∷ 0x2A ∷ 0x00 ∷ 0x20 ∷ 0x00 ∷ 0x00 ∷ 0x00 ∷ 0x00 ∷ 0x00 ∷ 0x00 ∷ 0x00
        ∷ 0x00 ∷ 0x00 ∷ 0x00 ∷ 0x00 ∷ 0x00 ∷ 0x00 ∷ 0x37 ∷ 0x38 ∷ 0x39 ∷ 0x2D ∷ 0x34 ∷ 0x35 ∷ 0x36
        ∷ 0x2B ∷ 0x31 ∷ 0x32 ∷ 0x33 ∷ 0x30 ∷ 0x2E ∷ 0x00 ∷ 0x00 ∷ 0x00 ∷ 0x00 ∷ [])
      ((0xC7, 0xE0)
        ∷ (0x9C, 0x0A)
        ∷ (0xB5, 0x2F)
        ∷ (0xC8, 0xE2)
        ∷ (0xC9, 0xE6)
        ∷ (0xCB, 0xE4)
        ∷ (0xCD, 0xE5)
        ∷ (0xCF, 0xE1)
        ∷ (0xD0, 0xE3)
        ∷ (0xD1, 0xE7)
        ∷ (0xD2, 0xE8)
        ∷ (0xD3, 0xE9)
        ∷ [])

unfoldable pub shiftmap : ℕ → ℕ
unfolding table lookup
shiftmap =
    table
      (0x00 ∷ 0x1B ∷ 0x21 ∷ 0x40 ∷ 0x23 ∷ 0x24 ∷ 0x25 ∷ 0x5E ∷ 0x26 ∷ 0x2A ∷ 0x28 ∷ 0x29 ∷ 0x5F
        ∷ 0x2B ∷ 0x08 ∷ 0x09 ∷ 0x51 ∷ 0x57 ∷ 0x45 ∷ 0x52 ∷ 0x54 ∷ 0x59 ∷ 0x55 ∷ 0x49 ∷ 0x4F ∷ 0x50
        ∷ 0x7B ∷ 0x7D ∷ 0x0A ∷ 0x00 ∷ 0x41 ∷ 0x53 ∷ 0x44 ∷ 0x46 ∷ 0x47 ∷ 0x48 ∷ 0x4A ∷ 0x4B ∷ 0x4C
        ∷ 0x3A ∷ 0x22 ∷ 0x7E ∷ 0x00 ∷ 0x7C ∷ 0x5A ∷ 0x58 ∷ 0x43 ∷ 0x56 ∷ 0x42 ∷ 0x4E ∷ 0x4D ∷ 0x3C
        ∷ 0x3E ∷ 0x3F ∷ 0x00 ∷ 0x2A ∷ 0x00 ∷ 0x20 ∷ 0x00 ∷ 0x00 ∷ 0x00 ∷ 0x00 ∷ 0x00 ∷ 0x00 ∷ 0x00
        ∷ 0x00 ∷ 0x00 ∷ 0x00 ∷ 0x00 ∷ 0x00 ∷ 0x00 ∷ 0x37 ∷ 0x38 ∷ 0x39 ∷ 0x2D ∷ 0x34 ∷ 0x35 ∷ 0x36
        ∷ 0x2B ∷ 0x31 ∷ 0x32 ∷ 0x33 ∷ 0x30 ∷ 0x2E ∷ 0x00 ∷ 0x00 ∷ 0x00 ∷ 0x00 ∷ [])
      ((0xC7, 0xE0)
        ∷ (0x9C, 0x0A)
        ∷ (0xB5, 0x2F)
        ∷ (0xC8, 0xE2)
        ∷ (0xC9, 0xE6)
        ∷ (0xCB, 0xE4)
        ∷ (0xCD, 0xE5)
        ∷ (0xCF, 0xE1)
        ∷ (0xD0, 0xE3)
        ∷ (0xD1, 0xE7)
        ∷ (0xD2, 0xE8)
        ∷ (0xD3, 0xE9)
        ∷ [])

unfoldable pub ctlmap : ℕ → ℕ
unfolding table lookup
ctlmap =
    table
      (0x00 ∷ 0x00 ∷ 0x00 ∷ 0x00 ∷ 0x00 ∷ 0x00 ∷ 0x00 ∷ 0x00 ∷ 0x00 ∷ 0x00 ∷ 0x00 ∷ 0x00 ∷ 0x00
        ∷ 0x00 ∷ 0x00 ∷ 0x00 ∷ 0x11 ∷ 0x17 ∷ 0x05 ∷ 0x12 ∷ 0x14 ∷ 0x19 ∷ 0x15 ∷ 0x09 ∷ 0x0F ∷ 0x10
        ∷ 0x00 ∷ 0x00 ∷ 0x0D ∷ 0x00 ∷ 0x01 ∷ 0x13 ∷ 0x04 ∷ 0x06 ∷ 0x07 ∷ 0x08 ∷ 0x0A ∷ 0x0B ∷ 0x0C
        ∷ 0x00 ∷ 0x00 ∷ 0x00 ∷ 0x00 ∷ 0x1C ∷ 0x1A ∷ 0x18 ∷ 0x03 ∷ 0x16 ∷ 0x02 ∷ 0x0E ∷ 0x0D ∷ 0x00
        ∷ 0x00 ∷ 0xEF ∷ 0x00 ∷ 0x00 ∷ [])
      ((0x97, 0xE0)
        ∷ (0xB5, 0xEF)
        ∷ (0xC8, 0xE2)
        ∷ (0xC9, 0xE6)
        ∷ (0xCB, 0xE4)
        ∷ (0xCD, 0xE5)
        ∷ (0xCF, 0xE1)
        ∷ (0xD0, 0xE3)
        ∷ (0xD1, 0xE7)
        ∷ (0xD2, 0xE8)
        ∷ (0xD3, 0xE9)
        ∷ [])
