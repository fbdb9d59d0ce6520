-- ===== src/User/Program.antt =====
-- src/user/user.c, on the results of GetChar. `none` is what C leaves undefined: an `int` that
-- overflows, and a shift by 32 or more.
pub mod Shifts
use storm_os.Base.{
  leb, ◌==◌, if◌then◌else◌, ℤ, get_or, update, ℕ, zero, suc, ◌+◌, ◌-◌, ◌*◌, ◌/◌, ◌%◌, ◌^◌, Bool,
  false, not, ◌||◌, Option, none, some, List, [], ◌∷◌, ◌++◌, map, pos, negsuc,
}
use mathlib.Core.Option
use storm_os.Monitor.{codes}

-- PrintfColor with a text, and DisplayBuffer with a buffer.
pub data Event : Type 0 where
  print : ℕ → List ℕ → Event
  display : (ℕ → ℕ) → Event

abbrev pub vga_width : ℕ
vga_width = 80

abbrev pub vga_height : ℕ
vga_height = 480

abbrev pub vga_planes : ℕ
vga_planes = 4

abbrev pub bytes_per_plane : ℕ
bytes_per_plane = vga_width * vga_height

abbrev pub patterns : List (List ℕ)
patterns =
    (0b11110000 ∷ 0b11101000 ∷ 0b11011000 ∷ 0b10111000 ∷ 0b01111000 ∷ 0b01110100 ∷ 0b01101100
      ∷ 0b01011100 ∷ 0b00111100 ∷ 0b00111010 ∷ 0b00110110 ∷ 0b00101110 ∷ 0b00011110 ∷ 0b00011101
      ∷ 0b00011011 ∷ 0b00010111 ∷ 0b00001111 ∷ 0b10001110 ∷ 0b10001101 ∷ 0b10001011 ∷ 0b10000111
      ∷ 0b01000111 ∷ 0b11000110 ∷ 0b11000101 ∷ 0b11000011 ∷ 0b10100011 ∷ 0b01100011 ∷ 0b11100010
      ∷ 0b11100001 ∷ 0b11010001 ∷ 0b10110001 ∷ 0b01110001 ∷ [])
    ∷ (0b00011000 ∷ 0b00100100 ∷ 0b01000010 ∷ 0b10000001 ∷ 0b11000011 ∷ 0b01100110 ∷ 0b00111100
        ∷ 0b00011000 ∷ 0b00111100 ∷ 0b11011011 ∷ 0b01100110 ∷ 0b00111100 ∷ 0b10111101 ∷ 0b01100110
        ∷ 0b11011011 ∷ 0b10011001 ∷ 0b00011000 ∷ 0b00100100 ∷ 0b01000010 ∷ 0b10000001 ∷ 0b11000011
        ∷ 0b01100110 ∷ 0b00111100 ∷ 0b00011000 ∷ 0b00111100 ∷ 0b11011011 ∷ 0b01100110 ∷ 0b00111100
        ∷ 0b10111101 ∷ 0b01100110 ∷ 0b11011011 ∷ 0b10011001 ∷ [])
    ∷ (0 ∷ [])
    ∷ (0xff ∷ 0 ∷ 0 ∷ 0 ∷ 0 ∷ 0 ∷ 0xff ∷ 0 ∷ 0 ∷ 0 ∷ 0 ∷ 0 ∷ 0 ∷ 0 ∷ 0xff ∷ 0xfd ∷ 0x0d ∷ 0xca
        ∷ 0xfe ∷ 0xba ∷ 0xbe ∷ [])
    ∷ []

-- `pattern[p][i]`; the places behind an initializer are 0.
pub pattern : ℕ → ℕ → ℕ
pattern p i = get_or (get_or patterns p []) i 0

pub record Offsets : Type 0 where
  pub offset_x : ℕ
  pub offset_y : ℕ
  pub offset_z : ℕ

-- `ch == c`
abbrev pub is : ℤ → ℕ → Bool
is (pos n) c = n == c
is (negsuc n) c = false

-- `ch == upper || ch == lower`
abbrev pub is_either : ℤ → ℕ → ℕ → Bool
is_either ch upper lower = is ch upper || is ch lower

abbrev pub is_control : ℤ → Bool
is_control ch =
    is_either ch b'A' b'a'
    || is_either ch b'D' b'd'
    || is_either ch b'W' b'w'
    || is_either ch b'S' b's'
    || is_either ch b'Q' b'q'
    || is_either ch b'E' b'e'

-- `n++`
abbrev pub increment : ℕ → Option ℕ
increment n = if n + 1 == 2 ^ 31 then none else some (n + 1)

-- The ifs over a key that is a control. The test `offsetY < 0` behind the `S` never holds.
unfoldable pub move : ℤ → Offsets → Option Offsets
move ch o =
    let down = Option.map (λ y. record o { offset_y = y }) (increment o.offset_y) in
    let ahead = Option.map (λ z. record o { offset_z = z }) (increment o.offset_z) in
    if is_either ch b'A' b'a'
    then some (record o { offset_x = if o.offset_x == 0 then 7 else o.offset_x - 1 })
    else if is_either ch b'D' b'd'
    then some (record o { offset_x = (o.offset_x + 1) % 8 })
    else if is_either ch b'S' b's'
    then down
    else if is_either ch b'W' b'w'
    then down
    else if is_either ch b'Q' b'q'
    then some (record o { offset_z = if o.offset_z == 0 then 3 else o.offset_z - 1 })
    else ahead

-- `v >> n`
abbrev pub shift_right : ℕ → ℕ → Option ℕ
shift_right v n = if leb 32 n then none else some (v / 2 ^ n)

-- The first `n` rounds of a loop `for (i ...) { buf[i] = value; }`, with the plane's first place.
unfoldable pub fill : ℕ → (ℕ → Option ℕ) → ℕ → (ℕ → ℕ) → Option (ℕ → ℕ)
fill zero value start buf = some buf
fill (suc n) value start buf = elim (fill n value start buf) [
  | none ↦ none
  | some filled ↦ elim (value n) [
    | none ↦ none
    | some v ↦ some (update filled (start + n) (v % 2 ^ 8))
  ]
]

-- The first `n` rounds of the loop over the planes.
unfoldable pub draw : ℕ → (ℕ → ℕ → Option ℕ) → (ℕ → ℕ) → Option (ℕ → ℕ)
draw zero value buf = some buf
draw (suc n) value buf = elim (draw n value buf) [
  | none ↦ none
  | some drawn ↦ fill bytes_per_plane (value n) (n * bytes_per_plane) drawn
]

unfoldable pub first_picture : Offsets → (ℕ → ℕ) → Option (ℕ → ℕ)
first_picture o buf =
    draw vga_planes (λ p i. shift_right (pattern p (o.offset_y % 32)) o.offset_x) buf

unfoldable pub next_picture : Offsets → (ℕ → ℕ) → Option (ℕ → ℕ)
next_picture o buf =
    draw vga_planes
      (λ p i. shift_right (pattern ((p + o.offset_z) % 4) (o.offset_y % 32)) (o.offset_x + i / 11))
      buf

-- The second loop of main: what it displays.
unfoldable pub play : List ℤ → Offsets → (ℕ → ℕ) → Option (List Event)
play [] o buf = some []
play (ch ∷ keys) o buf =
    let idle = play keys o buf in
    let moved : Option (List Event) = elim (move ch o) [
      | none ↦ none
      | some t ↦ elim (next_picture t buf) [
        | none ↦ none
        | some drawn ↦ Option.map (λ later. display drawn ∷ later) (play keys t drawn)
      ]
    ] in
    if is_control ch then moved else idle

-- The first loop of main: the keys behind the first V. The test `ch > 0` holds for a V.
unfoldable pub wait_for_v : List ℤ → Option (List ℤ)
wait_for_v [] = none
wait_for_v (ch ∷ keys) =
    let rest = wait_for_v keys in if is_either ch b'V' b'v' then some keys else rest

-- COLOR_BLACK and COLOR_BROWN
abbrev pub welcome : List Event
welcome =
    print 0 (codes "Welcome to the user program.\n\n")
    ∷ print 0 (codes "Controls: W, A, S, D, Q, E\n")
    ∷ print 0b0110 (codes "It's not a game, it's just strange colors...\n")
    ∷ print 0 (codes "Press 'V' to begin.\n")
    ∷ []

-- What main has printed and displayed once it has read the keys; it does not end by itself.
unfoldable pub user_main : List ℤ → (ℕ → ℕ) → Option (List Event)
user_main keys buf =
    let o : Offsets = record { offset_x = 0; offset_y = 0; offset_z = 0 } in
    elim (wait_for_v keys) [
      | none ↦ some welcome
      | some later ↦ elim (first_picture o buf) [
        | none ↦ none
        | some drawn ↦ Option.map (λ shown. welcome ++ display drawn ∷ shown) (play later o drawn)
      ]
    ]
