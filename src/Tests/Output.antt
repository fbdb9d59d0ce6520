-- ===== src/Tests/Output.antt =====
-- Strings, printf and the console at concrete inputs.
use storm_os.Base.{
  ℤ, All, ℕ, ◌^◌, ◌<◌, ◌≡◌, refl, false, some, List, [], ◌∷◌, ◌++◌, map, arith, pos,
}
use storm_os.Printf.{print_num, put_chars, hex_digit, Arg, word32, string}
use storm_os.Printf.Number.{value, digits, print_num_lem}
use storm_os.Printf.Buffer.{IsByte}
use storm_os.Printf.Render.{render}
use storm_os.Printf.Colors.{Printer, printf, set_text_color, printf-render}
use storm_os.Monitor.{codes}
use storm_os.Keyboard.{
  Keyboard, keyboard_get_data, key_pressed, charcode, swap_case, press, release,
}
use storm_os.User.{user_vprintf}
use storm_os.User.Text.{concat, Short, user_vprintf-render}
use storm_os.Console.Queue
use storm_os.Console.Queue.{get_char-Holds}
use storm_os.Console.Ring.{Holds}
use storm_os.Keyboard.Tables.{shiftcode, togglecode, normalmap}
use storm_os.Console.{Console, get_char, put_str}
use storm_os.Console.Bounds.{InBounds, put_str-InBounds, get_char-total}

abbrev append : ℕ → List ℕ → List ℕ
append c cs = cs ++ c ∷ []

print_num_example :
    (ds : List ℕ) × (print_num append 64 255 16 [] ≡ some (put_chars append (map hex_digit ds) []))
    × (value 16 ds 0 ≡ 255)
    × All (λ d. d < 16) ds
print_num_example = print_num_lem append 255 16 [] (omega arith) (omega arith) (omega arith)

-- "hi"
abbrev hi : List ℕ
hi = 0x68 ∷ 0x69 ∷ []

abbrev fresh : Console
fresh = record { buf = λ i. 0; read_pos = 0; write_pos = 0; row = 59; col = 79; calls = [] }

-- A negative number, a string and a percent sign.
abbrev fmt : List ℕ
fmt = codes "%d%s%%"

abbrev args : List Arg
args = word32 0xFFFFFFFB ∷ string (some hi) ∷ []

abbrev text : List ℕ
text = codes "-5hi%"

text-rendered : render false fmt args ≡ some text
unfolding render digits
text-rendered = refl

byte : (c : ℕ) → 0 < c → c < 2 ^ 8 → IsByte c
byte c positive small = record { small = small; nonzero = λ e. omega (arith, e) }

text-IsByte : All IsByte text
text-IsByte = (
  byte 45 (omega arith) (omega arith),
  (
    byte 53 (omega arith) (omega arith),
    (
      byte 104 (omega arith) (omega arith),
      (byte 105 (omega arith) (omega arith), (byte 37 (omega arith) (omega arith), tt)),
    ),
  ),
)

abbrev white : Printer
white = record { text_color = 15; console = fresh }

printf-render_example :
    printf (λ i. 0xCC) fmt args (set_text_color 4 white)
    ≡ some (5, record { text_color = 4; console = put_str text 4 fresh })
printf-render_example =
    printf-render (λ i. 0xCC) 4 fmt args text white (omega arith, (tt, tt)) text-rendered
      text-IsByte

fresh-InBounds : InBounds fresh
fresh-InBounds = record {
  rows = record {
    read_small = omega arith;
    write_small = omega arith;
    row_small = omega arith;
    drawn = tt;
  };
  col_small = omega arith;
}

put_str_example : InBounds (put_str hi 15 fresh)
put_str_example = put_str-InBounds hi 15 fresh fresh-InBounds

abbrev typed : Keyboard
typed = record { flags = λ f. false; input = 0x1E ∷ 0x9E ∷ []; writes = []; texts = [] }

get_char_example :
    (ch : ℤ) × (k' : Keyboard) × (t : Console) × (get_char typed fresh ≡ some (ch, k', t))
    × (k'.input ≡ [])
    × InBounds t
get_char_example = get_char-total typed fresh fresh-InBounds

-- A ring with one character at its end, and the key `a` pressed and released.
abbrev one_kept : Console
one_kept = record fresh { buf = λ i. 0x62; read_pos = 511; write_pos = 0 }

get_char-Holds_example :
    (k' : Keyboard) × (t : Console) × (get_char typed one_kept ≡ some (pos 0x62, k', t))
    × (k'.input ≡ [])
    × Holds t (0x61 ∷ [])
unfolding Queue.typed keyboard_get_data key_pressed charcode swap_case press release shiftcode
    togglecode normalmap
get_char-Holds_example =
    get_char-Holds typed one_kept (0x62 ∷ []) (omega arith) (omega arith) (omega arith)
      (refl, omega arith, refl)

user_vprintf-render_example :
    (pieces : List (List ℕ)) × (user_vprintf (λ i. 7) fmt args ≡ some (5, pieces))
    × (concat pieces ≡ text)
    × All Short pieces
user_vprintf-render_example =
    user_vprintf-render (λ i. 7) fmt args text (omega arith, (tt, tt)) text-rendered
      (omega arith, (omega arith, (omega arith, (omega arith, (omega arith, tt)))))
