-- ===== src/Printf/Colors.antt =====
-- Printf, PrintfColor and SetTextColor of src/printf.c, on the console.
use storm_os.Base.{length, All, ℕ, ◌≡◌, refl, false, Option, none, some, List}
use storm_os.Console.{Console, put_str}
use storm_os.Printf.{Arg, vprintf}
use storm_os.Printf.Buffer.{IsByte}
use storm_os.Printf.Render.{render, IsArg}
use storm_os.Printf.Prints.{vprintf-render}

-- The color that Printf uses, and the console that it prints to.
pub record Printer : Type 0 where
  pub text_color : ℕ
  pub console : Console

abbrev pub set_text_color : ℕ → Printer → Printer
set_text_color color p = record p { text_color = color }

-- The number of characters, and the console after the calls of PutStr. The bytes that the buffer
-- holds at first are not known.
module _ (garbage : ℕ → ℕ) where
  unfoldable pub printf_color : ℕ → List ℕ → List Arg → Printer → Option (ℕ × Printer)
  printf_color color fmt args p = elim (vprintf garbage fmt args) [
    | none ↦ none
    | some (count, out) ↦ some (count, record p { console = put_str out color p.console })
  ]

  unfoldable pub printf : List ℕ → List Arg → Printer → Option (ℕ × Printer)
  unfolding printf_color
  printf fmt args p = printf_color p.text_color fmt args p

-- Where a format and its arguments have a text, and this is a string's, Printf puts it on the
-- console in the color that was set last and returns its length: the arguments are taken in order,
-- each conversion prints the numeral, the character or the string, `%%` is a `%`, and an unknown
-- character stands as it is.
pub printf-render :
    (garbage : ℕ → ℕ) (color : ℕ) (fmt : List ℕ) (args : List Arg) (text : List ℕ) (p : Printer)
    → All IsArg args
    → render false fmt args ≡ some text
    → All IsByte text
    → printf garbage fmt args (set_text_color color p)
      ≡ some (length text, record { text_color = color; console = put_str text color p.console })
unfolding printf printf_color
printf-render garbage color fmt args text p h e bytes =
    rw (printf, printf_color, vprintf-render garbage fmt args text h e bytes) refl
