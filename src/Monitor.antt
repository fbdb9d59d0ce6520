-- ===== src/Monitor.antt =====
-- src/monitor.c: the commands and the line that is edited. What is called in other files is kept as
-- calls, in their order.
pub mod Parse
pub mod Arguments
pub mod Editor
pub mod Loops
pub mod Split
pub mod Words
use storm_os.Base.{
  ltb, ◌==◌, if◌then◌else◌, update, ℕ, zero, suc, ◌+◌, ◌-◌, ◌%◌, Bool, true, false, ◌||◌, Option,
  none, some, List, [], ◌∷◌, ◌++◌, map, pos, negsuc,
}
use Prim.Native.String.{String}
use Prim.Native.Char.{code}
use storm_os.Strings.{string_cmp, string_len_n}
use storm_os.Console.{console_buffer_size, char_value}
use storm_os.Printf.{Arg, string, word32, until_zero}
use storm_os.Syscalls.{register}
use storm_os.Monitor.Parse.{too_many, arguments, parse_arguments, max_args}

-- The bytes of a literal.
abbrev pub codes : String → List ℕ
codes String.[] = []
codes (String.◌∷◌ c s) = code c ∷ codes s

-- Printf and PrintfColor with a format and its arguments, SetTextColor, ClearScreen, ResetCursor,
-- and CreateProcess(USER_PROC_ADDR, 10000) with ForceRunProcess of its result.
pub data Call : Type 0 where
  printf : List ℕ → List Arg → Call
  printf_color : ℕ → List ℕ → List Arg → Call
  set_text_color : ℕ → Call
  clear_screen : ℕ → Call
  reset_cursor : Call
  start_user : Call

abbrev pub prints : String → Call
prints text = printf (codes text) []

abbrev pub color_names : List (List ℕ)
color_names =
    codes "black"
    ∷ codes "blue"
    ∷ codes "green"
    ∷ codes "cyan"
    ∷ codes "red"
    ∷ codes "magenta"
    ∷ codes "brown"
    ∷ codes "bright-grey"
    ∷ codes "grey"
    ∷ codes "bright-blue"
    ∷ codes "bright-green"
    ∷ codes "bright-cyan"
    ∷ codes "bright-red"
    ∷ codes "bright-magenta"
    ∷ codes "yellow"
    ∷ codes "white"
    ∷ []

pub data CommandFunc : Type 0 where
  monitor_help monitor_text_color monitor_user : CommandFunc

-- The array `commands`.
pub record Command : Type 0 where
  pub name : List ℕ
  pub desc : List ℕ
  pub func : CommandFunc

abbrev pub commands : List Command
commands =
    record {
      name = codes "help";
      desc = codes "Display this list of commands";
      func = monitor_help;
    }
    ∷ record {
      name = codes "textcolor";
      desc = codes "Change the default text color";
      func = monitor_text_color;
    }
    ∷ record { name = codes "user"; desc = codes "Start the user process"; func = monitor_user }
    ∷ []

-- The loop of MonitorHelp.
abbrev pub help : List Command → List Call
help [] = []
help (c ∷ cs) =
    printf (codes "%s - %s\n") (string (some c.name) ∷ string (some c.desc) ∷ []) ∷ help cs

abbrev pub spaces : ℕ → List ℕ
spaces zero = []
spaces (suc n) = b' ' ∷ spaces n

-- The loop over the colors, from color `i` on.
abbrev pub list_colors : List (List ℕ) → ℕ → List Call
list_colors [] i = []
list_colors (name ∷ names) i =
    (if i % 4 == 0 then prints "\n" ∷ [] else [])
    ++ printf_color i (codes "%s%s")
        (string (some name) ∷ string (some (spaces (16 - string_len_n name 16))) ∷ [])
      ∷ list_colors names (i + 1)

-- `StringCmp(str1, str2) == 0`
abbrev pub equal : List ℕ → List ℕ → Bool
equal xs ys = elim (string_cmp xs ys) [ pos n ↦ n == 0 | negsuc n ↦ false ]

-- The loop that looks for the color, from color `i` on. `none` is -1.
unfoldable pub find_color : List ℕ → List (List ℕ) → ℕ → Option ℕ
find_color arg [] i = none
find_color arg (name ∷ names) i =
    let later = find_color arg names (i + 1) in if equal arg name then some i else later

abbrev available_colors : List Call
available_colors = prints "Available colors:" ∷ list_colors color_names 0 ++ prints "\n" ∷ []

abbrev pub text_color : List (List ℕ) → List Call
text_color (name ∷ arg ∷ []) = elim (find_color arg color_names 0) [
  | none ↦ prints "Invalid color.\n" ∷ available_colors
  | some color ↦ set_text_color color ∷ []
]
text_color args = prints "Usage: textcolor <color>\n" ∷ available_colors

unfoldable pub run_func : CommandFunc → List (List ℕ) → List Call
run_func monitor_help args = help commands
run_func monitor_text_color args = text_color args
run_func monitor_user args = clear_screen 15 ∷ reset_cursor ∷ start_user ∷ []

-- The loop that looks for the command.
unfoldable pub lookup_command : List ℕ → List Command → Option CommandFunc
lookup_command arg [] = none
lookup_command arg (c ∷ cs) =
    let later = lookup_command arg cs in if equal arg c.name then some c.func else later

-- Looks the command up and invokes it. The arguments are given as the strings that they point to.
unfoldable pub invoke : List (List ℕ) → List Call
invoke [] = []
invoke (name ∷ args) = elim (lookup_command name commands) [
  | none ↦ printf (codes "Unknown command: %s\n") (string (some name) ∷ []) ∷ []
  | some func ↦ run_func func (name ∷ args)
]

-- The string that a pointer into the buffer reads.
abbrev pub string_at : (ℕ → ℕ) → ℕ → List ℕ
string_at buf i = until_zero console_buffer_size buf i

-- `Printf("Too many arguments (max %d)\n", MAX_ARGS)`
abbrev pub refused : List Call
refused = printf (codes "Too many arguments (max %d)\n") (word32 max_args ∷ []) ∷ []

-- The calls, and the buffer with its whitespace cleared.
unfoldable pub run_command : (ℕ → ℕ) → Option (List Call × (ℕ → ℕ))
run_command buf = elim (parse_arguments console_buffer_size console_buffer_size [] buf 0) [
  | none ↦ none
  | some (too_many cleared) ↦ some (refused, cleared)
  | some (arguments argv cleared) ↦ some (invoke (map (string_at cleared) argv), cleared)
]

-- Is a user process started?
abbrev is_start : Call → Bool
is_start (printf fmt args) = false
is_start (printf_color color fmt args) = false
is_start (set_text_color color) = false
is_start (clear_screen color) = false
is_start reset_cursor = false
is_start start_user = true

abbrev pub starts_user : List Call → Bool
starts_user [] = false
starts_user (c ∷ cs) = is_start c || starts_user cs

-- The struct `monitor`, and whether the thread of the monitor was left: ForceRunProcess switches to
-- the user process without queueing that thread, so that it does not run again. The index is not
-- negative.
pub record Monitor : Type 0 where
  pub index : ℕ
  pub buf : ℕ → ℕ
  pub left : Bool

-- `Printf("%c", (char)ch)`
abbrev pub echo : ℕ → Call
echo c = printf (codes "%c") (word32 (register (char_value c)) ∷ [])

abbrev pub prompt : Call
prompt = prints "> "

-- The body of the loop of MonitorRun. `c` is the byte that GetChar returned as an int; an index
-- below 0 is set to 0. When a user process is started, nothing behind RunCommand is run, and no
-- further key is read.
unfoldable pub monitor_key : ℕ → Monitor → Option (Monitor × List Call)
monitor_key c s =
    let ran : Option (Monitor × List Call) = elim (run_command (update s.buf s.index 0)) [
      | none ↦ none
      | some (calls, buf) ↦
          if starts_user calls
          then some (record { index = s.index; buf = buf; left = true }, echo c ∷ calls)
          else some (record { index = 0; buf = buf; left = false }, echo c ∷ calls ++ prompt ∷ [])
    ] in
    let stored : Monitor = record s { index = s.index + 1; buf = update s.buf s.index c } in
    if s.left || (c == 0)
    then some (s, [])
    else if c == b'\n'
    then ran
    else if c == 0x08
    then some (record s { index = s.index - 1 }, echo c ∷ [])
    else some (if ltb s.index (console_buffer_size - 1) then stored else s, echo c ∷ [])

-- The loop of MonitorRun on the keys.
unfoldable pub monitor_keys : List ℕ → Monitor → Option (Monitor × List Call)
monitor_keys [] s = some (s, [])
monitor_keys (c ∷ cs) s = elim (monitor_key c s) [
  | none ↦ none
  | some (t, calls) ↦ elim (monitor_keys cs t) [
    | none ↦ none
    | some (u, later) ↦ some (u, calls ++ later)
  ]
]

abbrev banner_line : String → Call
banner_line text =
    printf_color 0b1101 (codes text) (string (some (spaces 11)) ∷ string (some (spaces 11)) ∷ [])

-- What MonitorRun does in front of the loop.
abbrev pub monitor_start : Monitor → Monitor × List Call
monitor_start s = (
  record s { index = 0 },
  clear_screen 0b0001
      ∷ reset_cursor
      ∷ banner_line "%s==========================================================%s\n"
      ∷ banner_line "%s|                       Welcome to                       |%s\n"
      ∷ banner_line "%s|                       Storm O.S.                       |%s\n"
      ∷ banner_line "%s|                                                        |%s\n"
      ∷ banner_line "%s|                   Main Command Prompt                  |%s\n"
      ∷ banner_line "%s==========================================================%s\n\n"
      ∷ prompt
      ∷ [],
)
