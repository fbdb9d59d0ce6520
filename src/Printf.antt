-- ===== src/Printf.antt =====
-- PrintfPutCh, PrintNum, VPrintFmt and VPrintf of src/printf.c. Characters are the bytes that
-- PutStr passes on.
pub mod Buffer
pub mod Number
pub mod Prints
pub mod Colors
pub mod Render
use storm_os.Base.{
  ltb, leb, ◌==◌, if◌then◌else◌, has, update, ℕ, zero, suc, ◌+◌, ◌-◌, ◌%◌, ◌^◌, ap, Bool, true,
  false, Option, none, some, List, [], ◌∷◌, ◌++◌,
}
use storm_os.Console.{console_buffer_size}
use storm_os.Types.Divide.{divide_64_by_32, modulo_64_by_32, u64_mod}

-- The buffer, and the characters that PutStr has been given so far.
pub record PrintBuf : Type 0 where
  pub index : ℕ
  pub count : ℕ
  pub buf : ℕ → ℕ
  pub out : List ℕ

-- `while (*str != 0)` of PutStr, on at most `n` bytes of a buffer from `i` on.
unfoldable pub until_zero : ℕ → (ℕ → ℕ) → ℕ → List ℕ
until_zero zero buf i = []
until_zero (suc n) buf i =
    let rest = until_zero n buf (i + 1) in if buf i == 0 then [] else buf i ∷ rest

-- `buf->buf[buf->index] = 0; PutStr(buf->buf, color);`. The zero ends the string after `index`
-- bytes at the latest.
pub put_str : PrintBuf → PrintBuf
put_str b =
    let ended = update b.buf b.index 0 in
    record b { buf = ended; out = b.out ++ until_zero (suc b.index) ended 0 }

unfoldable pub printf_put_ch : ℕ → PrintBuf → PrintBuf
printf_put_ch ch b =
    let stored = record b { buf = update b.buf b.index (ch % 2 ^ 8); index = suc b.index } in
    let flushed = record (put_str stored) { index = 0 } in
    let kept = if leb (console_buffer_size - 1) stored.index then flushed else stored in
    record kept { count = kept.count + 1 }

-- "0123456789abcdef"[i], for i below 16
abbrev pub hex_digit : ℕ → ℕ
hex_digit i = if ltb i 10 then 0x30 + i else 0x61 + (i - 10)

module _ {ℓ} {S : Type ℓ} (put_ch : ℕ → S → S) where
  -- 64 calls are enough for a 64-bit number in any base from 2 on. A base of 0 traps, and a digit
  -- from 16 on is none of the literal: neither has a result.
  unfoldable pub print_num : ℕ → ℕ → ℕ → S → Option S
  print_num zero num base s = none
  print_num (suc fuel) num base s = elim (divide_64_by_32 num base) [
    | none ↦ none
    | some quotient ↦ elim (modulo_64_by_32 num base) [
      | none ↦ none
      | some digit ↦
          let before = print_num fuel quotient base s in
          let printed : Option S = elim (if leb base num then before else some s) [
            | none ↦ none
            | some t ↦ some (put_ch (hex_digit digit) t)
          ] in
          if ltb digit 16 then printed else none
    ]
  ]

  -- `while ((ch = *p++) != '\0') putCh(ch, color, putData);`
  unfoldable pub put_chars : List ℕ → S → S
  put_chars [] s = s
  put_chars (c ∷ cs) s = put_chars cs (put_ch c s)

-- The arguments of the variable list: a 32-bit word, a 64-bit one, or a string.
pub data Arg : Type 0 where
  word32 : ℕ → Arg
  word64 : ℕ → Arg
  string : Option (List ℕ) → Arg

-- "(null)"
abbrev pub null_text : List ℕ
null_text = 0x28 ∷ 0x6E ∷ 0x75 ∷ 0x6C ∷ 0x6C ∷ 0x29 ∷ []

-- `int`, in two's complement: its sign, and `(uint64)` of its magnitude. The negation of the least
-- int wraps around to itself, and is then extended by its sign.
abbrev pub is_negative : ℕ → Bool
is_negative w = leb (2 ^ 31) w

abbrev pub negated : ℕ → ℕ
negated w = if w == 2 ^ 31 then u64_mod - 2 ^ 31 else 2 ^ 32 - w

-- c, s, d, u, l, o, p and x
abbrev pub takes_arg : ℕ → Bool
takes_arg ch = has ch (0x63 ∷ 0x73 ∷ 0x64 ∷ 0x75 ∷ 0x6C ∷ 0x6F ∷ 0x70 ∷ 0x78 ∷ [])

module _ {ℓ} {S : Type ℓ} (put_ch : ℕ → S → S) where
  -- An escape sequence that takes an argument. `none` is an argument of another type, which C
  -- leaves undefined.
  unfoldable pub print_arg : ℕ → Arg → S → Option S
  print_arg ch (word32 w) s =
      if ch == 0x63
      then some (put_ch w s)
      else if ch == 0x64
      then (if is_negative w
          then print_num put_ch 64 (negated w) 10 (put_ch 0x2D s)
          else print_num put_ch 64 w 10 s)
      else if ch == 0x75
      then print_num put_ch 64 w 10 s
      else if ch == 0x6F
      then print_num put_ch 64 w 8 s
      else if ch == 0x70
      then print_num put_ch 64 w 16 (put_ch 0x78 (put_ch 0x30 s))
      else if ch == 0x78
      then print_num put_ch 64 w 16 s
      else none
  print_arg ch (word64 w) s = if ch == 0x6C then print_num put_ch 64 w 16 s else none
  print_arg ch (string none) s = if ch == 0x73 then some (put_chars put_ch null_text s) else none
  print_arg ch (string (some text)) s = if ch == 0x73 then some (put_chars put_ch text s) else none

  -- The format is the list of its bytes in front of the zero. The flag tells whether a `%` was
  -- read: an unknown character behind it is printed as it is, after the `%`.
  unfoldable pub vprint_fmt : Bool → List ℕ → List Arg → S → Option S
  vprint_fmt false [] ap s = some s
  vprint_fmt true [] ap s = some (put_ch 0x25 s)
  vprint_fmt false (ch ∷ fmt) ap s =
      let escape = vprint_fmt true fmt ap s in
      let next = vprint_fmt false fmt ap (put_ch ch s) in if ch == 0x25 then escape else next
  vprint_fmt true (ch ∷ fmt) ap s =
      let percent = vprint_fmt false fmt ap (put_ch ch s) in
      let literal = vprint_fmt false fmt ap (put_ch ch (put_ch 0x25 s)) in
      if ch == 0x25
      then percent
      else if takes_arg ch
      then elim ap [
        | [] ↦ none
        | arg ∷ args ↦ elim (print_arg ch arg s) [
          | none ↦ none
          | some t ↦ vprint_fmt false fmt args t
        ]
      ]
      else literal

-- The number of characters that is returned, and what PutStr was given.
unfoldable pub vprintf : (ℕ → ℕ) → List ℕ → List Arg → Option (ℕ × List ℕ)
vprintf garbage fmt ap =
    let start : PrintBuf = record { index = 0; count = 0; buf = garbage; out = [] } in
    elim (vprint_fmt printf_put_ch false fmt ap start) [
      | none ↦ none
      | some b ↦ some (b.count, (put_str b).out)
    ]
