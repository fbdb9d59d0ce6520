-- ===== src/Printf/Buffer.antt =====
-- The buffer of printf: what PutStr gets is what was put, in its order.
use storm_os.Base.{
  ==_eq, ==_ne, leb-true, leb-false, length, length-append, All, update, update_ne, ℕ, zero, suc,
  ◌+◌, ◌-◌, ◌%◌, ◌^◌, ◌≤◌, ◌<◌, ◌≡◌, refl, sym, ap, ◌∙◌, ◌≢◌, false, some, List, [], ◌∷◌, ◌++◌,
  arith,
}
use mathlib.Core.Path.{subst}
use mathlib.Core.List.{append_assoc, append-nil}
use native.Mathlib.Decide.{dec_lt}
use storm_os.Console.{console_buffer_size}
use storm_os.Printf.{
  Arg, PrintBuf, until_zero, put_str, printf_put_ch, put_chars, vprint_fmt, vprintf,
}

-- The first `n` bytes of a buffer from `i` on.
abbrev pub bytes : ℕ → (ℕ → ℕ) → ℕ → List ℕ
bytes zero buf i = []
bytes (suc n) buf i = buf i ∷ bytes n buf (i + 1)

pub bytes_apart :
    (n i j v : ℕ) (buf : ℕ → ℕ) → i + n ≤ j → bytes n (update buf j v) i ≡ bytes n buf i
bytes_apart zero i j v buf h = refl
bytes_apart (suc n) i j v buf h =
    rw (update_ne buf j i v (omega arith))
      (ap (λ xs. buf i ∷ xs) (bytes_apart n (i + 1) j v buf (omega arith)))

pub bytes_snoc :
    (n i j c : ℕ) (buf : ℕ → ℕ)
    → j ≡ i + n
    → bytes (suc n) (update buf j c) i ≡ bytes n buf i ++ c ∷ []
bytes_snoc zero i j c buf e = rw (==_eq i j (omega arith)) refl
bytes_snoc (suc n) i j c buf e =
    rw (update_ne buf j i c (omega arith))
      (ap (λ xs. buf i ∷ xs) (bytes_snoc n (i + 1) j c buf (omega arith)))

-- A byte of a string that is no `%`.
pub record IsText (c : ℕ) : Type 0 where
  pub small : c < 2 ^ 8
  pub nonzero : c ≢ 0
  pub plain : c ≢ 0x25

-- A byte that a string can hold.
pub record IsByte (c : ℕ) : Type 0 where
  pub small : c < 2 ^ 8
  pub nonzero : c ≢ 0

-- The bytes are those of a string.
abbrev NonZero : List ℕ → Type 0
NonZero = All (λ c. c ≢ 0)

until_zero-bytes :
    (n i : ℕ) (buf : ℕ → ℕ)
    → NonZero (bytes n buf i)
    → buf (i + n) ≡ 0
    → until_zero (suc n) buf i ≡ bytes n buf i
unfolding until_zero
until_zero-bytes zero i buf nonzero end = rw (==_eq (buf i) 0 (ap buf (omega arith) ∙ end)) refl
until_zero-bytes (suc n) i buf (ne, rest) end =
    rw (==_ne (buf i) 0 ne)
      (ap (λ xs. buf i ∷ xs) (until_zero-bytes n (i + 1) buf rest (ap buf (omega arith) ∙ end)))

-- `done` was printed or is in the buffer.
record Printed (done : List ℕ) (b : PrintBuf) : Type 0 where
  room : b.index < console_buffer_size - 1
  count : b.count ≡ length done
  nonzero : NonZero (bytes b.index b.buf 0)
  text : b.out ++ bytes b.index b.buf 0 ≡ done

put_str_out :
    (b : PrintBuf)
    → NonZero (bytes b.index b.buf 0)
    → (put_str b).out ≡ b.out ++ bytes b.index b.buf 0
unfolding put_str
put_str_out b nonzero =
    let same = bytes_apart b.index 0 b.index 0 b.buf (omega arith) in
    ap (λ xs. b.out ++ xs)
      (until_zero-bytes b.index 0 (update b.buf b.index 0) (rw same nonzero)
          (rw (==_eq (0 + b.index) b.index (omega arith)) refl)
        ∙ same)

All-snoc : (xs : List ℕ) (c : ℕ) → NonZero xs → c ≢ 0 → NonZero (xs ++ c ∷ [])
All-snoc [] c _ ne = (ne, tt)
All-snoc (x ∷ xs) c (h, rest) ne = (h, All-snoc xs c rest ne)

put_str_count : (b : PrintBuf) → (put_str b).count ≡ b.count
unfolding put_str
put_str_count b = refl

module _ (c : ℕ) (done : List ℕ) (b : PrintBuf) (small : c < 2 ^ 8) (ne : c ≢ 0)
    (inv : Printed done b) where
  abbrev stored : ℕ → ℕ
  stored = update b.buf b.index (c % 2 ^ 8)

  abbrev full_buffer : PrintBuf
  full_buffer = record b { index = suc b.index; buf = stored }

  stored-bytes : bytes (suc b.index) stored 0 ≡ bytes b.index b.buf 0 ++ c ∷ []
  stored-bytes =
      ap (λ x. bytes (suc b.index) (update b.buf b.index x) 0) (omega arith)
      ∙ bytes_snoc b.index 0 b.index c b.buf (omega arith)

  stored-nonzero : NonZero (bytes (suc b.index) stored 0)
  stored-nonzero =
      subst NonZero (sym stored-bytes) (All-snoc (bytes b.index b.buf 0) c inv.nonzero ne)

  stored-text : b.out ++ bytes (suc b.index) stored 0 ≡ done ++ c ∷ []
  stored-text =
      ap (λ xs. b.out ++ xs) stored-bytes
      ∙ sym (append_assoc b.out (bytes b.index b.buf 0) (c ∷ []))
      ∙ ap (λ xs. xs ++ c ∷ []) inv.text

  counted : b.count + 1 ≡ length (done ++ c ∷ [])
  counted = omega (arith, inv.count, length-append done (c ∷ []))

  printf_put_ch-Printed : Printed (done ++ c ∷ []) (printf_put_ch c b)
  unfolding printf_put_ch
  printf_put_ch-Printed = elim (dec_lt (suc b.index) (console_buffer_size - 1)) [
    | yes room ↦
        rw (leb-false (console_buffer_size - 1) (suc b.index) room)
          (record { room = room; count = counted; nonzero = stored-nonzero; text = stored-text })
    | no full ↦
        rw (leb-true (console_buffer_size - 1) (suc b.index) (omega (arith, full))) (record {
          room = omega arith;
          count = ap (λ n. n + 1) (put_str_count full_buffer) ∙ counted;
          nonzero = tt;
          text =
              append-nil (put_str full_buffer).out
              ∙ put_str_out full_buffer stored-nonzero
              ∙ stored-text;
        })
  ]

put_chars-Printed :
    (cs done : List ℕ) (b : PrintBuf)
    → All IsByte cs
    → Printed done b
    → Printed (done ++ cs) (put_chars printf_put_ch cs b)
unfolding put_chars
put_chars-Printed [] done b _ inv = rw (append-nil done) inv
put_chars-Printed (c ∷ cs) done b (h, rest) inv = rw (sym (append_assoc done (c ∷ []) cs)) (
    put_chars-Printed cs (done ++ c ∷ []) (printf_put_ch c b) rest
      (printf_put_ch-Printed c done b h.small h.nonzero inv))

pub vprint_fmt_text {ℓ} :
    {S : Type ℓ} (put_ch : ℕ → S → S) (cs : List ℕ) (b : S)
    → All IsText cs
    → vprint_fmt put_ch false cs [] b ≡ some (put_chars put_ch cs b)
unfolding vprint_fmt put_chars
vprint_fmt_text put_ch [] b _ = refl
vprint_fmt_text put_ch (c ∷ cs) b (h, rest) =
    rw (==_ne c 0x25 h.plain) (vprint_fmt_text put_ch cs (put_ch c b) rest)

IsText-IsByte : (cs : List ℕ) → All IsText cs → All IsByte cs
IsText-IsByte [] h = tt
IsText-IsByte (c ∷ cs) (h, rest) =
    (record { small = h.small; nonzero = h.nonzero }, IsText-IsByte cs rest)

-- A format that puts a text is printed as this text.
pub vprintf-put_chars :
    (garbage : ℕ → ℕ) (fmt : List ℕ) (args : List Arg) (text : List ℕ)
    → ((s : PrintBuf)
        → vprint_fmt printf_put_ch false fmt args s ≡ some (put_chars printf_put_ch text s))
    → All IsByte text
    → vprintf garbage fmt args ≡ some (length text, text)
unfolding vprintf
vprintf-put_chars garbage fmt args text puts h =
    let start : PrintBuf = record { index = 0; count = 0; buf = garbage; out = [] } in
    let empty : Printed [] start = record {
      room = omega arith;
      count = refl;
      nonzero = tt;
      text = refl;
    } in
    let inv = put_chars-Printed text [] start h empty in
    let printed = put_str_out (put_chars printf_put_ch text start) inv.nonzero ∙ inv.text in
    rw (vprintf, puts start)
      (ap (λ (r : ℕ × List ℕ). some r)
        (ap (λ n. (n, (put_str (put_chars printf_put_ch text start)).out)) inv.count
          ∙ ap (λ xs. (length text, xs)) printed))

-- A format without `%` is printed as it is, whatever its length and whatever the buffer held, and
-- the number of its characters is returned.
pub vprintf_text :
    (garbage : ℕ → ℕ) (fmt : List ℕ)
    → All IsText fmt
    → vprintf garbage fmt [] ≡ some (length fmt, fmt)
vprintf_text garbage fmt h =
    vprintf-put_chars garbage fmt [] fmt (λ s. vprint_fmt_text printf_put_ch fmt s h)
      (IsText-IsByte fmt h)
