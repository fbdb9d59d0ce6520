-- ===== src/User/Text.antt =====
-- What Printf of the user library hands to PutStr.
use mathlib.Core.Path.{subst}
use mathlib.Core.List.{append_assoc, append-nil}
use native.Mathlib.Decide.{dec_lt}
use storm_os.Base.{
  leb-true, leb-false, length, length-append, All, update, ℕ, zero, suc, ◌+◌, ◌-◌, ◌%◌, ◌^◌, ◌<◌,
  ◌≡◌, refl, sym, ap, ◌∙◌, false, some, List, [], ◌∷◌, ◌++◌, arith,
}
use storm_os.Printf.{Arg, put_chars}
use storm_os.Printf.Render.{render, IsArg}
use storm_os.Printf.Prints.{vprint_fmt-render}
use storm_os.Printf.Buffer.{bytes, bytes_apart, bytes_snoc}
use storm_os.User.{UserBuf, flush, user_put_ch, user_vprintf, print_buffer_size}

abbrev pub concat : List (List ℕ) → List ℕ
concat [] = []
concat (x ∷ xs) = x ++ concat xs

abbrev pub Short : List ℕ → Type 0
Short t = length t < print_buffer_size

concat-snoc : (xs : List (List ℕ)) (y : List ℕ) → concat (xs ++ y ∷ []) ≡ concat xs ++ y
concat-snoc [] y = append-nil y
concat-snoc (x ∷ xs) y = ap (λ z. x ++ z) (concat-snoc xs y) ∙ sym (append_assoc x (concat xs) y)

All-snoc : (xs : List (List ℕ)) (y : List ℕ) → All Short xs → Short y → All Short (xs ++ y ∷ [])
All-snoc [] y h hy = (hy, tt)
All-snoc (x ∷ xs) y (h, rest) hy = (h, All-snoc xs y rest hy)

length-bytes : (n i : ℕ) (buf : ℕ → ℕ) → length (bytes n buf i) ≡ n
length-bytes zero i buf = refl
length-bytes (suc n) i buf = omega (arith, length-bytes n (i + 1) buf)

-- `done` was handed over or is in the buffer.
record Held (done : List ℕ) (b : UserBuf) : Type 0 where
  room : b.index < print_buffer_size - 1
  count : b.count ≡ length done
  text : concat b.out ++ bytes b.index b.buf 0 ≡ done
  short : All Short b.out

flush_out : (b : UserBuf) → (flush b).out ≡ b.out ++ bytes b.index b.buf 0 ∷ []
unfolding flush
flush_out b = ap (λ t. b.out ++ t ∷ []) (bytes_apart b.index 0 b.index 0 b.buf (omega arith))

flush_count : (b : UserBuf) → (flush b).count ≡ b.count
unfolding flush
flush_count b = refl

module _ (done : List ℕ) (b : UserBuf) (text : concat b.out ++ bytes b.index b.buf 0 ≡ done)
    (short : All Short b.out) (room : b.index < print_buffer_size) where
  flush-text : concat (flush b).out ≡ done
  flush-text = ap concat (flush_out b) ∙ concat-snoc b.out (bytes b.index b.buf 0) ∙ text

  flush-Short : All Short (flush b).out
  flush-Short = subst (All Short) (sym (flush_out b)) (
      All-snoc b.out (bytes b.index b.buf 0) short
        (omega (arith, room, length-bytes b.index 0 b.buf)))

user_put_ch-Held :
    (c : ℕ) (done : List ℕ) (b : UserBuf)
    → c < 2 ^ 8
    → Held done b
    → Held (done ++ c ∷ []) (user_put_ch c b)
unfolding user_put_ch
user_put_ch-Held c done b small inv =
    let stored : UserBuf = record b {
      buf = update b.buf b.index (c % 2 ^ 8);
      index = suc b.index;
    } in
    let byte : c % 2 ^ 8 ≡ c = omega arith in
    let text : concat b.out ++ bytes (suc b.index) stored.buf 0 ≡ done ++ c ∷ [] =
      ap (λ xs. concat b.out ++ xs)
        (ap (λ x. bytes (suc b.index) (update b.buf b.index x) 0) byte
          ∙ bytes_snoc b.index 0 b.index c b.buf (omega arith))
      ∙ sym (append_assoc (concat b.out) (bytes b.index b.buf 0) (c ∷ []))
      ∙ ap (λ xs. xs ++ c ∷ []) inv.text in
    let counted : b.count + 1 ≡ length (done ++ c ∷ []) =
      omega (arith, inv.count, length-append done (c ∷ [])) in
    elim (dec_lt (suc b.index) (print_buffer_size - 1)) [
      | yes room ↦
          rw (leb-false (print_buffer_size - 1) (suc b.index) room)
            (record { room = room; count = counted; text = text; short = inv.short })
      | no full ↦
          rw (leb-true (print_buffer_size - 1) (suc b.index) (omega (arith, full))) (record {
            room = omega arith;
            count = ap (λ n. n + 1) (flush_count stored) ∙ counted;
            text =
                append-nil (concat (flush stored).out)
                ∙ flush-text (done ++ c ∷ []) stored text inv.short (omega (arith, inv.room));
            short = flush-Short (done ++ c ∷ []) stored text inv.short (omega (arith, inv.room));
          })
    ]

-- A character that a byte holds.
abbrev pub IsSmall : ℕ → Type 0
IsSmall c = c < 2 ^ 8

put_chars-Held :
    (cs done : List ℕ) (b : UserBuf)
    → All IsSmall cs
    → Held done b
    → Held (done ++ cs) (put_chars user_put_ch cs b)
unfolding put_chars
put_chars-Held [] done b _ inv = subst (λ xs. Held xs b) (sym (append-nil done)) inv
put_chars-Held (c ∷ cs) done b (h, rest) inv =
    subst (λ xs. Held xs (put_chars user_put_ch cs (user_put_ch c b)))
      (append_assoc done (c ∷ []) cs)
      (put_chars-Held cs (done ++ c ∷ []) (user_put_ch c b) rest (user_put_ch-Held c done b h inv))

-- Where a format and its arguments have a text of bytes, Printf of the user library hands this text
-- to PutStr in pieces, in its order, each of them shorter than the buffer, and returns the number of
-- its characters.
pub user_vprintf-render :
    (garbage : ℕ → ℕ) (fmt : List ℕ) (args : List Arg) (text : List ℕ)
    → All IsArg args
    → render false fmt args ≡ some text
    → All IsSmall text
    → (pieces : List (List ℕ)) × (user_vprintf garbage fmt args ≡ some (length text, pieces))
      × (concat pieces ≡ text)
      × All Short pieces
unfolding user_vprintf
user_vprintf-render garbage fmt args text words e small =
    let start : UserBuf = record { index = 0; count = 0; buf = garbage; out = [] } in
    let last = put_chars user_put_ch text start in
    let inv =
      put_chars-Held text [] start small
        (record { room = omega arith; count = refl; text = refl; short = tt }) in
    (
      (flush last).out,
      rw (user_vprintf, vprint_fmt-render user_put_ch fmt args text start words e)
          (ap (λ n. some (n, (flush last).out)) inv.count),
      flush-text text last inv.text inv.short (omega (arith, inv.room)),
      flush-Short text last inv.text inv.short (omega (arith, inv.room)),
    )
