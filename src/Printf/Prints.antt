-- ===== src/Printf/Prints.antt =====
-- VPrintFmt and VPrintf of src/printf.c against the text of a format.
use native.Mathlib.Decide.{ℕ_discrete, dec_lt}
use mathlib.Core.Option.{some-injective, none-ne-some}
use storm_os.Base.{
  ◌==◌, if◌then◌else◌, ==_eq, ==_ne, ltb-true, ltb-false, leb-true, leb-false, length, All, ℕ, suc,
  ◌-◌, ◌^◌, ◌≤◌, ◌<◌, ◌≡◌, refl, sym, ap, ◌∙◌, Bool, true, false, Option, none, some, List, [], ◌∷◌,
  ◌++◌, arith,
}
use storm_os.Types.Divide.{u64_mod}
use storm_os.Printf.{
  Arg, word32, word64, string, put_chars, print_num, print_arg, takes_arg, vprint_fmt, vprintf,
  is_negative, negated, printf_put_ch,
}
use storm_os.Printf.Number.{print_num-digits}
use storm_os.Printf.Buffer.{IsByte, vprintf-put_chars}
use storm_os.Printf.Render.{numeral, signed, decimal, arg_text, behind, render, IsArg}

module _ {S : Type 0} (put_ch : ℕ → S → S) where
  numeral-put :
      (base n : ℕ) (s : S)
      → 2 ≤ base
      → base ≤ 16
      → n < u64_mod
      → print_num put_ch 64 n base s ≡ some (put_chars put_ch (numeral base n) s)
  numeral-put base n s two small h = print_num-digits base two small put_ch 64 n s h h (omega arith)

  put_chars-append :
      (xs ys : List ℕ) (s : S)
      → put_chars put_ch (xs ++ ys) s ≡ put_chars put_ch ys (put_chars put_ch xs s)
  unfolding put_chars
  put_chars-append [] ys s = refl
  put_chars-append (x ∷ xs) ys s = put_chars-append xs ys (put_ch x s)

  -- Prints the text, where there is one.
  Prints : Option (List ℕ) → Option S → S → Type 0
  Prints text run s = (t : List ℕ) → text ≡ some t → run ≡ some (put_chars put_ch t s)

  Prints-if :
      (b : Bool) (text other : Option (List ℕ)) (run next : Option S) (s : S)
      → Prints text run s
      → Prints other next s
      → Prints (if b then text else other) (if b then run else next) s
  Prints-if true text other run next s h g = h
  Prints-if false text other run next s h g = g

  Prints-none : (run : Option S) (s : S) → Prints none run s
  unfolding Prints
  Prints-none run s t e = absurd (none-ne-some t e)

  Prints-some :
      (text : List ℕ) (run : Option S) (s : S)
      → run ≡ some (put_chars put_ch text s)
      → Prints (some text) run s
  unfolding Prints
  Prints-some text run s h t e = h ∙ ap (λ t. some (put_chars put_ch t s)) (some-injective text t e)

  decimal-put :
      (w : ℕ) (s : S)
      → w < 2 ^ 32
      → Prints
          (if w == 2 ^ 31 then none else some (decimal (signed w)))
          (if is_negative w
            then print_num put_ch 64 (negated w) 10 (put_ch b'-' s)
            else print_num put_ch 64 w 10 s)
          s
  unfolding put_chars
  decimal-put w s h = elim (ℕ_discrete w (2 ^ 31)) [
    | yes e ↦ rw (==_eq w (2 ^ 31) e) (Prints-none _ s)
    | no ne ↦ rw (==_ne w (2 ^ 31) ne) (elim (dec_lt w (2 ^ 31)) [
      | yes small ↦
          rw (ltb-true w (2 ^ 31) small, leb-false (2 ^ 31) w small)
            (Prints-some _ _ s (numeral-put 10 w s (omega arith) (omega arith) (omega arith)))
      | no large ↦
          rw
            (
              ltb-false w (2 ^ 31) (omega (arith, large)),
              leb-true (2 ^ 31) w (omega (arith, large)),
            )
            (let less : 4294967296 - w ≡ suc (4294967295 - w) = omega (arith, large) in
              Prints-some _ _ s (
                rw less (
                  numeral-put 10 (suc (4294967295 - w)) (put_ch b'-' s) (omega arith) (omega arith)
                    (omega (arith, large)))))
    ])
  ]

  print_word32 :
      (ch w : ℕ) (s : S)
      → w < 2 ^ 32
      → Prints (arg_text ch (word32 w)) (print_arg put_ch ch (word32 w) s) s
  unfolding print_arg put_chars
  print_word32 ch w s h =
      let num = λ (base : ℕ) (two : 2 ≤ base) (small : base ≤ 16) (s : S).
        numeral-put base w s two small (omega arith) in
      (Prints-if (ch == b'c') _ _ _ _ s (Prints-some (w ∷ []) _ s refl) (
        Prints-if (ch == b'd') _ _ _ _ s (decimal-put w s h) (
          Prints-if (ch == b'u') _ _ _ _ s
            (Prints-some _ _ s (num 10 (omega arith) (omega arith) s))
            (Prints-if (ch == b'o') _ _ _ _ s
              (Prints-some _ _ s (num 8 (omega arith) (omega arith) s))
              (Prints-if (ch == b'p') _ _ _ _ s
                (Prints-some _ _ s
                  (num 16 (omega arith) (omega arith) (put_ch b'x' (put_ch b'0' s))))
                (Prints-if (ch == b'x') _ _ _ _ s
                  (Prints-some _ _ s (num 16 (omega arith) (omega arith) s)) (Prints-none _ s)))))))

  print_arg-Prints :
      (ch : ℕ) (arg : Arg) (s : S)
      → IsArg arg
      → Prints (arg_text ch arg) (print_arg put_ch ch arg s) s
  unfolding print_arg
  print_arg-Prints ch (word32 w) s h = print_word32 ch w s h
  print_arg-Prints ch (word64 w) s h =
      Prints-if (ch == b'l') _ _ _ _ s
        (Prints-some _ _ s (numeral-put 16 w s (omega arith) (omega arith) h)) (Prints-none _ s)
  print_arg-Prints ch (string none) s h =
      Prints-if (ch == b's') _ _ _ _ s (Prints-some _ _ s refl) (Prints-none _ s)
  print_arg-Prints ch (string (some text)) s h =
      Prints-if (ch == b's') _ _ _ _ s (Prints-some _ _ s refl) (Prints-none _ s)

  Prints-behind :
      (text : Option (List ℕ)) (front : List ℕ) (run : Option S) (s : S)
      → Prints text run (put_chars put_ch front s)
      → Prints (behind text front) run s
  unfolding Prints
  Prints-behind none front run s h t e = absurd (none-ne-some t e)
  Prints-behind (some text) front run s h t e =
      h text refl
      ∙ ap (λ u. some u) (sym (put_chars-append front text s))
      ∙ ap (λ t. some (put_chars put_ch t s)) (some-injective (front ++ text) t e)

  Prints-then :
      (text rest : Option (List ℕ)) (run : Option S) (next : S → Option S) (s : S)
      → Prints text run s
      → ((t : S) → Prints rest (next t) t)
      → Prints
          (elim text [ none ↦ none | some front ↦ behind rest front ])
          (elim run [ none ↦ none | some t ↦ next t ])
          s
  unfolding Prints
  Prints-then none rest run next s h g = Prints-none (elim run [ none ↦ none | some t ↦ next t ]) s
  Prints-then (some front) rest run next s h g =
      rw (h front refl) (
        Prints-behind rest front (next (put_chars put_ch front s)) s (g (put_chars put_ch front s)))

  conversion-Prints :
      (ch : ℕ) (fmt : List ℕ) (args : List Arg) (s : S)
      → All IsArg args
      → ((more : List Arg) (t : S)
          → All IsArg more
          → Prints (render false fmt more) (vprint_fmt put_ch false fmt more t) t)
      → Prints
          (elim args [
            | [] ↦ none
            | arg ∷ more ↦ elim (arg_text ch arg) [
              | none ↦ none
              | some text ↦ behind (render false fmt more) text
            ]
          ])
          (elim args [
            | [] ↦ none
            | arg ∷ more ↦ elim (print_arg put_ch ch arg s) [
              | none ↦ none
              | some t ↦ vprint_fmt put_ch false fmt more t
            ]
          ])
          s
  conversion-Prints ch fmt [] s h later = Prints-none none s
  conversion-Prints ch fmt (arg ∷ more) s (h, rest) later =
      Prints-then (arg_text ch arg) (render false fmt more) (print_arg put_ch ch arg s)
        (vprint_fmt put_ch false fmt more) s (print_arg-Prints ch arg s h) (λ t. later more t rest)

  vprint_fmt-Prints :
      (flag : Bool) (fmt : List ℕ) (args : List Arg) (s : S)
      → All IsArg args
      → Prints (render flag fmt args) (vprint_fmt put_ch flag fmt args s) s
  unfolding vprint_fmt render put_chars
  vprint_fmt-Prints false [] args s h = Prints-some [] (some s) s refl
  vprint_fmt-Prints true [] args s h = Prints-some (b'%' ∷ []) _ s refl
  vprint_fmt-Prints false (ch ∷ fmt) args s h =
      let escape = vprint_fmt-Prints true fmt args s h in
      let next = vprint_fmt-Prints false fmt args (put_ch ch s) h in
      Prints-if (ch == b'%') _ _ _ _ s escape (Prints-behind _ (ch ∷ []) _ s next)
  vprint_fmt-Prints true (ch ∷ fmt) args s h =
      let percent = vprint_fmt-Prints false fmt args (put_ch ch s) h in
      let literal = vprint_fmt-Prints false fmt args (put_ch ch (put_ch b'%' s)) h in
      Prints-if (ch == b'%') _ _ _ _ s (Prints-behind _ (ch ∷ []) _ s percent) (
        Prints-if (takes_arg ch) _ _ _ _ s
          (conversion-Prints ch fmt args s h (vprint_fmt-Prints false fmt))
          (Prints-behind _ (b'%' ∷ ch ∷ []) _ s literal))

  pub vprint_fmt-render :
      (fmt : List ℕ) (args : List Arg) (text : List ℕ) (s : S)
      → All IsArg args
      → render false fmt args ≡ some text
      → vprint_fmt put_ch false fmt args s ≡ some (put_chars put_ch text s)
  unfolding Prints
  vprint_fmt-render fmt args text s h e = vprint_fmt-Prints false fmt args s h text e

-- Where a format and its arguments have a text, and this is a string's, VPrintf puts it and
-- returns its length: the arguments are taken in order, each conversion prints the numeral, the
-- character or the string, `%%` is a `%`, and an unknown character stands as it is.
pub vprintf-render :
    (garbage : ℕ → ℕ) (fmt : List ℕ) (args : List Arg) (text : List ℕ)
    → All IsArg args
    → render false fmt args ≡ some text
    → All IsByte text
    → vprintf garbage fmt args ≡ some (length text, text)
vprintf-render garbage fmt args text h e bytes =
    vprintf-put_chars garbage fmt args text
      (λ s. vprint_fmt-render printf_put_ch fmt args text s h e) bytes
