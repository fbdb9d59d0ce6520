-- ===== src/Printf/Number.antt =====
-- PrintNum prints the digits of the number.
use native.Mathlib.Decide.{dec_lt}
use native.Mathlib.Nat.{
  div-le_self, mod-lt, div-add-mod', mod-eq_of_lt, div-lt_iff_lt-mul, mul-le-mul_left, two-pow-succ,
}
use storm_os.Base.{
  leb, if◌then◌else◌, ltb-true, leb-true, leb-false, All, ℕ, zero, suc, ◌+◌, ◌*◌, ◌/◌, ◌%◌, ◌^◌,
  ◌≤◌, ◌<◌, ◌≡◌, refl, sym, ap, ◌∙◌, some, List, [], ◌∷◌, ◌++◌, map, arith,
}
use storm_os.Types.Divide.{divide_64_by_32, modulo_64_by_32, u64_mod}
use storm_os.Types.Divide.Correct.{divide_and_mod_64_by_32_lem}
use storm_os.Printf.{print_num, hex_digit, put_chars}

-- The number that a list of digits stands for, the most significant digit first.
abbrev pub value : ℕ → List ℕ → ℕ → ℕ
value base [] acc = acc
value base (d ∷ ds) acc = value base ds (acc * base + d)

divides :
    (n base : ℕ) → 0 < base → base < 2 ^ 32 → n < u64_mod → divide_64_by_32 n base ≡ some (n / base)
unfolding divide_64_by_32
divides n base positive hb hn =
    rw (divide_64_by_32, divide_and_mod_64_by_32_lem n base positive hb hn) refl

modulo :
    (n base : ℕ) → 0 < base → base < 2 ^ 32 → n < u64_mod → modulo_64_by_32 n base ≡ some (n % base)
unfolding modulo_64_by_32
modulo n base positive hb hn =
    rw (modulo_64_by_32, divide_and_mod_64_by_32_lem n base positive hb hn) refl

value-snoc :
    (base : ℕ) (ds : List ℕ) (d acc : ℕ)
    → value base (ds ++ d ∷ []) acc ≡ value base ds acc * base + d
value-snoc base [] d acc = refl
value-snoc base (x ∷ ds) d acc = value-snoc base ds d (acc * base + x)

-- The digits of a number in a base, most significant first, `fuel` of them at most.
unfoldable pub digits : ℕ → ℕ → ℕ → List ℕ
digits zero base n = []
digits (suc fuel) base n =
    let before = digits fuel base (n / base) in
    if leb base n then before ++ n % base ∷ [] else n % base ∷ []

quotient_small : (fuel n base : ℕ) → 2 ≤ base → n < 2 ^ suc fuel → n / base < 2 ^ fuel
quotient_small fuel n base two h =
    (div-lt_iff_lt-mul {k = base} (omega arith)).1
      (omega (arith, two-pow-succ fuel, mul-le-mul_left (2 ^ fuel) two))

put_chars-snoc :
    {S : Type 0} (put_ch : ℕ → S → S) (xs : List ℕ) (d : ℕ) (s : S)
    → put_chars put_ch (map hex_digit (xs ++ d ∷ [])) s
      ≡ put_ch (hex_digit d) (put_chars put_ch (map hex_digit xs) s)
unfolding put_chars
put_chars-snoc put_ch [] d s = refl
put_chars-snoc put_ch (x ∷ xs) d s = put_chars-snoc put_ch xs d (put_ch (hex_digit x) s)

module _ (base : ℕ) (two : 2 ≤ base) (small : base ≤ 16) where
  digits-value : (fuel n : ℕ) → n < 2 ^ fuel → value base (digits fuel base n) 0 ≡ n
  unfolding digits
  digits-value zero n h = omega arith
  digits-value (suc fuel) n h = elim (dec_lt n base) [
    | yes less ↦ rw (leb-false base n less) (omega (arith, mod-eq_of_lt less))
    | no more ↦ rw (leb-true base n (omega (arith, more))) (
        value-snoc base (digits fuel base (n / base)) (n % base) 0
        ∙ ap (λ q. q * base + n % base)
            (digits-value fuel (n / base) (quotient_small fuel n base two h))
        ∙ div-add-mod' n base)
  ]

  All-append :
      (xs : List ℕ) (d : ℕ) → All (λ d. d < base) xs → d < base → All (λ d. d < base) (xs ++ d ∷ [])
  All-append [] d h last = (last, tt)
  All-append (x ∷ xs) d (h, rest) last = (h, All-append xs d rest last)

  digits-small : (fuel n : ℕ) → All (λ d. d < base) (digits fuel base n)
  unfolding digits
  digits-small zero n = tt
  digits-small (suc fuel) n =
      let last : n % base < base = mod-lt n (omega arith) in
      elim (dec_lt n base) [
        | yes less ↦ rw (leb-false base n less) (last, tt)
        | no more ↦ rw (leb-true base n (omega (arith, more))) (
            All-append (digits fuel base (n / base)) (n % base) (digits-small fuel (n / base)) last)
      ]

  fuel_left : (fuel n : ℕ) → n < 2 ^ suc fuel → ¬ n < base → 0 < fuel
  fuel_left zero n h more = absurd (omega (arith, more))
  fuel_left (suc fuel) n h more = omega arith

  digit_small : (n : ℕ) → n % base < base
  digit_small n = mod-lt n (omega arith)

  pub print_num-digits :
      {S : Type 0} (put_ch : ℕ → S → S) (fuel n : ℕ) (s : S)
      → n < 2 ^ fuel
      → n < u64_mod
      → 0 < fuel
      → print_num put_ch fuel n base s
        ≡ some (put_chars put_ch (map hex_digit (digits fuel base n)) s)
  unfolding print_num digits put_chars
  print_num-digits put_ch zero n s h hn hf = absurd (omega arith)
  print_num-digits put_ch (suc fuel) n s h hn hf =
      rw
        (
          print_num,
          divides n base (omega arith) (omega arith) hn,
          modulo n base (omega arith) (omega arith) hn,
          ltb-true (n % base) 16 (omega (arith, digit_small n)),
        )
        (elim (dec_lt n base) [
          | yes less ↦ rw (leb-false base n less) refl
          | no more ↦
              let ih =
                print_num-digits put_ch fuel (n / base) s (quotient_small fuel n base two h)
                  (omega (arith, div-le_self n base)) (fuel_left fuel n h more) in
              rw (leb-true base n (omega (arith, more)), ih)
                (ap (λ t. some t)
                  (sym (put_chars-snoc put_ch (digits fuel base (n / base)) (n % base) s)))
        ])

-- PrintNum ends for a 64-bit number in a base from 2 to 16, and puts the characters of digits that
-- stand for the number.
pub print_num_lem :
    {S : Type 0} (put_ch : ℕ → S → S) (n base : ℕ) (s : S)
    → 2 ≤ base
    → base ≤ 16
    → n < u64_mod
    → (ds : List ℕ) × (print_num put_ch 64 n base s ≡ some (put_chars put_ch (map hex_digit ds) s))
      × (value base ds 0 ≡ n)
      × All (λ d. d < base) ds
print_num_lem put_ch n base s two small hn = (
  digits 64 base n,
  print_num-digits base two small put_ch 64 n s hn hn (omega arith),
  digits-value base two small 64 n hn,
  digits-small base two small 64 n,
)
