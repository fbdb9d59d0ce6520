-- ===== src/User/Program/Shifts.antt =====
-- The pictures of the user program (src/user/user.c).
use storm_os.Base.{
  ltb, leb, if◌then◌else◌, ltb-true, leb-true, leb-false, ℤ, All, update, ℕ, zero, suc, ◌+◌, ◌*◌,
  ◌/◌, ◌%◌, ◌^◌, ◌≤◌, ◌<◌, ◌≡◌, refl, sym, ◌∙◌, Bool, true, false, ◌&&◌, Option, none, some, List,
  [], ◌∷◌, ◌++◌, arith,
}
use mathlib.Core.Path.{subst}
use native.Mathlib.Decide.{ℕ_discrete}
use storm_os.User.Program.{
  display, Offsets, is_either, is_control, pattern, move, shift_right, fill, draw, first_picture,
  next_picture, play, wait_for_v, welcome, user_main, bytes_per_plane, vga_planes,
}

-- The place is one of `n` from `start` on.
abbrev inside : ℕ → ℕ → ℕ → Bool
inside start n j = leb start j && ltb j (start + n)

fill-constant :
    (n c start : ℕ) (buf : ℕ → ℕ)
    → (out : ℕ → ℕ) × (fill n (λ i. some c) start buf ≡ some out)
      × ((j : ℕ) → out j ≡ (if inside start n j then c % 2 ^ 8 else buf j))
unfolding fill
fill-constant zero c start buf = (buf, refl, λ j. ground arith)
fill-constant (suc n) c start buf =
    let (out, e, at) = fill-constant n c start buf in
    (update out (start + n) (c % 2 ^ 8), rw e refl, λ j. ground (arith, at j))

draw-constant :
    (n : ℕ) (c : ℕ → ℕ) (buf : ℕ → ℕ)
    → (out : ℕ → ℕ) × (draw n (λ p i. some (c p)) buf ≡ some out)
      × ((p i : ℕ) → p < n → i < bytes_per_plane → out (p * bytes_per_plane + i) ≡ c p % 2 ^ 8)
unfolding draw
draw-constant zero c buf = (buf, refl, λ p i h hi. absurd (omega arith))
draw-constant (suc n) c buf =
    let (old, e, before) = draw-constant n c buf in
    let (out, e', at) = fill-constant bytes_per_plane (c n) (n * bytes_per_plane) old in
    (
      out,
      rw (e, e') refl,
      λ p i h hi. elim (ℕ_discrete p n) [
        | yes same ↦
            subst (λ q. out (q * bytes_per_plane + i) ≡ c q % 2 ^ 8) (sym same)
              (at (n * bytes_per_plane + i)
                ∙ rw
                    (
                      leb-true (n * bytes_per_plane) (n * bytes_per_plane + i) (omega arith),
                      ltb-true (n * bytes_per_plane + i) (n * bytes_per_plane + bytes_per_plane)
                          (omega arith),
                    )
                    refl)
        | no other ↦
            at (p * bytes_per_plane + i)
            ∙ rw (leb-false (n * bytes_per_plane) (p * bytes_per_plane + i) (omega (arith, other)))
                (before p i (omega (arith, other)) hi)
      ],
    )

then-undefined :
    {A B : Type 0} (o : Option A) (f : A → Option B)
    → ((a : A) → f a ≡ none)
    → elim o as (λ x. Option B) [ none ↦ none | some a ↦ f a ] ≡ none
then-undefined none f h = refl
then-undefined (some a) f h = h a

-- A loop with an undefined round is undefined.
fill-undefined :
    (n bad : ℕ) (value : ℕ → Option ℕ) (start : ℕ) (buf : ℕ → ℕ)
    → value bad ≡ none
    → bad < n
    → fill n value start buf ≡ none
unfolding fill
fill-undefined zero bad value start buf e h = absurd (omega arith)
fill-undefined (suc n) bad value start buf e h = elim (ℕ_discrete bad n) [
  | yes same ↦ then-undefined (fill n value start buf) _ (λ filled. rw (sym same, e) refl)
  | no other ↦ rw (fill-undefined n bad value start buf e (omega (arith, other))) refl
]

shift-undefined : (v n : ℕ) → 32 ≤ n → shift_right v n ≡ none
shift-undefined v n h = rw (leb-true 32 n h) refl

next_picture-undefined : (o : Offsets) (buf : ℕ → ℕ) → next_picture o buf ≡ none
unfolding next_picture draw
next_picture-undefined o buf =
    let value = λ (p i : ℕ).
      shift_right (pattern ((p + o.offset_z) % 4) (o.offset_y % 32)) (o.offset_x + i / 11) in
    then-undefined (draw 3 value buf) _ (λ drawn.
      fill-undefined bytes_per_plane 352 (value 3) (3 * bytes_per_plane) drawn
        (shift-undefined (pattern ((3 + o.offset_z) % 4) (o.offset_y % 32)) (o.offset_x + 352 / 11)
          (omega arith))
        (omega arith))

play-undefined :
    (keys later : List ℤ) (c : ℤ) (o : Offsets) (buf : ℕ → ℕ)
    → All (λ ch. is_control ch ≡ false) keys
    → is_control c ≡ true
    → play (keys ++ c ∷ later) o buf ≡ none
unfolding play
play-undefined [] later c o buf _ h =
    rw h (then-undefined (move c o) _ (λ t. rw (next_picture-undefined t buf) refl))
play-undefined (ch ∷ keys) later c o buf (idle, rest) h =
    rw idle (play-undefined keys later c o buf rest h)

play-idle :
    (keys : List ℤ) (o : Offsets) (buf : ℕ → ℕ)
    → All (λ ch. is_control ch ≡ false) keys
    → play keys o buf ≡ some []
unfolding play
play-idle [] o buf _ = refl
play-idle (ch ∷ keys) o buf (idle, rest) = rw idle (play-idle keys o buf rest)

waits : (keys : List ℤ) → All (λ ch. is_either ch b'V' b'v' ≡ false) keys → wait_for_v keys ≡ none
unfolding wait_for_v
waits [] h = refl
waits (ch ∷ keys) (other, rest) = rw other (waits keys rest)

goes_on :
    (keys later : List ℤ) (v : ℤ)
    → All (λ ch. is_either ch b'V' b'v' ≡ false) keys
    → is_either v b'V' b'v' ≡ true
    → wait_for_v (keys ++ v ∷ later) ≡ some later
unfolding wait_for_v
goes_on [] later v _ h = rw h refl
goes_on (ch ∷ keys) later v (other, rest) h = rw other (goes_on keys later v rest h)

pattern-small : (p : ℕ) → pattern p 0 % 2 ^ 8 ≡ pattern p 0
unfolding pattern
pattern-small zero = refl
pattern-small (suc zero) = refl
pattern-small (suc (suc zero)) = refl
pattern-small (suc (suc (suc zero))) = refl
pattern-small (suc (suc (suc (suc p)))) = refl

-- The first picture: the first byte of a plane's pattern, all over the plane.
abbrev pub IsFirst : (ℕ → ℕ) → Type 0
IsFirst drawn =
    (p i : ℕ) → p < vga_planes → i < bytes_per_plane → drawn (p * bytes_per_plane + i) ≡ pattern p 0

first_picture-IsFirst :
    (buf : ℕ → ℕ)
    → (drawn : ℕ → ℕ) × (first_picture (record { offset_x = 0; offset_y = 0; offset_z = 0 }) buf
        ≡ some drawn)
      × IsFirst drawn
unfolding first_picture
first_picture-IsFirst buf =
    let (drawn, e, at) = draw-constant vga_planes (λ p. pattern p 0 / 2 ^ 0) buf in
    (drawn, e, λ p i h hi. omega (arith, at p i h hi, pattern-small p))

module _ (idle keys : List ℤ) (v : ℤ) (buf : ℕ → ℕ)
    (no_v : All (λ ch. is_either ch b'V' b'v' ≡ false) idle) (is_v : is_either v b'V' b'v' ≡ true)
    (no_control : All (λ ch. is_control ch ≡ false) keys) where
  -- The user program prints its welcome and waits for a V. It then displays the first picture, each
  -- plane full of the first byte of its pattern, and nothing more until a key is a control. What it
  -- does at the first control is undefined, whatever comes behind: the next picture shifts by 32
  -- and more.
  pub user_main_lem :
      (user_main idle buf ≡ some welcome)
      × ((drawn : ℕ → ℕ) × (user_main (idle ++ v ∷ keys) buf ≡ some (welcome ++ display drawn ∷ []))
          × IsFirst drawn)
      × ((control : ℤ) (later : List ℤ)
          → is_control control ≡ true
          → user_main (idle ++ v ∷ (keys ++ control ∷ later)) buf ≡ none)
  unfolding user_main
  user_main_lem =
      let o : Offsets = record { offset_x = 0; offset_y = 0; offset_z = 0 } in
      let (drawn, e, first) = first_picture-IsFirst buf in
      (
        rw (user_main, waits idle no_v) refl,
        (
          drawn,
          rw (user_main, goes_on idle keys v no_v is_v, e, play-idle keys o drawn no_control) refl,
          first,
        ),
        λ control later h.
            rw
              (
                user_main,
                goes_on idle (keys ++ control ∷ later) v no_v is_v,
                e,
                play-undefined keys later control o drawn no_control h,
              )
              refl,
      )
