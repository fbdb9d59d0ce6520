-- ===== src/Tests/Programs.antt =====
-- The user program, up to its first control.
use storm_os.Base.{ℤ, ℕ, ◌≡◌, refl, true, none, some, List, [], ◌∷◌, ◌++◌, pos, negsuc}
use storm_os.User.Program.{display, is_control, welcome, user_main}
use storm_os.User.Program.Shifts.{IsFirst, user_main_lem}

-- Nothing, a V, another key that is no control.
abbrev idle : List ℤ
idle = negsuc 0 ∷ []

abbrev keys : List ℤ
keys = pos b'x' ∷ []

user_main_example :
    (user_main idle (λ i. 0) ≡ some welcome)
    × ((drawn : ℕ → ℕ) × (user_main (negsuc 0 ∷ pos b'v' ∷ pos b'x' ∷ []) (λ i. 0)
          ≡ some (welcome ++ display drawn ∷ []))
        × IsFirst drawn)
    × ((control : ℤ) (later : List ℤ)
        → is_control control ≡ true
        → user_main (negsuc 0 ∷ pos b'v' ∷ pos b'x' ∷ control ∷ later) (λ i. 0) ≡ none)
user_main_example = user_main_lem idle keys (pos b'v') (λ i. 0) (refl, tt) refl (refl, tt)
