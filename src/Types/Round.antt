-- ===== src/Types/Round.antt =====
-- RoundDown and RoundUp of src/types.h. `none` is the trap of a remainder by zero.
use storm_os.Base.{◌==◌, if◌then◌else◌, ℕ, ◌+◌, ◌-◌, ◌%◌, ◌^◌, Option, none, some}

unfoldable pub round_down : ℕ → ℕ → Option ℕ
round_down a b = if b == 0 then none else some (a - a % b)

unfoldable pub round_up : ℕ → ℕ → Option ℕ
round_up a b = round_down ((a + b + 2 ^ 32 - 1) % 2 ^ 32) b
