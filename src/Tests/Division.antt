-- ===== src/Tests/Division.antt =====
-- DivideAndMod64by32 at concrete numbers.
use storm_os.Base.{◌+◌, ◌^◌, ◌≡◌, refl, some, arith}
use storm_os.Types.Divide.{divide_and_mod_64_by_32}
use storm_os.Types.Divide.Correct.{divide_and_mod_64_by_32_lem}

divide_and_mod_64_by_32_example :
    divide_and_mod_64_by_32 (2 ^ 63 + 12345) 10 ≡ some (922337203685478815, 3)
divide_and_mod_64_by_32_example =
    divide_and_mod_64_by_32_lem (2 ^ 63 + 12345) 10 (omega arith) (omega arith) (omega arith)

divide_runs : divide_and_mod_64_by_32 1234567 16 ≡ some (77160, 7)
unfolding divide_and_mod_64_by_32
divide_runs = refl
