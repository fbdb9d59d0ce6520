-- ===== src/Debug.antt =====
-- src/debug.c: DebugTrace and DebugPanic. What is printed is kept as calls; DebugPanic does not
-- return.
pub mod Frames
use storm_os.Base.{
  ◌==◌, if◌then◌else◌, length, ℕ, zero, suc, ◌+◌, ◌-◌, ◌%◌, some, List, [], ◌∷◌, ◌++◌,
}
use storm_os.MemVirtual.Ram.{Ram, word, load32}
use storm_os.Printf.{Arg, string, word32}
use storm_os.Monitor.{Call, printf, printf_color, codes}

abbrev pub debug_traceframes : ℕ
debug_traceframes = 10

-- The first loop of DebugTrace: the saved eip of each frame, `n` at most.
unfoldable pub saved_eips : ℕ → Ram → ℕ → List ℕ
saved_eips zero r frame = []
saved_eips (suc n) r frame =
    let older = saved_eips n r (load32 r frame) in
    if frame == 0 then [] else load32 r ((frame + 4) % word) ∷ older

abbrev pub zeros : ℕ → List ℕ
zeros zero = []
zeros (suc n) = 0 ∷ zeros n

-- The array `eips`.
unfoldable pub debug_trace : ℕ → Ram → List ℕ
debug_trace ebp r =
    let eips = saved_eips debug_traceframes r ebp in eips ++ zeros (debug_traceframes - length eips)

-- The loop over the array, which ends at a zero.
abbrev pub from_calls : List ℕ → List Call
from_calls [] = []
from_calls (eip ∷ eips) =
    let rest = from_calls eips in
    if eip == 0 then [] else printf (codes "\tfrom 0x%x\n") (word32 eip ∷ []) ∷ rest

-- COLOR_WHITE and COLOR_BRED
abbrev color_white : ℕ
color_white = 0b1111

abbrev color_bred : ℕ
color_bred = 0b1100

-- What is printed. `ebp` is the register's value in the call.
unfoldable pub debug_panic : List ℕ → ℕ → List ℕ → List Arg → ℕ → Ram → List Call
debug_panic file line fmt args ebp r =
    printf (codes "[P] %s:%d: ") (string (some file) ∷ word32 line ∷ [])
      ∷ printf_color color_white fmt args
      ∷ from_calls (debug_trace ebp r)
    ++ printf_color color_bred (codes "KERNEL PANIC !!!\n") [] ∷ []
