-- ===== src/Debug/Frames.antt =====
-- The stack trace of a panic, against the chain of frames.
use storm_os.Base.{
  ==_eq, ==_ne, length, ℕ, zero, suc, ◌+◌, ◌-◌, ◌%◌, ◌≡◌, refl, ap, ◌≢◌, some, List, [], ◌∷◌, ◌++◌,
  map,
}
use storm_os.MemVirtual.Ram.{Ram, word, load32}
use storm_os.Printf.{Arg, string, word32}
use storm_os.Monitor.{Call, printf, printf_color, codes}
use storm_os.Debug.{saved_eips, zeros, debug_trace, from_calls, debug_panic, debug_traceframes}

-- From a frame on, the saved addresses lead to each other up to address 0, and each frame holds the
-- address that the function returns to.
abbrev pub Chain : Ram → ℕ → List ℕ → Type 0
Chain r frame [] = frame ≡ 0
Chain r frame (eip ∷ eips) =
    (frame ≢ 0) × (load32 r ((frame + 4) % word) ≡ eip) × (eip ≢ 0) × Chain r (load32 r frame) eips

abbrev pub take : ℕ → List ℕ → List ℕ
take zero xs = []
take (suc n) [] = []
take (suc n) (x ∷ xs) = x ∷ take n xs

saved_eips-take :
    (n : ℕ) (r : Ram) (frame : ℕ) (eips : List ℕ)
    → Chain r frame eips
    → saved_eips n r frame ≡ take n eips
unfolding saved_eips
saved_eips-take zero r frame eips h = refl
saved_eips-take (suc n) r frame [] h = rw (==_eq frame 0 h) refl
saved_eips-take (suc n) r frame (eip ∷ eips) (ne, e, _, rest) =
    rw (==_ne frame 0 ne, e) (ap (λ xs. eip ∷ xs) (saved_eips-take n r (load32 r frame) eips rest))

-- A line of the trace.
abbrev pub from_call : ℕ → Call
from_call eip = printf (codes "\tfrom 0x%x\n") (word32 eip ∷ [])

from_calls-zeros : (n : ℕ) → from_calls (zeros n) ≡ []
from_calls-zeros zero = refl
from_calls-zeros (suc n) = refl

from_calls-padded :
    (n m : ℕ) (r : Ram) (frame : ℕ) (eips : List ℕ)
    → Chain r frame eips
    → from_calls (take n eips ++ zeros m) ≡ map from_call (take n eips)
from_calls-padded zero m r frame eips h = from_calls-zeros m
from_calls-padded (suc n) m r frame [] h = from_calls-zeros m
from_calls-padded (suc n) m r frame (eip ∷ eips) (_, _, ne, rest) =
    rw (==_ne eip 0 ne)
      (ap (λ cs. from_call eip ∷ cs) (from_calls-padded n m r (load32 r frame) eips rest))

trace-calls :
    (r : Ram) (ebp : ℕ) (eips : List ℕ)
    → Chain r ebp eips
    → from_calls (debug_trace ebp r) ≡ map from_call (take debug_traceframes eips)
unfolding debug_trace
trace-calls r ebp eips h = rw (saved_eips-take debug_traceframes r ebp eips h) (
    from_calls-padded debug_traceframes (debug_traceframes - length (take debug_traceframes eips)) r
      ebp eips h)

-- Where the frames form a chain that ends at address 0, as the kernel's do that is entered with ebp
-- 0, a panic prints the file and the line, the message, the return addresses of the ten innermost
-- functions, or of all if they are fewer, from the inside out, and the last line.
pub debug_panic_lem :
    (file fmt : List ℕ) (line ebp : ℕ) (args : List Arg) (r : Ram) (eips : List ℕ)
    → Chain r ebp eips
    → debug_panic file line fmt args ebp r
      ≡ printf (codes "[P] %s:%d: ") (string (some file) ∷ word32 line ∷ [])
          ∷ printf_color 0b1111 fmt args
          ∷ map from_call (take debug_traceframes eips)
        ++ printf_color 0b1100 (codes "KERNEL PANIC !!!\n") [] ∷ []
unfolding debug_panic
debug_panic_lem file fmt line ebp args r eips h =
    ap
      (λ cs.
        printf (codes "[P] %s:%d: ") (string (some file) ∷ word32 line ∷ [])
          ∷ printf_color 0b1111 fmt args
          ∷ cs
        ++ printf_color 0b1100 (codes "KERNEL PANIC !!!\n") [] ∷ [])
      (trace-calls r ebp eips h)
