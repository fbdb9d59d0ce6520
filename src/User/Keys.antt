-- ===== src/User/Keys.antt =====
-- GetChar of the user library, through the trap and the kernel.
use storm_os.Base.{
  ==_eq, ==_ne, ltb-true, ltb-false, Option-cases, length, All, update, ℕ, ◌+◌, ◌-◌, ◌%◌, ◌^◌, ◌<◌,
  ◌≡◌, refl, ap, inl, inr, List, [], ◌∷◌, ◌++◌, arith, negsuc,
}
use native.Mathlib.Decide.{dec_lt, ℕ_discrete}
use storm_os.MemVirtual.Ram.{word}
use storm_os.MemVirtual.Init.{set_page_directory}
use storm_os.Thread.Schedule.{get_current_id}
use storm_os.Keyboard.{Keyboard, keyboard_get_data}
use storm_os.Console.{Console, console_buffer_size}
use storm_os.Console.Ring.{Holds}
use storm_os.Console.Queue.{typed, first, others, get_char-Holds}
use storm_os.Printf.Render.{signed}
use storm_os.Kernel.{TrapFrame, Kernel, done}
use storm_os.Syscalls.{register, syscall_dispatch, sys_get_char}
use storm_os.Traps.{handle_trap, trap_dispatch}
use storm_os.User.{call_get_char, got_char}

-- The queue holds bytes.
abbrev pub Bytes : List ℕ → Type 0
Bytes = All (λ c. c < 2 ^ 8)

typed-Bytes : (bytes : List ℕ) (k : Keyboard) → Bytes (typed bytes k)
unfolding typed
typed-Bytes [] k = tt
typed-Bytes (byte ∷ bytes) k =
    let rest = typed-Bytes bytes (keyboard_get_data k).1 in
    elim (Option-cases (keyboard_get_data k).0) [
      | inl e ↦ rw (typed, e) rest
      | inr (ch, e) ↦ elim (ℕ_discrete ch 0) [
        | yes z ↦ rw (typed, e, ==_eq ch 0 z) rest
        | no ne ↦ rw (typed, e, ==_ne ch 0 ne) (omega arith, rest)
      ]
    ]

Bytes-append : (xs ys : List ℕ) → Bytes xs → Bytes ys → Bytes (xs ++ ys)
Bytes-append [] ys _ h = h
Bytes-append (x ∷ xs) ys (small, rest) h = (small, Bytes-append xs ys rest h)

-- The register of a character is read as the character.
signed-register : (xs : List ℕ) → Bytes xs → signed (register (first xs)) ≡ first xs
signed-register [] h = refl
signed-register (x ∷ xs) (small, rest) = elim (dec_lt x (2 ^ 7)) [
  | yes low ↦
      let same : x % word ≡ x = omega arith in
      rw (ltb-true x (2 ^ 7) low, same, ltb-true x (2 ^ 31) (omega (arith, low))) refl
  | no high ↦
      rw
        (
          ltb-false x (2 ^ 7) (omega (arith, high)),
          ltb-false (word - 1 - (2 ^ 8 - 1 - x) % word) (2 ^ 31) (omega arith),
        )
        (ap (λ n. negsuc n) (omega (arith, high)))
]

-- A process calls GetChar. If the kernel's ring has room for what the keyboard holds, the process
-- gets the first of the characters of the ring and of the keyboard, or 0 if there is none, and the
-- others stay in the ring. Beside the keyboard and the console, only the saved frame of the process
-- and the control registers, which get its page directory, have changed.
pub call_get_char_lem :
    (dirs fault_va sys_buf : ℕ) (garbage : ℕ → ℕ) (tf : TrapFrame) (k : Kernel) (xs : List ℕ)
    → k.console.read_pos < console_buffer_size
    → k.console.write_pos < console_buffer_size
    → length xs + length k.keyboard.input < console_buffer_size
    → Holds k.console xs
    → Bytes xs
    → let p = get_current_id k.threads in
      let all = xs ++ typed k.keyboard.input k.keyboard in
      (frame : TrapFrame) × (left : Keyboard) × (console : Console) × (handle_trap dirs fault_va
          sys_buf garbage
          (call_get_char tf)
          k
        ≡ done (
          frame,
          record k {
            user_contexts = update k.user_contexts p (call_get_char tf);
            registers = set_page_directory dirs p k.registers;
            keyboard = left;
            console = console;
          },
        ))
      × (got_char frame ≡ first all)
      × (left.input ≡ [])
      × Holds console (others all)
unfolding handle_trap trap_dispatch syscall_dispatch sys_get_char set_page_directory
call_get_char_lem dirs fault_va sys_buf garbage tf k xs hr hw room held small =
    let (left, t, e, drained, h) = get_char-Holds k.keyboard k.console xs hr hw room held in
    let all = xs ++ typed k.keyboard.input k.keyboard in
    let bytes =
      Bytes-append xs (typed k.keyboard.input k.keyboard) small
        (typed-Bytes k.keyboard.input k.keyboard) in
    (
      record (call_get_char tf) { eax = 0; ebx = register (first all) },
      left,
      t,
      rw e refl,
      signed-register all bytes,
      drained,
      h,
    )
