-- ===== src/Syscalls/Format.antt =====
-- SysPutStr on a string with a conversion in it: the string is the format of PrintfColor.
use storm_os.Base.{
  ltb, if◌then◌else◌, ==_ne, leb-true, length, length-append, All, ℕ, zero, suc, ◌+◌, ◌-◌, ◌%◌, ◌≤◌,
  ◌<◌, ◌≡◌, refl, sym, ap, ◌∙◌, ◌≢◌, true, false, none, List, [], ◌∷◌, ◌++◌, arith,
}
use storm_os.MemVirtual.State.{Vm}
use mathlib.Core.Path.{subst}
use native.Mathlib.Decide.{ℕ_discrete}
use storm_os.MemPhysical.State.{page_size, mem_userlo, mem_userhi}
use storm_os.MemVirtual.Ram.{word}
use storm_os.Thread.Schedule.{get_current_id}
use storm_os.Console.{Console}
use storm_os.Printf.{PrintBuf, vprint_fmt, vprintf, printf_put_ch, takes_arg}
use storm_os.Printf.Buffer.{IsText}
use storm_os.Kernel.{TrapFrame, Kernel, undefined}
use storm_os.Syscalls.{buffer, put_chunk, put_chunks, sys_put_str, printf_color}
use storm_os.Syscalls.Chunk.{put_chunk_read}
use storm_os.Syscalls.Range.{user_bytes, UserRange}

vprint_fmt_conversion :
    (text : List ℕ) (c : ℕ) (rest : List ℕ) (b : PrintBuf)
    → All IsText text
    → takes_arg c ≡ true
    → vprint_fmt printf_put_ch false (text ++ 0x25 ∷ c ∷ rest) [] b ≡ none
unfolding vprint_fmt
vprint_fmt_conversion [] c rest b h conv = elim (ℕ_discrete c 0x25) [
  | yes z ↦ ground (arith, subst (λ d. takes_arg d ≡ true) z conv)
  | no ne ↦ rw (==_ne c 0x25 ne, conv) refl
]
vprint_fmt_conversion (x ∷ text) c rest b (h, more) conv =
    rw (==_ne x 0x25 h.plain) (vprint_fmt_conversion text c rest (printf_put_ch x b) more conv)

printf_color_conversion :
    (garbage : ℕ → ℕ) (color : ℕ) (text : List ℕ) (c : ℕ) (rest : List ℕ) (s : Console)
    → All IsText text
    → takes_arg c ≡ true
    → printf_color garbage color (text ++ 0x25 ∷ c ∷ rest) s ≡ undefined
unfolding printf_color vprintf
printf_color_conversion garbage color text c rest s h conv =
    let start : PrintBuf = record { index = 0; count = 0; buf = garbage; out = [] } in
    rw (vprintf, vprint_fmt_conversion text c rest start h conv) refl

nonempty :
    (s : Vm) (p a n : ℕ) (text : List ℕ) (x : ℕ) (rest : List ℕ)
    → user_bytes s p a n ≡ text ++ x ∷ rest
    → n ≢ 0
unfolding user_bytes
nonempty s p a n text x rest e z =
    let none_left : length (text ++ x ∷ rest) ≡ 0 =
      ap (λ xs. length xs) (sym e) ∙ ap (λ m. length (user_bytes s p a m)) z in
    omega (arith, none_left, length-append text (x ∷ rest))

-- A round on all of the string that is undefined.
put_chunks_undefined :
    (sys_buf : ℕ) (garbage : ℕ → ℕ) (rounds p color n cur : ℕ) (k : Kernel)
    → n ≢ 0
    → n ≤ rounds
    → n < page_size
    → put_chunk sys_buf garbage p color cur n k ≡ undefined
    → put_chunks sys_buf garbage rounds p color n cur k ≡ undefined
unfolding put_chunks
put_chunks_undefined sys_buf garbage zero p color n cur k ne h small e = absurd (ne (omega arith))
put_chunks_undefined sys_buf garbage (suc rounds) p color n cur k ne h small e =
    rw (==_ne n 0 ne, all_of_it, e) refl
  where
    all_of_it : (if ltb n (page_size - 1) then n else page_size - 1) ≡ n
    all_of_it = ground arith

-- The string of a SysPutStr call is the format of PrintfColor, with no arguments behind it: if the
-- string is in user memory, present, shorter than a page and apart from the kernel's buffer, and has
-- no zero in it, and after characters that stand for themselves a conversion that takes an
-- argument, what the kernel does is undefined.
pub sys_put_str_conversion :
    (sys_buf : ℕ) (garbage : ℕ → ℕ) (tf : TrapFrame) (k : Kernel) (text rest : List ℕ) (c : ℕ)
    → let p = get_current_id k.threads in
      let buf = buffer sys_buf garbage p in
      mem_userlo ≤ tf.ebx
      → tf.ebx + tf.ecx ≤ mem_userhi
      → tf.ecx < page_size
      → buf + page_size ≤ mem_userhi
      → UserRange k.vm p tf.ebx buf tf.ecx
      → All (λ x. x ≢ 0) (user_bytes k.vm p tf.ebx tf.ecx)
      → user_bytes k.vm p tf.ebx tf.ecx ≡ text ++ 0x25 ∷ c ∷ rest
      → All IsText text
      → takes_arg c ≡ true
      → sys_put_str sys_buf garbage tf k ≡ undefined
unfolding sys_put_str
sys_put_str_conversion sys_buf garbage tf k text rest c lo hi small fits range nonzero bytes plain
      conv =
    let p = get_current_id k.threads in
    let (r, e, same) =
      put_chunk_read sys_buf garbage p tf.edx tf.ebx tf.ecx k small lo hi fits range nonzero in
    let stops : put_chunk sys_buf garbage p tf.edx tf.ebx tf.ecx k ≡ undefined =
      e
      ∙ rw (bytes, printf_color_conversion garbage tf.edx text c rest k.console plain conv) refl in
    rw
      (
        leb-true mem_userlo tf.ebx lo,
        leb-true ((tf.ebx + tf.ecx) % word) mem_userhi (omega arith),
        put_chunks_undefined sys_buf garbage tf.ecx p tf.edx tf.ecx tf.ebx k
            (nonempty k.vm p tf.ebx tf.ecx text 0x25 (c ∷ rest) bytes) (omega arith) small stops,
      )
      refl
