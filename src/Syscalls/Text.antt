-- ===== src/Syscalls/Text.antt =====
-- What SysPutStr prints of a text in user memory.
use mathlib.Core.Path.{subst}
use native.Mathlib.Decide.{ℕ_discrete}
use storm_os.Base.{
  ltb, if◌then◌else◌, ==_eq, ==_ne, leb-true, All, ℕ, zero, suc, ◌+◌, ◌-◌, ◌%◌, ◌≤◌, ◌<◌, ◌≡◌, refl,
  sym, ap, ◌∙◌, ◌≢◌, true, List, [], ◌∷◌, ◌++◌, arith,
}
use storm_os.MemPhysical.State.{page_size, mem_userlo, mem_userhi}
use storm_os.MemVirtual.Ram.{Ram, word}
use storm_os.MemVirtual.Copy.Bytes.{Outside}
use storm_os.Thread.Schedule.{get_current_id}
use storm_os.Console.{Console, put_char, put_str}
use storm_os.Printf.Buffer.{IsText, vprintf_text}
use storm_os.Kernel.{TrapFrame, Kernel, done}
use storm_os.Syscalls.{buffer, put_chunk, put_chunks, sys_put_str, printf_color, e_succ}
use storm_os.Syscalls.Chunk.{put_chunk_read}
use storm_os.Syscalls.Range.{
  user_bytes, UserRange, UserRange-later, UserRange-first, UserRange-changed, user_bytes_changed,
  user_bytes-append,
}

put_str-append :
    (xs ys : List ℕ) (color : ℕ) (s : Console)
    → put_str (xs ++ ys) color s ≡ put_str ys color (put_str xs color s)
unfolding put_str
put_str-append [] ys color s = refl
put_str-append (x ∷ xs) ys color s = put_str-append xs ys color (put_char x color s)

All-split : (xs ys : List ℕ) → All IsText (xs ++ ys) → All IsText xs × All IsText ys
All-split [] ys h = (tt, h)
All-split (x ∷ xs) ys (h, rest) = let (a, b) = All-split xs ys rest in ((h, a), b)

printf_color_text :
    (garbage : ℕ → ℕ) (color : ℕ) (text : List ℕ) (s : Console)
    → All IsText text
    → printf_color garbage color text s ≡ done (put_str text color s)
unfolding printf_color
printf_color_text garbage color text s h = rw (vprintf_text garbage text h) refl

text-NonZero : (xs : List ℕ) → All IsText xs → All (λ c. c ≢ 0) xs
text-NonZero [] h = tt
text-NonZero (x ∷ xs) (c, rest) = (c.nonzero, text-NonZero xs rest)

module _ (sys_buf : ℕ) (garbage : ℕ → ℕ) where
  -- A round on a text that is present: it is printed, and memory changes in the buffer only.
  put_chunk_text :
      (p color uva n : ℕ) (k : Kernel)
      → n < page_size
      → mem_userlo ≤ uva
      → uva + n ≤ mem_userhi
      → buffer sys_buf garbage p + page_size ≤ mem_userhi
      → UserRange k.vm p uva (buffer sys_buf garbage p) n
      → All IsText (user_bytes k.vm p uva n)
      → (r : Ram) × (put_chunk sys_buf garbage p color uva n k
          ≡ done (
            true,
            record k {
              vm = record k.vm { ram = r };
              console = put_str (user_bytes k.vm p uva n) color k.console;
            },
          ))
        × ((a : ℕ) → Outside a (buffer sys_buf garbage p) page_size → r a ≡ k.vm.ram a)
  put_chunk_text p color uva n k small lo hi fits range text =
      let (r, e, same) =
        put_chunk_read sys_buf garbage p color uva n k small lo hi fits range
          (text-NonZero (user_bytes k.vm p uva n) text) in
      (
        r,
        e ∙ rw (printf_color_text garbage color (user_bytes k.vm p uva n) k.console text) refl,
        same,
      )

  chunk_size : ℕ → ℕ
  chunk_size remain = if ltb remain (page_size - 1) then remain else page_size - 1

  chunk_size-le :
      (remain : ℕ)
      → remain ≢ 0
      → (0 < chunk_size remain) × (chunk_size remain ≤ remain) × (chunk_size remain < page_size)
  unfolding chunk_size
  chunk_size-le remain ne = ground arith

  put_chunks_round :
      (rounds p color remain cur : ℕ) (k k' : Kernel)
      → remain ≢ 0
      → put_chunk sys_buf garbage p color cur (chunk_size remain) k ≡ done (true, k')
      → put_chunks sys_buf garbage (suc rounds) p color remain cur k
        ≡ put_chunks sys_buf garbage rounds p color
            (remain - chunk_size remain)
            ((cur + chunk_size remain) % word)
            k'
  unfolding put_chunks chunk_size
  put_chunks_round rounds p color remain cur k k' ne e = rw (==_ne remain 0 ne, e) refl

  printed_nothing :
      (p color cur remain : ℕ) (k : Kernel)
      → remain ≡ 0
      → put_str (user_bytes k.vm p cur remain) color k.console ≡ k.console
  unfolding user_bytes put_str
  printed_nothing p color cur remain k z =
      ap (λ m. put_str (user_bytes k.vm p cur m) color k.console) z

  -- The whole loop of SysPutStr on such a text.
  put_chunks_text :
      (rounds p color remain cur : ℕ) (k : Kernel)
      → remain ≤ rounds
      → mem_userlo ≤ cur
      → cur + remain ≤ mem_userhi
      → buffer sys_buf garbage p + page_size ≤ mem_userhi
      → UserRange k.vm p cur (buffer sys_buf garbage p) remain
      → All IsText (user_bytes k.vm p cur remain)
      → (r : Ram) × (put_chunks sys_buf garbage rounds p color remain cur k
          ≡ done (
            e_succ,
            record k {
              vm = record k.vm { ram = r };
              console = put_str (user_bytes k.vm p cur remain) color k.console;
            },
          ))
        × ((a : ℕ) → Outside a (buffer sys_buf garbage p) page_size → r a ≡ k.vm.ram a)
  unfolding put_chunks
  put_chunks_text zero p color remain cur k h lo hi fits range text = (
    k.vm.ram,
    rw (==_eq remain 0 (omega arith)) (
        ap (λ c. done (e_succ, record k { console = c }))
          (sym (printed_nothing p color cur remain k (omega arith)))),
    λ a out. refl,
  )
  put_chunks_text (suc rounds) p color remain cur k h lo hi fits range text =
      elim (ℕ_discrete remain 0) [
        | yes z ↦ (
          k.vm.ram,
          rw (==_eq remain 0 z) (
              ap (λ c. done (e_succ, record k { console = c }))
                (sym (printed_nothing p color cur remain k z))),
          λ a out. refl,
        )
        | no ne ↦
            let buf = buffer sys_buf garbage p in
            let n = chunk_size remain in
            let (positive, le, small) = chunk_size-le remain ne in
            let split : user_bytes k.vm p cur remain
                ≡ user_bytes k.vm p cur n ++ user_bytes k.vm p (cur + n) (remain - n) =
              ap (λ m. user_bytes k.vm p cur m) (omega (arith, le))
              ∙ user_bytes-append n (remain - n) k.vm p cur in
            let (text_now, text_later) =
              All-split (user_bytes k.vm p cur n) (user_bytes k.vm p (cur + n) (remain - n))
                (subst (All IsText) split text) in
            let (r, e, same) =
              put_chunk_text p color cur n k small lo (omega (arith, le)) fits
                (UserRange-first k.vm p cur buf remain n le range) text_now in
            let k' : Kernel = record k {
              vm = record k.vm { ram = r };
              console = put_str (user_bytes k.vm p cur n) color k.console;
            } in
            let later = UserRange-later k.vm p cur buf remain n le range in
            let bytes =
              user_bytes_changed (remain - n) k.vm p (cur + n) buf (remain - n) (omega arith) later
                r same in
            let (r', e', same') =
              put_chunks_text rounds p color (remain - n) (cur + n) k' (omega (arith, positive))
                (omega arith) (omega (arith, le)) fits
                (UserRange-changed k.vm p (cur + n) buf (remain - n) later r same)
                (subst (All IsText) (sym bytes) text_later) in
            (
              r',
              put_chunks_round rounds p color remain cur k k' ne e
                  ∙ ap (λ a. put_chunks sys_buf garbage rounds p color (remain - n) a k')
                      (omega (arith, le))
                  ∙ e'
                  ∙ ap (λ c. done (e_succ, record k { vm = record k.vm { ram = r' }; console = c }))
                      (ap
                          (λ xs.
                            put_str xs color (put_str (user_bytes k.vm p cur n) color k.console))
                          bytes
                        ∙ sym (
                            put_str-append (user_bytes k.vm p cur n)
                              (user_bytes k.vm p (cur + n) (remain - n)) color k.console)
                        ∙ ap (λ xs. put_str xs color k.console) (sym split)),
              λ a out. same' a out ∙ same a out,
            )
      ]

-- Let the string of a SysPutStr call be in user memory and present, of characters that stand for
-- themselves in a format, and apart from the kernel's buffer for the thread, as the table entries
-- that map it are. Then the call returns, has put the string, all of it and nothing else, on the
-- console in the given color, with eax set to the code for success, and memory has changed in that
-- buffer only.
pub sys_put_str_text :
    (sys_buf : ℕ) (garbage : ℕ → ℕ) (tf : TrapFrame) (k : Kernel)
    → let p = get_current_id k.threads in
      let buf = buffer sys_buf garbage p in
      mem_userlo ≤ tf.ebx
      → tf.ebx + tf.ecx ≤ mem_userhi
      → buf + page_size ≤ mem_userhi
      → UserRange k.vm p tf.ebx buf tf.ecx
      → All IsText (user_bytes k.vm p tf.ebx tf.ecx)
      → (r : Ram) × (sys_put_str sys_buf garbage tf k
          ≡ done (
            record tf { eax = e_succ },
            record k {
              vm = record k.vm { ram = r };
              console = put_str (user_bytes k.vm p tf.ebx tf.ecx) tf.edx k.console;
            },
          ))
        × ((a : ℕ) → Outside a buf page_size → r a ≡ k.vm.ram a)
unfolding sys_put_str
sys_put_str_text sys_buf garbage tf k lo hi fits range text =
    let (r, e, same) =
      put_chunks_text sys_buf garbage tf.ecx (get_current_id k.threads) tf.edx tf.ecx tf.ebx k
        (omega arith) lo hi fits range text in
    (
      r,
      rw
          (
            leb-true mem_userlo tf.ebx lo,
            leb-true ((tf.ebx + tf.ecx) % word) mem_userhi (omega arith),
            e,
          )
          refl,
      same,
    )
