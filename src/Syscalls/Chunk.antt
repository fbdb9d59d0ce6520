-- ===== src/Syscalls/Chunk.antt =====
-- What a round of SysPutStr hands to PrintfColor.
use storm_os.Base.{
  ==_refl, ==_eq, ==_ne, All, update, update_self, update_ne, ℕ, zero, suc, ◌+◌, ◌≤◌, ◌<◌, ◌≡◌,
  refl, sym, ap, ◌∙◌, ◌≢◌, inl, inr, true, ◌∷◌, arith,
}
use storm_os.MemPhysical.State.{page_size, mem_userlo, mem_userhi}
use storm_os.MemVirtual.Ram.{Ram}
use storm_os.MemVirtual.State.{Vm}
use storm_os.MemVirtual.Copy.Bytes.{Outside, physical}
use storm_os.MemVirtual.Copy.Contents.{pt_copy_in-Copied}
use storm_os.Printf.{until_zero}
use storm_os.Kernel.{Kernel, done, ◌>>=◌}
use storm_os.Syscalls.{buffer, put_chunk, printf_color}
use storm_os.Syscalls.Range.{user_bytes, UserRange, UserRange-Source}

-- The string in a buffer that holds a user range and a zero behind it.
until_zero-user_bytes :
    (n rounds : ℕ) (r : Ram) (a : ℕ) (s : Vm) (p uva : ℕ)
    → n < rounds
    → ((i : ℕ) → i < n → r (a + i) ≡ s.ram (physical s p (uva + i)))
    → r (a + n) ≡ 0
    → All (λ c. c ≢ 0) (user_bytes s p uva n)
    → until_zero rounds r a ≡ user_bytes s p uva n
unfolding until_zero user_bytes
until_zero-user_bytes n zero r a s p uva h same end text = absurd (omega arith)
until_zero-user_bytes zero (suc rounds) r a s p uva h same end text =
    rw (==_eq (r a) 0 (ap r (omega arith) ∙ end)) refl
until_zero-user_bytes (suc n) (suc rounds) r a s p uva h same end (c, text) =
    let first : r a ≡ s.ram (physical s p uva) =
      ap r (omega arith) ∙ same 0 (omega arith) ∙ ap (λ b. s.ram (physical s p b)) (omega arith) in
    let rest =
      until_zero-user_bytes n rounds r (a + 1) s p (uva + 1) (omega arith)
        (λ i hi.
          ap r (omega arith)
          ∙ same (suc i) (omega arith)
          ∙ ap (λ b. s.ram (physical s p b)) (omega arith))
        (ap r (omega arith) ∙ end) text in
    rw (==_ne (r a) 0 (λ z. c (sym first ∙ z))) (
      ap (λ x. x ∷ until_zero rounds r (a + 1)) first
      ∙ ap (λ xs. s.ram (physical s p uva) ∷ xs) rest)

Vm-ext :
    (s t : Vm)
    → t.page_dir_entries ≡ s.page_dir_entries
    → t.memory ≡ s.memory
    → t ≡ record s { ram = t.ram }
Vm-ext s t d m = ground arith

terminated_rest :
    (r t : Ram) (buf n : ℕ)
    → n < page_size
    → ((a : ℕ) → Outside a buf n → t a ≡ r a)
    → (a : ℕ) → Outside a buf page_size
    → update t (buf + n) 0 a ≡ r a
terminated_rest r t buf n small rest a out = elim out [
  | inl l ↦ update_ne t (buf + n) a 0 (omega (arith, l)) ∙ rest a (inl l)
  | inr l ↦ update_ne t (buf + n) a 0 (omega (arith, l)) ∙ rest a (inr (omega (arith, l)))
]

module _ (sys_buf : ℕ) (garbage : ℕ → ℕ) where
  -- A round on a string that is present: it is handed to PrintfColor as the format, and memory changes
  -- in the buffer only.
  pub put_chunk_read :
      (p color uva n : ℕ) (k : Kernel)
      → n < page_size
      → mem_userlo ≤ uva
      → uva + n ≤ mem_userhi
      → buffer sys_buf garbage p + page_size ≤ mem_userhi
      → UserRange k.vm p uva (buffer sys_buf garbage p) n
      → All (λ c. c ≢ 0) (user_bytes k.vm p uva n)
      → (r : Ram) × (put_chunk sys_buf garbage p color uva n k ≡ (
          printf_color garbage color (user_bytes k.vm p uva n) k.console >>= λ console.
          done (true, record k { vm = record k.vm { ram = r }; console = console })))
        × ((a : ℕ) → Outside a (buffer sys_buf garbage p) page_size → r a ≡ k.vm.ram a)
  unfolding put_chunk
  put_chunk_read p color uva n k small lo hi fits range text =
      let buf = buffer sys_buf garbage p in
      let (t, e, c) =
        pt_copy_in-Copied p uva buf n k.vm lo hi (omega arith)
          (UserRange-Source k.vm p uva buf n n (omega arith) (omega arith) range) in
      let r : Ram = update t.ram (buf + n) 0 in
      let ended = update_self t.ram (buf + n) 0 in
      let bytes = λ (i : ℕ) (hi : i < n).
        update_ne t.ram (buf + n) (buf + i) 0 (omega arith) ∙ c.bytes i hi in
      let read = until_zero-user_bytes n page_size r buf k.vm p uva small bytes ended text in
      (
        r,
        rw (e, ==_refl n, read)
            (ap
              (λ (vm : Vm).
                printf_color garbage color (user_bytes k.vm p uva n) k.console >>= λ console.
                done (true, record k { vm = vm; console = console }))
              (Vm-ext k.vm (record t { ram = r }) c.same_dirs c.same_memory)),
        terminated_rest k.vm.ram t.ram buf n small c.rest,
      )
