-- ===== src/Syscalls/Kept.antt =====
-- What a system call keeps, whatever it was.
use storm_os.Base.{
  ltb, ◌==◌, if◌then◌else◌, update, ℕ, zero, suc, ◌+◌, ◌-◌, ◌*◌, ◌%◌, ◌≡◌, refl, Bool, true, false,
  not, Option, none, some,
}
use storm_os.MemVirtual.Ram.{word}
use storm_os.MemPhysical.State.{page_size}
use storm_os.MemVirtual.State.{Vm}
use storm_os.MemVirtual.Copy.{in_user_space, pt_copy_in}
use storm_os.Thread.Schedule.{get_current_id}
use storm_os.Console.{Console, get_char}
use storm_os.Printf.{until_zero}
use storm_os.Kernel.{TrapFrame, Kernel, Run, done, panics, undefined, ◌>>=◌, defined}
use storm_os.Syscalls.{
  syscall_dispatch, put_chunk, put_chunks, sys_put_str, sys_get_char, sys_display_buffer,
  display_user_buffer, display_planes, port_word_out, printf_color, buffer, plane_size, vga_address,
  vga_planes, plane_masks, sys_putstr, sys_getchar, sys_dispbuf,
}

-- If the call returns, its result is as given.
abbrev pub Returns : {A : Type 0} → (A → Type 0) → Run A → Type 0
Returns P (done a) = P a
Returns P panics = Unit
Returns P undefined = Unit

pub Returns-bind :
    {A B : Type 0}
    → (P : A → Type 0) (Q : B → Type 0) (r : Run A) (f : A → Run B) → Returns P r
    → ((a : A) → P a → Returns Q (f a))
    → Returns Q (r >>= f)
Returns-bind P Q (done a) f h g = g a h
Returns-bind P Q panics f h g = tt
Returns-bind P Q undefined f h g = tt

Returns-defined :
    {A B : Type 0}
    → (Q : B → Type 0) (o : Option A) (f : A → Run B) → ((a : A) → Returns Q (f a))
    → Returns Q (defined o >>= f)
Returns-defined Q none f g = tt
Returns-defined Q (some a) f g = g a

-- A call whose console output is as it may be.
Returns-console :
    {B : Type 0}
    → (Q : B → Type 0) (r : Run Console) (f : Console → Run B) → ((c : Console) → Returns Q (f c))
    → Returns Q (r >>= f)
Returns-console Q (done a) f g = g a
Returns-console Q panics f g = tt
Returns-console Q undefined f g = tt

pub Returns-map :
    {A : Type 0}
    → (P Q : A → Type 0) (r : Run A) → ((a : A) → P a → Q a)
    → Returns P r
    → Returns Q r
Returns-map P Q (done a) f h = f a h
Returns-map P Q panics f h = tt
Returns-map P Q undefined f h = tt

pub Returns-if :
    {A : Type 0}
    → (P : A → Type 0) (b : Bool) (x y : Run A) → Returns P x
    → Returns P y
    → Returns P (if b then x else y)
Returns-if P true x y hx hy = hx
Returns-if P false x y hx hy = hy

Returns-elim :
    {A : Type 0}
    → (P : A → Type 0) (b : Bool) (x y : Run A) → Returns P x
    → Returns P y
    → Returns P (elim b [ true ↦ x | false ↦ y ])
Returns-elim P true x y hx hy = hx
Returns-elim P false x y hx hy = hy

-- The threads, the saved frames, the registers and the interrupt controllers are as they were.
abbrev pub Kept : Kernel → Kernel → Type 0
Kept k t =
    (t.threads ≡ k.threads)
    × (t.user_contexts ≡ k.user_contexts)
    × (t.registers ≡ k.registers)
    × (t.pic ≡ k.pic)

abbrev pub KeptBy : {A : Type 0} → Kernel → A × Kernel → Type 0
KeptBy k r = Kept k r.1

display_planes-Kept :
    (rounds pid buf_va p : ℕ) (k t : Kernel)
    → Kept k t
    → Returns (Kept k) (display_planes rounds pid buf_va p t)
unfolding display_planes
display_planes-Kept zero pid buf_va p k t h = h
display_planes-Kept (suc rounds) pid buf_va p k t h =
    let selected = port_word_out 0x3c4 (plane_masks p) t in
    Returns-defined _
      (pt_copy_in pid ((buf_va + p * plane_size) % word) vga_address plane_size t.vm) _
      (λ r. display_planes-Kept rounds pid buf_va (p + 1) k (record selected { vm = r.1 }) h)

display_user_buffer-Kept :
    (buf_va : ℕ) (k : Kernel) → Returns (Kept k) (display_user_buffer buf_va k)
unfolding display_user_buffer
display_user_buffer-Kept buf_va k =
    Returns-bind (Kept k) _
      (display_planes vga_planes (get_current_id k.threads) buf_va 0 (port_word_out 0x3ce 0x5 k)) _
      (display_planes-Kept vga_planes (get_current_id k.threads) buf_va 0 k
        (port_word_out 0x3ce 0x5 k) (refl, refl, refl, refl))
      (λ t h. h)

module _ (sys_buf : ℕ) (garbage : ℕ → ℕ) where
  put_chunk-Kept :
      (pid color cur n : ℕ) (k t : Kernel)
      → Kept k t
      → Returns (KeptBy k) (put_chunk sys_buf garbage pid color cur n t)
  unfolding put_chunk
  put_chunk-Kept pid color cur n k t h =
      Returns-defined _ (pt_copy_in pid cur (buffer sys_buf garbage pid) n t.vm) _
        (λ r. Returns-if _ (r.0 == n) _ _ (Returns-console _ (printed r.1) _ (λ c. h)) h)
    where
      printed : Vm → Run Console
      printed vm =
          printf_color garbage color
            (until_zero page_size (update vm.ram (buffer sys_buf garbage pid + n) 0)
              (buffer sys_buf garbage pid))
            t.console

  put_chunks-Kept :
      (rounds pid color remain cur : ℕ) (k t : Kernel)
      → Kept k t
      → Returns (KeptBy k) (put_chunks sys_buf garbage rounds pid color remain cur t)
  unfolding put_chunks
  put_chunks-Kept zero pid color remain cur k t h = Returns-if _ (remain == 0) _ _ h tt
  put_chunks-Kept (suc rounds) pid color remain cur k t h = Returns-if _ (remain == 0) _ _ h (
      Returns-bind (KeptBy k) _ (put_chunk sys_buf garbage pid color cur n t) _
        (put_chunk-Kept pid color cur n k t h)
        (λ r hr.
          Returns-elim _ r.0 _ _
            (put_chunks-Kept rounds pid color (remain - n) ((cur + n) % word) k r.1 hr) hr))
    where
      n : ℕ
      n = if ltb remain (page_size - 1) then remain else page_size - 1

  pub syscall_dispatch-Kept :
      (tf : TrapFrame) (k : Kernel) → Returns (KeptBy k) (syscall_dispatch sys_buf garbage tf k)
  unfolding syscall_dispatch sys_put_str sys_get_char sys_display_buffer
  syscall_dispatch-Kept tf k =
      Returns-if _ (tf.eax == sys_putstr) _ _
        (Returns-if _ (not (in_user_space tf.ebx tf.ecx)) _ _ kept (
          Returns-bind (KeptBy k) _
            (put_chunks sys_buf garbage tf.ecx (get_current_id k.threads) tf.edx tf.ecx tf.ebx k) _
            (put_chunks-Kept tf.ecx (get_current_id k.threads) tf.edx tf.ecx tf.ebx k k kept)
            (λ r hr. hr)))
        (Returns-if _ (tf.eax == sys_getchar) _ _
          (Returns-defined _ (get_char k.keyboard k.console) _ (λ r. kept))
          (Returns-if _ (tf.eax == sys_dispbuf) _ _
            (Returns-if _ (not (in_user_space tf.ebx (plane_size * vga_planes))) _ _ kept (
              Returns-bind (Kept k) _ (display_user_buffer tf.ebx k) _
                (display_user_buffer-Kept tf.ebx k) (λ t ht. ht)))
            kept))
    where
      kept : Kept k k
      kept = (refl, refl, refl, refl)
