-- ===== src/Syscalls.antt =====
-- src/syscall.c, with PrintfColor of src/printf.c and DisplayUserBuffer of src/screen.c.
pub mod Chunk
pub mod Errors
pub mod Format
pub mod Kept
pub mod Range
pub mod Text
use storm_os.Base.{
  ltb, ◌==◌, if◌then◌else◌, ℤ, update, ℕ, zero, suc, ◌+◌, ◌-◌, ◌*◌, ◌%◌, ◌^◌, Bool, true, false,
  not, List, [], ◌∷◌, ◌++◌, pos, negsuc,
}
use storm_os.Thread.Schedule.{get_current_id}
use storm_os.MemPhysical.State.{page_size}
use storm_os.MemVirtual.Ram.{word}
use storm_os.MemVirtual.Copy.{in_user_space, pt_copy_in}
use storm_os.Console.{Console, get_char, put_str}
use storm_os.Printf.{vprintf, until_zero}
use storm_os.Kernel.{TrapFrame, Kernel, Run, done, undefined, ◌>>=◌, defined}

-- enum SyscallNumber
abbrev pub sys_putstr : ℕ
sys_putstr = 0

abbrev pub sys_getchar : ℕ
sys_getchar = 1

abbrev pub sys_dispbuf : ℕ
sys_dispbuf = 2

-- The errors of enum __error_nr that the calls return.
abbrev pub e_succ : ℕ
e_succ = 0

abbrev pub e_mem : ℕ
e_mem = 1

abbrev pub e_inval_callnr : ℕ
e_inval_callnr = 3

abbrev pub e_inval_addr : ℕ
e_inval_addr = 4

abbrev pub syscall_get_arg1 : TrapFrame → ℕ
syscall_get_arg1 tf = tf.eax

abbrev pub syscall_get_arg2 : TrapFrame → ℕ
syscall_get_arg2 tf = tf.ebx

abbrev pub syscall_get_arg3 : TrapFrame → ℕ
syscall_get_arg3 tf = tf.ecx

abbrev pub syscall_get_arg4 : TrapFrame → ℕ
syscall_get_arg4 tf = tf.edx

abbrev pub syscall_set_err_no : ℕ → TrapFrame → TrapFrame
syscall_set_err_no errno tf = record tf { eax = errno }

abbrev pub syscall_set_ret_val1 : ℕ → TrapFrame → TrapFrame
syscall_set_ret_val1 retval tf = record tf { ebx = retval }

-- PrintfColor without arguments: what VPrintf hands to PutStr goes to the console. `garbage` is
-- what the buffer on the stack held.
unfoldable pub printf_color : (ℕ → ℕ) → ℕ → List ℕ → Console → Run Console
printf_color garbage color fmt s = do
  (count, text) ← defined (vprintf garbage fmt [])
  done (put_str text color s)

abbrev pub vga_address : ℕ
vga_address = 0xa0000

-- VGA_WIDTH * VGA_HEIGHT
abbrev pub plane_size : ℕ
plane_size = 38400

abbrev pub vga_planes : ℕ
vga_planes = 4

unfoldable pub plane_masks : ℕ → ℕ
plane_masks p = 0x0002 + 2 ^ p * 0x100

abbrev pub port_word_out : ℕ → ℕ → Kernel → Kernel
port_word_out port value k = record k { ports = k.ports ++ (port, value) ∷ [] }

-- The loop over the planes, from plane `p` on.
pub display_planes : ℕ → ℕ → ℕ → ℕ → Kernel → Run Kernel
display_planes zero pid buf_va p k = done k
display_planes (suc rounds) pid buf_va p k = do
  let selected = port_word_out 0x3c4 (plane_masks p) k
  (copied, vm) ←
      defined (pt_copy_in pid ((buf_va + p * plane_size) % word) vga_address plane_size selected.vm)
  display_planes rounds pid buf_va (p + 1) (record selected { vm = vm })

pub display_user_buffer : ℕ → Kernel → Run Kernel
display_user_buffer buf_va k = do
  shown ← display_planes vga_planes (get_current_id k.threads) buf_va 0 (port_word_out 0x3ce 0x5 k)
  done (port_word_out 0x3c4 0x0f02 shown)

-- An `int` as a register.
abbrev pub register : ℤ → ℕ
register (pos n) = n % word
register (negsuc n) = word - 1 - n % word

-- What the functions of the file get beside the kernel's state: the address of sysBuf and what the
-- stack held.
module _ (sys_buf : ℕ) (garbage : ℕ → ℕ) where
  -- sysBuf[pid]
  abbrev pub buffer : ℕ → ℕ
  buffer pid = sys_buf + pid * page_size

  -- The body of the loop of SysPutStr, and whether the copy succeeded.
  unfoldable pub put_chunk : ℕ → ℕ → ℕ → ℕ → Kernel → Run (Bool × Kernel)
  put_chunk pid color cur_pos n_bytes k = do
    (copied, vm) ← defined (pt_copy_in pid cur_pos (buffer pid) n_bytes k.vm)
    let ended = update vm.ram (buffer pid + n_bytes) 0
    let printed = printf_color garbage color (until_zero page_size ended (buffer pid)) k.console
    if copied == n_bytes
        then (printed >>= λ console.
            done (true, record k { vm = record vm { ram = ended }; console = console }))
        else done (false, record k { vm = vm })

  -- The loop, and the error number that it leaves. A round takes a byte at least, so that `remain`
  -- rounds are enough.
  unfoldable pub put_chunks : ℕ → ℕ → ℕ → ℕ → ℕ → Kernel → Run (ℕ × Kernel)
  put_chunks zero pid color remain cur_pos k = if remain == 0 then done (e_succ, k) else undefined
  put_chunks (suc rounds) pid color remain cur_pos k =
      let n_bytes = if ltb remain (page_size - 1) then remain else page_size - 1 in
      let more = put_chunk pid color cur_pos n_bytes k >>= λ (r : Bool × Kernel). elim r.0 [
        | true ↦ put_chunks rounds pid color (remain - n_bytes) ((cur_pos + n_bytes) % word) r.1
        | false ↦ done (e_mem, r.1)
      ] in
      if remain == 0 then done (e_succ, k) else more

  unfoldable pub sys_put_str : TrapFrame → Kernel → Run (TrapFrame × Kernel)
  sys_put_str tf k =
      let str_va = syscall_get_arg2 tf in
      let len = syscall_get_arg3 tf in
      if not (in_user_space str_va len)
      then done (syscall_set_err_no e_inval_addr tf, k)
      else (put_chunks len (get_current_id k.threads) (syscall_get_arg4 tf) len str_va k
          >>= λ (r : ℕ × Kernel). done (syscall_set_err_no r.0 tf, r.1))

  unfoldable pub sys_get_char : TrapFrame → Kernel → Run (TrapFrame × Kernel)
  sys_get_char tf k = do
    (ch, keyboard, console) ← defined (get_char k.keyboard k.console)
    done (
      syscall_set_ret_val1 (register ch) (syscall_set_err_no e_succ tf),
      record k { keyboard = keyboard; console = console },
    )

  unfoldable pub sys_display_buffer : TrapFrame → Kernel → Run (TrapFrame × Kernel)
  sys_display_buffer tf k =
      let buf_va = syscall_get_arg2 tf in
      if not (in_user_space buf_va (plane_size * vga_planes))
      then done (syscall_set_err_no e_inval_addr tf, k)
      else (display_user_buffer buf_va k >>= λ t. done (syscall_set_err_no e_succ tf, t))

  unfoldable pub syscall_dispatch : TrapFrame → Kernel → Run (TrapFrame × Kernel)
  unfolding sys_put_str sys_get_char sys_display_buffer
  syscall_dispatch tf k =
      if syscall_get_arg1 tf == sys_putstr
      then sys_put_str tf k
      else if syscall_get_arg1 tf == sys_getchar
      then sys_get_char tf k
      else if syscall_get_arg1 tf == sys_dispbuf
      then sys_display_buffer tf k
      else done (syscall_set_err_no e_inval_callnr tf, k)
