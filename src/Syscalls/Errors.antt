-- ===== src/Syscalls/Errors.antt =====
-- The calls that are refused.
use storm_os.Base.{ℕ, ◌+◌, ◌*◌, ◌%◌, ◌<◌, ◌≡◌, arith}
use storm_os.MemPhysical.State.{mem_userlo, mem_userhi}
use storm_os.MemVirtual.Ram.{word}
use storm_os.Kernel.{TrapFrame, Kernel, done}
use storm_os.Syscalls.{
  syscall_dispatch, e_inval_callnr, e_inval_addr, sys_putstr, sys_dispbuf, plane_size, vga_planes,
}

-- The number of bytes that a call of the two numbers with an address is to read.
pub data Reads (tf : TrapFrame) : ℕ → Type 0 where
  text : tf.eax ≡ sys_putstr → Reads tf tf.ecx
  picture : tf.eax ≡ sys_dispbuf → Reads tf (plane_size * vga_planes)

-- The reasons to refuse a call, with the error number of each: an unknown number, and bytes that
-- start below the user part or end above it. The end is computed in 32 bits.
pub data Refusal (tf : TrapFrame) : ℕ → Type 0 where
  unknown_number : sys_dispbuf < tf.eax → Refusal tf e_inval_callnr
  starts_below : {len : ℕ} → Reads tf len → tf.ebx < mem_userlo → Refusal tf e_inval_addr
  ends_above :
      {len : ℕ} → Reads tf len → mem_userhi < (tf.ebx + len) % word → Refusal tf e_inval_addr

-- A call with an unknown number, or one for bytes that start below the user part or end above it
-- (where the end is computed in 32 bits), gets its error number in eax, and changes nothing else,
-- neither in the frame nor in the kernel.
pub syscall_dispatch_refused :
    (sys_buf : ℕ) (garbage : ℕ → ℕ) (tf : TrapFrame) (k : Kernel) (e : ℕ)
    → Refusal tf e
    → syscall_dispatch sys_buf garbage tf k ≡ done (record tf { eax = e }, k)
unfolding syscall_dispatch
syscall_dispatch_refused sys_buf garbage tf k _ (unknown_number h) = ground arith
syscall_dispatch_refused sys_buf garbage tf k _ (starts_below (text n) h) = ground arith
syscall_dispatch_refused sys_buf garbage tf k _ (starts_below (picture n) h) = ground arith
syscall_dispatch_refused sys_buf garbage tf k _ (ends_above (text n) h) = ground arith
syscall_dispatch_refused sys_buf garbage tf k _ (ends_above (picture n) h) = ground arith
