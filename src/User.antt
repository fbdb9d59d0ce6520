-- ===== src/User.antt =====
-- src/user/lib: the calls of syscall.c, and stdio.c on top of them. PrintNum and VPrintFmt of stdio.c
-- have the text of those of src/printf.c.
pub mod Call
pub mod Keys
pub mod Program
pub mod Text
use storm_os.Base.{
  leb, ◌==◌, if◌then◌else◌, ℤ, update, ℕ, suc, ◌+◌, ◌-◌, ◌%◌, ◌^◌, ap, false, Option, none, some,
  List, [], ◌∷◌, ◌++◌, negsuc,
}
use storm_os.Printf.{Arg, print_num, vprint_fmt}
use storm_os.Printf.Buffer.{bytes}
use storm_os.Printf.Render.{signed}
use storm_os.Kernel.{TrapFrame}
use storm_os.Syscalls.{sys_putstr, sys_getchar, sys_dispbuf}
use storm_os.Traps.{t_syscall}

-- The frame of `int T_SYSCALL` in SysPutStr, SysGetChar and SysDisplayBuffer, for the other registers
-- as they are.
abbrev pub call_put_str : ℕ → ℕ → ℕ → TrapFrame → TrapFrame
call_put_str str len color tf = record tf {
  trapno = t_syscall;
  eax = sys_putstr;
  ebx = str;
  ecx = len;
  edx = color;
}

abbrev pub call_get_char : TrapFrame → TrapFrame
call_get_char tf = record tf { trapno = t_syscall; eax = sys_getchar }

-- `errno ? -1 : c`, of the frame that the trap returned
abbrev pub got_char : TrapFrame → ℤ
got_char tf = if tf.eax == 0 then signed tf.ebx else negsuc 0

abbrev pub call_display_buffer : ℕ → TrapFrame → TrapFrame
call_display_buffer buf tf = record tf { trapno = t_syscall; eax = sys_dispbuf; ebx = buf }

abbrev pub print_buffer_size : ℕ
print_buffer_size = 512

-- The buffer, and the texts that PutStr has been given so far.
pub record UserBuf : Type 0 where
  pub index : ℕ
  pub count : ℕ
  pub buf : ℕ → ℕ
  pub out : List (List ℕ)

-- `buf->buf[buf->index] = 0; PutStr(buf->buf, buf->index, color);`
unfoldable pub flush : UserBuf → UserBuf
flush b =
    let ended = update b.buf b.index 0 in
    record b { buf = ended; out = b.out ++ bytes b.index ended 0 ∷ [] }

unfoldable pub user_put_ch : ℕ → UserBuf → UserBuf
user_put_ch ch b =
    let stored = record b { buf = update b.buf b.index (ch % 2 ^ 8); index = suc b.index } in
    let flushed = record (flush stored) { index = 0 } in
    let kept = if leb (print_buffer_size - 1) stored.index then flushed else stored in
    record kept { count = kept.count + 1 }

abbrev pub user_print_num : ℕ → ℕ → ℕ → UserBuf → Option UserBuf
user_print_num fuel num base = print_num user_put_ch fuel num base

abbrev pub user_vprint_fmt : List ℕ → List Arg → UserBuf → Option UserBuf
user_vprint_fmt fmt ap = vprint_fmt user_put_ch false fmt ap

-- The number of characters that is returned, and the texts that PutStr was given.
unfoldable pub user_vprintf : (ℕ → ℕ) → List ℕ → List Arg → Option (ℕ × List (List ℕ))
user_vprintf garbage fmt ap =
    elim (user_vprint_fmt fmt ap (record { index = 0; count = 0; buf = garbage; out = [] })) [
      | none ↦ none
      | some b ↦ some (b.count, (flush b).out)
    ]
