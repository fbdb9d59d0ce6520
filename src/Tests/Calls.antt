-- ===== src/Tests/Calls.antt =====
-- System calls of a process whose page holds a short text, and its traps.
use storm_os.Base.{
  ◌==◌, if◌then◌else◌, All, update, ℕ, zero, suc, ◌+◌, ◌%◌, ◌<◌, ◌≡◌, refl, ◌≢◌, inr, false, ◌&&◌,
  some, [], ◌∷◌, arith, pos,
}
use storm_os.MemPhysical.State.{page_size}
use storm_os.MemVirtual.Ram.{Ram, load32}
use storm_os.MemVirtual.State.{Vm, pde_index, pte_index}
use storm_os.MemVirtual.Tables.{get_page_table_entry_by_va, get_page_table_entry, entry_addr}
use storm_os.MemVirtual.Copy.{pt_copy_in}
use storm_os.MemVirtual.Copy.Bytes.{Outside, Copied, physical}
use storm_os.MemVirtual.Copy.Contents.{pt_copy_in-Copied}
use storm_os.Pic.{boot_pic}
use storm_os.Interrupts.{set_gate}
use storm_os.Interrupts.Descriptors.{segdesc_null, zero_tss}
use storm_os.Interrupts.Segments.{Segments, bootstrap_segments}
use storm_os.Kernel.{TrapFrame, Kernel, done, undefined}
use storm_os.Syscalls.{sys_put_str, syscall_dispatch}
use storm_os.Syscalls.Range.{user_bytes, UserRange, UserRange-Source}
use storm_os.Syscalls.Errors.{text, starts_below, syscall_dispatch_refused}
use storm_os.Traps.{handle_trap}
use storm_os.MemVirtual.Init.{set_page_directory}
use storm_os.Syscalls.Format.{sys_put_str_conversion}
use storm_os.Tests.PageTables.{empty}
use storm_os.User.{call_get_char, got_char}
use storm_os.User.Keys.{call_get_char_lem}
use storm_os.Console.{Console}
use storm_os.Console.Ring.{Holds}
use storm_os.Console.Queue.{typed}
use storm_os.Keyboard.{
  Keyboard, keyboard_get_data, key_pressed, charcode, swap_case, press, release,
}
use storm_os.Keyboard.Tables.{shiftcode, togglecode, normalmap}
use storm_os.Tests.Threads.{three_ready}

abbrev pub frame : ℕ → ℕ → ℕ → ℕ → TrapFrame
frame eax ebx ecx edx = record {
  edi = 0;
  esi = 0;
  ebp = 0;
  oesp = 0;
  ebx = ebx;
  edx = edx;
  ecx = ecx;
  eax = eax;
  es = 0x23;
  ds = 0x23;
  trapno = 48;
  err = 0;
  eip = 0x40001000;
  cs = 0x1B;
  eflags = 0x200;
  esp = 0xEFFFFF00;
  ss = 0x23;
}

-- Process 1 has the table at 0x48000000, which maps its first page to the one at 0x50000000.
abbrev pub memory_with : ℕ → ℕ → Ram
memory_with first second a =
    if a == 0x48000000
    then 0x07
    else if a == 0x48000003
    then 0x50
    else if a == 0x50000000
    then first
    else if a == 0x50000001
    then second
    else 0

abbrev pub mapped : ℕ → ℕ → Vm
mapped first second = record empty {
  page_dir_entries = λ p i. if (p == 1) && (i == 256) then 0x48000007 else 0;
  ram = memory_with first second;
}

two : (P : ℕ → Type 0) → P 0 → P 1 → (i : ℕ) → i < 2 → P i
two P a b zero h = a
two P a b (suc zero) h = b
two P a b (suc (suc i)) h = absurd (omega (arith, h))

mapped-UserRange : (first second : ℕ) → UserRange (mapped first second) 1 0x40000000 0x101000 2
unfolding get_page_table_entry_by_va get_page_table_entry load32
mapped-UserRange first second = record {
  present =
      two (λ i. get_page_table_entry_by_va 1 (0x40000000 + i) (mapped first second) % 2 ≡ 1) refl
        refl;
  entries = λ i k hi hk.
      two
        (λ i.
          Outside
            (entry_addr 1 (pde_index (0x40000000 + i)) (pte_index (0x40000000 + i))
                (mapped first second)
              + k)
            0x101000 page_size)
        (inr (omega arith)) (inr (omega arith)) i hi;
  bytes =
      two (λ i. Outside (physical (mapped first second) 1 (0x40000000 + i)) 0x101000 page_size)
        (inr (omega arith)) (inr (omega arith));
}

pt_copy_in-Copied_example :
    (t : Vm) × (pt_copy_in 1 0x40000000 0x101000 2 (mapped b'H' b'i') ≡ some (2, t))
    × Copied (mapped b'H' b'i') 1 0x40000000 0x101000 2 t
pt_copy_in-Copied_example =
    pt_copy_in-Copied 1 0x40000000 0x101000 2 (mapped b'H' b'i') (omega arith) (omega arith)
      (omega arith)
      (UserRange-Source (mapped b'H' b'i') 1 0x40000000 0x101000 2 2 (omega arith) (omega arith)
        (mapped-UserRange b'H' b'i'))

abbrev pub no_segments : Segments
no_segments = record {
  gdt_loc = λ i. segdesc_null;
  tss0 = zero_tss;
  tss_loc = λ i. zero_tss;
  idt = λ i. set_gate false 0 0 0;
  intr_inited = false;
  task_register = 0;
}

abbrev pub quiet : Kernel
quiet = record {
  threads = three_ready;
  vm = mapped b'H' b'i';
  registers = record { cr0 = 0; cr3 = 0; cr4 = 0 };
  user_contexts = λ i. frame 0 0 0 0;
  pic = boot_pic;
  segments = bootstrap_segments 0x120000 0x130000 no_segments;
  keyboard = record { flags = λ f. false; input = []; writes = []; texts = [] };
  console = record { buf = λ i. 0; read_pos = 0; write_pos = 0; row = 0; col = 0; calls = [] };
  ports = [];
}

-- The key `a` was pressed and released.
abbrev keyed : Kernel
keyed = record quiet { keyboard = record quiet.keyboard { input = 0x1E ∷ 0x9E ∷ [] } }

call_get_char_example :
    let call = call_get_char (frame 0 0 0 0) in
    (answer : TrapFrame) × (left : Keyboard) × (console : Console) × (handle_trap 0x300000 0
        0x100000
        (λ i. 0)
        call
        keyed
      ≡ done (
        answer,
        record keyed {
          user_contexts = update quiet.user_contexts 1 call;
          registers = set_page_directory 0x300000 1 quiet.registers;
          keyboard = left;
          console = console;
        },
      ))
    × (got_char answer ≡ pos 0x61)
    × (left.input ≡ [])
    × Holds console []
unfolding typed keyboard_get_data key_pressed charcode swap_case press release shiftcode togglecode
    normalmap
call_get_char_example =
    call_get_char_lem 0x300000 0 0x100000 (λ i. 0) (frame 0 0 0 0) keyed [] (omega arith)
      (omega arith) (omega arith) refl tt

abbrev asks_for_number : Kernel
asks_for_number = record quiet { vm = mapped b'%' b'd' }

percent_bytes : user_bytes (mapped b'%' b'd') 1 0x40000000 2 ≡ b'%' ∷ b'd' ∷ []
unfolding user_bytes get_page_table_entry_by_va get_page_table_entry load32
percent_bytes = refl

percent_nonzero : All (λ x. x ≢ 0) (user_bytes (mapped b'%' b'd') 1 0x40000000 2)
percent_nonzero = rw (percent_bytes) (omega arith, (omega arith, tt))

sys_put_str_conversion_example :
    sys_put_str 0x100000 (λ i. 0) (frame 0 0x40000000 2 15) asks_for_number ≡ undefined
sys_put_str_conversion_example =
    sys_put_str_conversion 0x100000 (λ i. 0) (frame 0 0x40000000 2 15) asks_for_number [] [] b'd'
      (omega arith) (omega arith) (omega arith) (omega arith) (mapped-UserRange b'%' b'd')
      percent_nonzero percent_bytes tt refl

syscall_dispatch_refused_example :
    syscall_dispatch 0x100000 (λ i. 0) (frame 0 0x3FFFFFFF 2 15) quiet
    ≡ done (frame 4 0x3FFFFFFF 2 15, quiet)
syscall_dispatch_refused_example =
    syscall_dispatch_refused 0x100000 (λ i. 0) (frame 0 0x3FFFFFFF 2 15) quiet 4
      (starts_below (text refl) (omega arith))
