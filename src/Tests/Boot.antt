-- ===== src/Tests/Boot.antt =====
-- The start of the kernel and of a process, and a panic, at concrete states.
use storm_os.Base.{
  ◌==◌, if◌then◌else◌, ℕ, ◌^◌, ◌<◌, ◌≡◌, refl, false, none, some, [], ◌∷◌, ◌++◌, arith,
}
use storm_os.MemPhysical.Containers.{container_split}
use storm_os.MemVirtual.Ram.{Ram, load32}
use storm_os.Interrupts.Descriptors.{segdesc16, segdesc32}
use storm_os.Interrupts.Segments.{interrupt_init}
use storm_os.Interrupts.Segments.Decode.{base_of, limit_of, segdesc-decode}
use storm_os.Interrupts.Segments.Init.{IsReady, interrupt_init-IsReady}
use storm_os.Interrupts.{Entry}
use storm_os.Pic.{boot_pic}
use storm_os.Kernel.{Kernel}
use storm_os.MemVirtual.State.{Vm}
use storm_os.Monitor.{Monitor, monitor_start, codes, printf, printf_color}
use storm_os.Monitor.Editor.{Next, echoes, reply}
use storm_os.Printf.{string, word32}
use storm_os.Boot.{Image, KernInfo, initialize, start_calls, kernel_main}
use storm_os.Boot.Initialized.{IsFresh, IsInitialized, initialize-IsInitialized}
use storm_os.Boot.Enter.{kernel_main_lem}
use storm_os.Debug.{debug_panic}
use storm_os.Debug.Frames.{Chain, from_call, debug_panic_lem}
use storm_os.Tests.Frames.{booted, unused}
use storm_os.Tests.PageTables.{empty}
use storm_os.Tests.Processes.{idle, executable}
use storm_os.Tests.Calls.{quiet, no_segments}

segdesc-decode_example :
    (0xEB < 2 ^ 20
      → (base_of (segdesc16 9 0x00123456 0xEB 0) ≡ 0x00123456)
        × (limit_of (segdesc16 9 0x00123456 0xEB 0) ≡ 0xEB))
    × (base_of (segdesc32 9 0x00123456 0xEB 0) ≡ 0x00123456)
    × (limit_of (segdesc32 9 0x00123456 0xEB 0) ≡ 4095)
segdesc-decode_example = segdesc-decode 9 0x00123456 0xEB 0 (omega arith) (omega arith)

abbrev entries : Entry → ℕ
entries e = 0x00101234

interrupt_init-IsReady_example :
    IsReady 0x120000 0x140000 0xFFFB entries
      (λ a. 7)
      (interrupt_init 0x120000 0x130000 0x140000 entries no_segments (λ a. 7) boot_pic)
interrupt_init-IsReady_example =
    interrupt_init-IsReady 0x120000 0x130000 0x140000 entries no_segments (λ a. 7) boot_pic refl
      (omega arith)

-- The executable, with a program header that is not to be loaded.
abbrev loadable : Kernel
loadable = record idle {
  vm = record idle.vm { ram = λ a. if a == 0x10034 then 4 else executable a };
}

abbrev child_vm : Vm
child_vm = record loadable.vm { memory = (container_split 0 40 booted).1 }

abbrev image : Image
image = record {
  tss0 = 0x120000;
  kernel_stack = 0x130000;
  proc_stacks = 0x140000;
  entries = entries;
  identity = 0x200000;
  dirs = 0x300000;
}

-- The globals as the linker leaves them.
abbrev loaded : Kernel
loaded = record quiet {
  segments = no_segments;
  vm = record empty { memory = record booted { containers = λ id. unused } };
}

loaded-IsFresh : IsFresh loaded
loaded-IsFresh = record {
  first = refl;
  no_freed = refl;
  no_alloc = refl;
  no_container = λ id. refl;
}

initialize-IsInitialized_example : IsInitialized image 0xFFFB (initialize image [] loaded)
initialize-IsInitialized_example =
    initialize-IsInitialized image [] loaded loaded-IsFresh (omega arith) (omega arith)
      (omega arith)

abbrev info : KernInfo
info = record { code_start = 0x10000; code_end = 0x1A000; data_start = 0x1A000; data_end = 0x90000 }

abbrev blank : Monitor
blank = record { index = 0; buf = λ i. 0; left = false }

-- A space, and "help" behind Enter.
kernel_main_example :
    (ready : Kernel) × IsInitialized image 0xFFFB ready
    × (kernel_main image [] info (b' ' ∷ []) blank loaded
        ≡ some (start_calls [] info loaded, ready, none))
    × (t : Monitor) × (kernel_main image [] info
          (b' ' ∷ b'\n' ∷ b'h' ∷ b'e' ∷ b'l' ∷ b'p' ∷ b'\n' ∷ [])
          blank
          loaded
        ≡ some (
          start_calls [] info loaded
              ++ (monitor_start blank).1
              ++ (echoes (codes "help") ++ reply (codes "help")),
          ready,
          some t,
        ))
    × Next t (codes "help")
kernel_main_example =
    kernel_main_lem image [] info blank loaded (b' ' ∷ []) (b'h' ∷ b'e' ∷ b'l' ∷ b'p' ∷ [])
      loaded-IsFresh (omega arith) (omega arith) (omega arith) refl (omega arith, tt)
      (omega arith, (omega arith, (omega arith, (omega arith, tt))))

-- Two frames, at 0x1000 and at 0x1010.
abbrev stack : Ram
stack a =
    if a == 0x1000
    then 0x10
    else if a == 0x1001
    then 0x10
    else if a == 0x1005
    then 0x80
    else if a == 0x1015
    then 0x90
    else 0

stack-Chain : Chain stack 0x1000 (0x8000 ∷ 0x9000 ∷ [])
unfolding load32
stack-Chain = (omega arith, refl, omega arith, (omega arith, refl, omega arith, refl))

debug_panic_example :
    debug_panic (codes "thread.c") 12 (codes "lost") [] 0x1000 stack
    ≡ printf (codes "[P] %s:%d: ") (string (some (codes "thread.c")) ∷ word32 12 ∷ [])
      ∷ printf_color 0b1111 (codes "lost") []
      ∷ from_call 0x8000
      ∷ from_call 0x9000
      ∷ printf_color 0b1100 (codes "KERNEL PANIC !!!\n") []
      ∷ []
debug_panic_example =
    debug_panic_lem (codes "thread.c") (codes "lost") 12 0x1000 [] stack (0x8000 ∷ 0x9000 ∷ [])
      stack-Chain
