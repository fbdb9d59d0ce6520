-- ===== src/Boot.antt =====
-- KernelMain of src/kernel.c: the order in which the parts are started, what is printed meanwhile,
-- and the wait for Enter in front of the monitor. The addresses that the linker fixes are a
-- parameter.
pub mod Initialized
pub mod Enter
use storm_os.Base.{
  ◌==◌, if◌then◌else◌, length, has, ℕ, ◌-◌, Option, none, some, List, [], ◌∷◌, ◌++◌,
}
use storm_os.MemPhysical.State.{Memory, num_physical_pages}
use storm_os.MemPhysical.Init.{Smap, init_pages, physical_memory_init}
use storm_os.MemVirtual.State.{Vm}
use storm_os.MemVirtual.Init.{virtual_memory_init}
use storm_os.Thread.Schedule.{thread_init}
use storm_os.Interrupts.{Entry}
use storm_os.Interrupts.Segments.{interrupt_init}
use storm_os.Kernel.{Kernel}
use storm_os.Printf.{word32, word64}
use storm_os.Monitor.{
  Call, printf, printf_color, clear_screen, codes, prints, Monitor, monitor_start, monitor_keys,
}

-- tss0, kernelStack, procStacks, the entries of trap_main.S, pageDirIdentity and pageDirEntries
pub record Image : Type 0 where
  pub tss0 : ℕ
  pub kernel_stack : ℕ
  pub proc_stacks : ℕ
  pub entries : Entry → ℕ
  pub identity : ℕ
  pub dirs : ℕ

pub record KernInfo : Type 0 where
  pub code_start : ℕ
  pub code_end : ℕ
  pub data_start : ℕ
  pub data_end : ℕ

abbrev color_bgreen : ℕ
color_bgreen = 0b1010

-- What KernelMain prints first.
abbrev pub entered : KernInfo → List Call
entered info =
    clear_screen 0
    ∷ printf_color color_bgreen (codes "Entered kernel\n\n") []
    ∷ prints "Kernel footprint\n"
    ∷ printf (codes "Code section: %x - %x\n") (word32 info.code_start ∷ word32 info.code_end ∷ [])
    ∷ printf (codes "Data section: %x - %x\n\n")
        (word32 info.data_start ∷ word32 info.data_end ∷ [])
    ∷ []

-- What InterruptInit prints at its first call.
abbrev pub interrupt_calls : List Call
interrupt_calls =
    prints "Set interrupt descriptor table\n"
    ∷ prints "Enabled interrupts\n"
    ∷ printf_color color_bgreen (codes "Initialized interrupts\n\n") []
    ∷ []

-- The first loop of PhysicalMemoryInit. The length is a 64-bit argument.
abbrev pub map_calls : List Smap → List Call
map_calls [] = []
map_calls (p ∷ smap) =
    printf (codes "At %l\n") (word64 p.base_addr ∷ [])
    ∷ printf (codes "   length %x\n") (word64 p.length ∷ [])
    ∷ printf (codes "   type %u\n\n") (word32 p.type ∷ [])
    ∷ map_calls smap

abbrev pub memory_calls : List Smap → Memory → List Call
memory_calls smap m =
    let s = init_pages num_physical_pages smap m.pages in
    prints "-- E820 memory map --\n\n" ∷ map_calls smap
    ++ prints "---------------------\n\n"
      ∷ printf (codes "%d BIOS pages\n") (word32 s.bios_pages ∷ [])
      ∷ printf (codes "%d kernel pages\n") (word32 s.kern_pages ∷ [])
      ∷ printf (codes "%d user pages\n") (word32 s.user_pages ∷ [])
      ∷ printf_color color_bgreen (codes "Initialized physical memory\n\n") []
      ∷ []

abbrev pub paging_calls : List Call
paging_calls =
    prints "Loaded identity page directory\n"
    ∷ prints "Enabled paging\n"
    ∷ printf_color color_bgreen (codes "Initialized virtual memory\n\n") []
    ∷ []

-- The four initializations.
unfoldable pub initialize : Image → List Smap → Kernel → Kernel
initialize image smap k =
    let (segments, ram, pic) =
      interrupt_init image.tss0 image.kernel_stack image.proc_stacks image.entries k.segments
        k.vm.ram k.pic in
    let vm : Vm = record k.vm { ram = ram; memory = physical_memory_init smap k.vm.memory } in
    let (mapped, registers) = virtual_memory_init image.identity image.dirs vm k.registers in
    record k {
      segments = segments;
      pic = pic;
      vm = mapped;
      registers = registers;
      threads = thread_init k.threads;
    }

-- `while (1) { int ch = GetChar(); if (ch == '\n') { break; } }`: the keys behind the first newline.
unfoldable pub wait_for_enter : List ℕ → Option (List ℕ)
wait_for_enter [] = none
wait_for_enter (ch ∷ keys) =
    let rest = wait_for_enter keys in if ch == b'\n' then some keys else rest

-- The calls up to the wait for Enter. InterruptInit returns at once if it has run before.
abbrev pub start_calls : List Smap → KernInfo → Kernel → List Call
start_calls smap info k =
    entered info
    ++ (if k.segments.intr_inited then [] else interrupt_calls)
    ++ memory_calls smap k.vm.memory
    ++ paging_calls
    ++ printf_color color_bgreen (codes "Initialized threads\n\n") []
      ∷ prints "Kernel has been initialized. Press Enter to continue..."
      ∷ []

-- What KernelMain has called once it has read the keys, the state that the initializations left,
-- and the monitor if it is reached. Neither loop ends by itself.
unfoldable pub kernel_main :
    Image
    → List Smap
    → KernInfo
    → List ℕ
    → Monitor
    → Kernel
    → Option (List Call × Kernel × Option Monitor)
kernel_main image smap info keys monitor k =
    let (opened, banner) = monitor_start monitor in
    elim (wait_for_enter keys) [
      | none ↦ some (start_calls smap info k, initialize image smap k, none)
      | some later ↦ elim (monitor_keys later opened) [
        | none ↦ none
        | some (t, calls) ↦
            some (start_calls smap info k ++ banner ++ calls, initialize image smap k, some t)
      ]
    ]
