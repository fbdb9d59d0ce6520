-- ===== src/Interrupts/Segments.antt =====
-- The segment descriptors and the task state segments of src/interrupt.c: InterruptInit and
-- SwitchTSS. The addresses of tss0, tssLoc, kernelStack and procStacks are parameters. The inline
-- assembly that loads the tables and the segment registers is left out.
pub mod Decode
pub mod Init
pub mod Switch
use storm_os.Base.{leb, if◌then◌else◌, update, for_upto, ℕ, ◌+◌, ◌-◌, ◌*◌, ◌/◌, ◌^◌, Bool, true}
use storm_os.Interrupts.{GateDesc, Entry, interrupt_init_idt, cpu_gdt_kcode}
use storm_os.Interrupts.Descriptors.{
  SegDesc, segdesc_null, segdesc16, segdesc32, Tss, zero_tss, tss_size, iopm_offset,
}
use storm_os.MemPhysical.State.{page_size}
use storm_os.MemVirtual.Ram.{Ram}
use storm_os.Thread.State.{max_procs}
use storm_os.Pic.{Pic, pic_init, pic_enable}
use storm_os.MemVirtual.Copy.{mem_zero}

-- The globals of interrupt.c, and the task register that LTR sets.
pub record Segments : Type 0 where
  pub gdt_loc : ℕ → SegDesc
  pub tss0 : Tss
  pub tss_loc : ℕ → Tss
  pub idt : ℕ → GateDesc
  pub intr_inited : Bool
  pub task_register : ℕ

-- STA_X | STA_R, STA_W and STS_T32A
abbrev pub sta_xr : ℕ
sta_xr = 0xA

abbrev pub sta_w : ℕ
sta_w = 0x2

abbrev pub sts_t32a : ℕ
sts_t32a = 0x9

abbrev pub cpu_gdt_kdata : ℕ
cpu_gdt_kdata = 0x10

abbrev pub cpu_gdt_ucode : ℕ
cpu_gdt_ucode = 0x18

abbrev pub cpu_gdt_udata : ℕ
cpu_gdt_udata = 0x20

abbrev pub cpu_gdt_tss : ℕ
cpu_gdt_tss = 0x28

-- `gdtLoc[selector >> 3] = desc`
abbrev pub set_gdt : ℕ → SegDesc → Segments → Segments
set_gdt selector desc s = record s { gdt_loc = update s.gdt_loc (selector / 2 ^ 3) desc }

-- The descriptor of the task state segment at an address: `SEGDESC16(STS_T32A, ...)` with `sd_s = 0`.
unfoldable pub task_descriptor : ℕ → SegDesc
task_descriptor address = record (segdesc16 sts_t32a address (tss_size - 1) 0) { sd_s = 0 }

abbrev pub ltr : ℕ → Segments → Segments
ltr selector s = record s { task_register = selector }

unfoldable pub switch_tss : ℕ → ℕ → Segments → Segments
switch_tss tss_loc pid s =
    ltr cpu_gdt_tss (set_gdt cpu_gdt_tss (task_descriptor (tss_loc + pid * tss_size)) s)

abbrev pub init_gdt : Segments → Segments
init_gdt s = set_gdt cpu_gdt_udata (segdesc32 sta_w 0 0xffffffff 3) (
    set_gdt cpu_gdt_ucode (segdesc32 sta_xr 0 0xffffffff 3) (
      set_gdt cpu_gdt_kdata (segdesc32 sta_w 0 0xffffffff 0)
        (set_gdt cpu_gdt_kcode (segdesc32 sta_xr 0 0xffffffff 0) (set_gdt 0 segdesc_null s))))

-- The body of the loop over the processes, for one of them.
abbrev pub process_tss : ℕ → ℕ → Tss → Tss
process_tss proc_stacks pid t = record t {
  ts_esp0 = proc_stacks + pid * page_size + page_size;
  ts_ss0 = cpu_gdt_kdata;
  ts_iomb = iopm_offset;
  ts_iopm = update (for_upto 128 (λ i f. update f i 0) t.ts_iopm) 128 0xff;
}

abbrev pub interrupt_enable : ℕ → Pic → Pic
interrupt_enable irq s = let enabled = pic_enable irq s in if leb 16 irq then s else enabled

-- The segments up to `LTR(CPU_GDT_TSS)`.
unfoldable pub bootstrap_segments : ℕ → ℕ → Segments → Segments
bootstrap_segments tss0_at kernel_stack s =
    let flat = init_gdt s in
    let stack = record flat.tss0 { ts_esp0 = kernel_stack + page_size; ts_ss0 = cpu_gdt_kdata } in
    ltr cpu_gdt_tss (set_gdt cpu_gdt_tss (task_descriptor tss0_at) (record flat { tss0 = stack }))

-- The segments of the processes.
unfoldable pub process_segments : ℕ → Segments → Segments
process_segments proc_stacks s =
    let zeroed = for_upto max_procs (λ pid f. update f pid zero_tss) s.tss_loc in
    record s {
      tss_loc =
          for_upto max_procs (λ pid f. update f pid (process_tss proc_stacks pid (f pid))) zeroed;
    }

-- The three interrupts are the timer's, the keyboard's and that of the serial ports 1 and 3.
unfoldable pub interrupt_init :
    ℕ → ℕ → ℕ → (Entry → ℕ) → Segments → Ram → Pic → Segments × Ram × Pic
interrupt_init tss0_at kernel_stack proc_stacks address s ram pic =
    let ready = process_segments proc_stacks (bootstrap_segments tss0_at kernel_stack s) in
    if s.intr_inited then (s, ram, pic) else (
      record ready { idt = interrupt_init_idt address ready.idt; intr_inited = true },
      mem_zero proc_stacks (max_procs * page_size) ram,
      interrupt_enable 4 (interrupt_enable 1 (interrupt_enable 0 (pic_init pic))),
    )
