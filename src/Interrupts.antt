-- ===== src/Interrupts.antt =====
-- The interrupt descriptor table of src/interrupt.c: SETGATE and InterruptInitIDT. The addresses of
-- the entries in trap_main.S are a parameter.
pub mod Descriptors
pub mod Gates
pub mod Handlers
pub mod Segments
use storm_os.Base.{if◌then◌else◌, update, for_upto, ℕ, ◌/◌, ◌%◌, ◌^◌, Bool, false, List, [], ◌∷◌}

abbrev pub cpu_gdt_kcode : ℕ
cpu_gdt_kcode = 0x08

abbrev pub sts_ig32 : ℕ
sts_ig32 = 0xE

abbrev pub sts_tg32 : ℕ
sts_tg32 = 0xF

-- The entries of trap_main.S: Xdivide and so on, Xdefault for the last.
pub data Entry : Type 0 where
  divide debug nmi brkpt oflow bound illop device dblflt tss segnp stack gpflt pgflt fperr align
        mchk irq_timer irq_kbd irq_slave irq_serial2 irq_serial1 irq_lpt irq_floppy irq_spurious
        irq_rtc irq9 irq10 irq11 irq_mouse irq_coproc irq_ide1 irq_ide2 syscall default_entry :
      Entry

pub record GateDesc : Type 0 where
  pub gd_off_15_0 : ℕ
  pub gd_ss : ℕ
  pub gd_args : ℕ
  pub gd_rsv1 : ℕ
  pub gd_type : ℕ
  pub gd_s : ℕ
  pub gd_dpl : ℕ
  pub gd_p : ℕ
  pub gd_off_31_16 : ℕ

unfoldable pub set_gate : Bool → ℕ → ℕ → ℕ → GateDesc
set_gate is_trap sel off dpl = record {
  gd_off_15_0 = off % 2 ^ 16;
  gd_ss = sel;
  gd_args = 0;
  gd_rsv1 = 0;
  gd_type = if is_trap then sts_tg32 else sts_ig32;
  gd_s = 0;
  gd_dpl = dpl;
  gd_p = 1;
  gd_off_31_16 = off / 2 ^ 16;
}

-- The calls of SETGATE behind the loop: the vector, the entry and the privilege level.
unfoldable pub gates : List (ℕ × Entry × ℕ)
gates =
    (0, divide, 0)
    ∷ (1, debug, 0)
    ∷ (2, nmi, 0)
    ∷ (3, brkpt, 3)
    ∷ (4, oflow, 3)
    ∷ (5, bound, 0)
    ∷ (6, illop, 0)
    ∷ (7, device, 0)
    ∷ (8, dblflt, 0)
    ∷ (10, tss, 0)
    ∷ (11, segnp, 0)
    ∷ (12, stack, 0)
    ∷ (13, gpflt, 0)
    ∷ (14, pgflt, 0)
    ∷ (16, fperr, 0)
    ∷ (17, align, 0)
    ∷ (18, mchk, 0)
    ∷ (32, irq_timer, 0)
    ∷ (33, irq_kbd, 0)
    ∷ (34, irq_slave, 0)
    ∷ (35, irq_serial2, 0)
    ∷ (36, irq_serial1, 0)
    ∷ (37, irq_lpt, 0)
    ∷ (38, irq_floppy, 0)
    ∷ (39, irq_spurious, 0)
    ∷ (40, irq_rtc, 0)
    ∷ (41, irq9, 0)
    ∷ (42, irq10, 0)
    ∷ (43, irq11, 0)
    ∷ (44, irq_mouse, 0)
    ∷ (45, irq_coproc, 0)
    ∷ (46, irq_ide1, 0)
    ∷ (47, irq_ide2, 0)
    ∷ (48, syscall, 3)
    ∷ (254, default_entry, 0)
    ∷ []

module _ (address : Entry → ℕ) where
  unfoldable pub set_gates : List (ℕ × Entry × ℕ) → (ℕ → GateDesc) → ℕ → GateDesc
  set_gates [] idt = idt
  set_gates ((vector, entry, dpl) ∷ later) idt =
      set_gates later (update idt vector (set_gate false cpu_gdt_kcode (address entry) dpl))

  pub interrupt_init_idt : (ℕ → GateDesc) → ℕ → GateDesc
  interrupt_init_idt idt =
      let default_gate = set_gate false cpu_gdt_kcode (address default_entry) 0 in
      set_gates gates (for_upto 256 (λ i f. update f i default_gate) idt)
