-- ===== src/Interrupts/Descriptors.antt =====
-- SegDesc with its macros and TSS of src/interrupt.c.
use storm_os.Base.{ℕ, ◌/◌, ◌%◌, ◌^◌}

pub record SegDesc : Type 0 where
  pub sd_lim_15_0 : ℕ
  pub sd_base_15_0 : ℕ
  pub sd_base_23_16 : ℕ
  pub sd_type : ℕ
  pub sd_s : ℕ
  pub sd_dpl : ℕ
  pub sd_p : ℕ
  pub sd_lim_19_16 : ℕ
  pub sd_avl : ℕ
  pub sd_rsv1 : ℕ
  pub sd_db : ℕ
  pub sd_g : ℕ
  pub sd_base_31_24 : ℕ

abbrev pub segdesc_null : SegDesc
segdesc_null = record {
  sd_lim_15_0 = 0;
  sd_base_15_0 = 0;
  sd_base_23_16 = 0;
  sd_type = 0;
  sd_s = 0;
  sd_dpl = 0;
  sd_p = 0;
  sd_lim_19_16 = 0;
  sd_avl = 0;
  sd_rsv1 = 0;
  sd_db = 0;
  sd_g = 0;
  sd_base_31_24 = 0;
}

-- A value that is too large for its bit field loses its high bits.
unfoldable pub segdesc32 : ℕ → ℕ → ℕ → ℕ → SegDesc
segdesc32 type base lim dpl = record {
  sd_lim_15_0 = lim / 2 ^ 12 % 2 ^ 16;
  sd_base_15_0 = base % 2 ^ 16;
  sd_base_23_16 = base / 2 ^ 16 % 2 ^ 8;
  sd_type = type % 2 ^ 4;
  sd_s = 1;
  sd_dpl = dpl % 2 ^ 2;
  sd_p = 1;
  sd_lim_19_16 = lim / 2 ^ 28 % 2 ^ 4;
  sd_avl = 0;
  sd_rsv1 = 0;
  sd_db = 1;
  sd_g = 1;
  sd_base_31_24 = base / 2 ^ 24 % 2 ^ 8;
}

unfoldable pub segdesc16 : ℕ → ℕ → ℕ → ℕ → SegDesc
segdesc16 type base lim dpl = record {
  sd_lim_15_0 = lim % 2 ^ 16;
  sd_base_15_0 = base % 2 ^ 16;
  sd_base_23_16 = base / 2 ^ 16 % 2 ^ 8;
  sd_type = type % 2 ^ 4;
  sd_s = 1;
  sd_dpl = dpl % 2 ^ 2;
  sd_p = 1;
  sd_lim_19_16 = lim / 2 ^ 16 % 2 ^ 4;
  sd_avl = 0;
  sd_rsv1 = 0;
  sd_db = 1;
  sd_g = 0;
  sd_base_31_24 = base / 2 ^ 24 % 2 ^ 8;
}

-- struct TSS without its paddings.
pub record Tss : Type 0 where
  pub ts_link : ℕ
  pub ts_esp0 : ℕ
  pub ts_ss0 : ℕ
  pub ts_esp1 : ℕ
  pub ts_ss1 : ℕ
  pub ts_esp2 : ℕ
  pub ts_ss2 : ℕ
  pub ts_cr3 : ℕ
  pub ts_eip : ℕ
  pub ts_eflags : ℕ
  pub ts_eax : ℕ
  pub ts_ecx : ℕ
  pub ts_edx : ℕ
  pub ts_ebx : ℕ
  pub ts_esp : ℕ
  pub ts_ebp : ℕ
  pub ts_esi : ℕ
  pub ts_edi : ℕ
  pub ts_es : ℕ
  pub ts_cs : ℕ
  pub ts_ss : ℕ
  pub ts_ds : ℕ
  pub ts_fs : ℕ
  pub ts_gs : ℕ
  pub ts_ldt : ℕ
  pub ts_trap : ℕ
  pub ts_iomb : ℕ
  pub ts_iopm : ℕ → ℕ

-- What MemZero leaves of a task state segment.
abbrev pub zero_tss : Tss
zero_tss = record {
  ts_link = 0;
  ts_esp0 = 0;
  ts_ss0 = 0;
  ts_esp1 = 0;
  ts_ss1 = 0;
  ts_esp2 = 0;
  ts_ss2 = 0;
  ts_cr3 = 0;
  ts_eip = 0;
  ts_eflags = 0;
  ts_eax = 0;
  ts_ecx = 0;
  ts_edx = 0;
  ts_ebx = 0;
  ts_esp = 0;
  ts_ebp = 0;
  ts_esi = 0;
  ts_edi = 0;
  ts_es = 0;
  ts_cs = 0;
  ts_ss = 0;
  ts_ds = 0;
  ts_fs = 0;
  ts_gs = 0;
  ts_ldt = 0;
  ts_trap = 0;
  ts_iomb = 0;
  ts_iopm = λ i. 0;
}

-- sizeof(struct TSS), and the offset of ts_iopm in it
abbrev pub tss_size : ℕ
tss_size = 236

abbrev pub iopm_offset : ℕ
iopm_offset = 104
