-- ===== src/Interrupts/Segments/Switch.antt =====
-- The segments that InterruptInit sets up, and SwitchTSS on them (src/interrupt.c).
use storm_os.Base.{ℕ, ◌+◌, ◌-◌, ◌*◌, ◌^◌, ◌<◌, ◌≡◌, refl, arith}
use storm_os.Interrupts.Descriptors.{SegDesc, segdesc32, segdesc16, tss_size}
use storm_os.Interrupts.Segments.{
  Segments, task_descriptor, switch_tss, sta_xr, sta_w, sts_t32a, cpu_gdt_tss,
}
use storm_os.Interrupts.Segments.Decode.{base_of, limit_of}

-- A present application segment over the whole address space.
pub record IsFlat (type level : ℕ) (d : SegDesc) : Type 0 where
  pub base : base_of d ≡ 0
  pub limit : limit_of d ≡ 2 ^ 32 - 1
  pub kind : d.sd_type ≡ type
  pub application : d.sd_s ≡ 1
  pub level_of : d.sd_dpl ≡ level
  pub present : d.sd_p ≡ 1

-- A present system segment that holds the task state segment at an address.
pub record IsTask (address : ℕ) (d : SegDesc) : Type 0 where
  pub base : base_of d ≡ address
  pub limit : limit_of d ≡ tss_size - 1
  pub kind : d.sd_type ≡ sts_t32a
  pub system : d.sd_s ≡ 0
  pub level_of : d.sd_dpl ≡ 0
  pub present : d.sd_p ≡ 1

-- The five segments of the table, and the task register on the last one.
pub record IsSegments (address : ℕ) (s : Segments) : Type 0 where
  pub kernel_code : IsFlat sta_xr 0 (s.gdt_loc 1)
  pub kernel_data : IsFlat sta_w 0 (s.gdt_loc 2)
  pub user_code : IsFlat sta_xr 3 (s.gdt_loc 3)
  pub user_data : IsFlat sta_w 3 (s.gdt_loc 4)
  pub task : IsTask address (s.gdt_loc 5)
  pub loaded : s.task_register ≡ cpu_gdt_tss

pub task_descriptor-IsTask :
    (address : ℕ) → address < 2 ^ 32 → IsTask address (task_descriptor address)
unfolding task_descriptor segdesc16
task_descriptor-IsTask address h = record {
  base = omega arith;
  limit = refl;
  kind = refl;
  system = refl;
  level_of = refl;
  present = refl;
}

pub code-IsFlat :
    (level : ℕ) → level < 4 → IsFlat sta_xr level (segdesc32 sta_xr 0 0xffffffff level)
unfolding segdesc32
code-IsFlat level h = record {
  base = refl;
  limit = refl;
  kind = refl;
  application = refl;
  level_of = omega arith;
  present = refl;
}

pub data-IsFlat : (level : ℕ) → level < 4 → IsFlat sta_w level (segdesc32 sta_w 0 0xffffffff level)
unfolding segdesc32
data-IsFlat level h = record {
  base = refl;
  limit = refl;
  kind = refl;
  application = refl;
  level_of = omega arith;
  present = refl;
}

-- SwitchTSS keeps the code and data segments and the number of the task segment, which then holds
-- the task state segment of the process, where this lies in the address space.
pub switch_tss-IsSegments :
    (tss_loc pid address : ℕ) (s : Segments)
    → tss_loc + pid * tss_size < 2 ^ 32
    → IsSegments address s
    → IsSegments (tss_loc + pid * tss_size) (switch_tss tss_loc pid s)
unfolding switch_tss
switch_tss-IsSegments tss_loc pid address s h inv = record {
  kernel_code = inv.kernel_code;
  kernel_data = inv.kernel_data;
  user_code = inv.user_code;
  user_data = inv.user_data;
  task = task_descriptor-IsTask (tss_loc + pid * tss_size) h;
  loaded = refl;
}
