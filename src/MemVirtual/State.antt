-- ===== src/MemVirtual/State.antt =====
-- The state of src/mem_virtual.c, and its indices and flags.
use storm_os.Base.{update, ℕ, ◌*◌, ◌/◌, ◌%◌}
use storm_os.MemPhysical.State.{Memory}
use storm_os.MemVirtual.Ram.{Ram}

abbrev pub pte_p : ℕ
pte_p = 0x001

abbrev pub pte_w : ℕ
pte_w = 0x002

abbrev pub pte_u : ℕ
pte_u = 0x004

abbrev pub pte_g : ℕ
pte_g = 0x100

abbrev pub pte_pwu : ℕ
pte_pwu = 7

abbrev pub num_tables : ℕ
num_tables = 1024

abbrev pub mem_userlo_pdir : ℕ
mem_userlo_pdir = 256

abbrev pub mem_userhi_pdir : ℕ
mem_userhi_pdir = 960

-- VA_PDE_INDEX and VA_PTE_INDEX
abbrev pub pde_index : ℕ → ℕ
pde_index va = va / (4096 * 1024)

abbrev pub pte_index : ℕ → ℕ
pte_index va = va / 4096 % 1024

-- `entry & 0xfffff000`, of a 32-bit entry
abbrev pub page_base : ℕ → ℕ
page_base entry = entry / 4096 * 4096

pub record Vm : Type 0 where
  pub page_dir_entries : ℕ → ℕ → ℕ
  pub ram : Ram
  pub memory : Memory

abbrev pub set_dir : ℕ → ℕ → ℕ → Vm → Vm
set_dir proc i v s = record s {
  page_dir_entries = update s.page_dir_entries proc (update (s.page_dir_entries proc) i v);
}
