-- ===== src/MemVirtual/Init.antt =====
-- VirtualMemoryInit, EnablePaging and SetPageDirectory of src/mem_virtual.c. The addresses of the
-- arrays pageDirEntries and pageDirIdentity, which the linker fixes, are parameters.
pub mod Identity
pub mod Words
use storm_os.Base.{ltb, leb, ◌==◌, if◌then◌else◌, for_upto, ℕ, ◌+◌, ◌*◌, Bool, not, ◌&&◌}
use storm_os.MemPhysical.State.{page_size}
use storm_os.MemVirtual.Ram.{Ram, store32}
use storm_os.MemVirtual.State.{
  Vm, set_dir, pte_p, pte_w, pte_g, pte_pwu, num_tables, mem_userlo_pdir, mem_userhi_pdir,
}
use storm_os.MemVirtual.Tables.{remove_page_dir_entry}
use storm_os.Thread.State.{max_procs}
use Prim.Native.Nat.{bit_and, bit_or}

-- The control registers that the kernel writes.
pub record Registers : Type 0 where
  pub cr0 : ℕ
  pub cr3 : ℕ
  pub cr4 : ℕ

-- `i >= MEM_USERLO_PDIR && i < MEM_USERHI_PDIR`
abbrev pub is_user_dir : ℕ → Bool
is_user_dir i = leb mem_userlo_pdir i && ltb i mem_userhi_pdir

abbrev pub identity_perm : ℕ → ℕ
identity_perm i = if is_user_dir i then pte_p + pte_w else pte_p + pte_w + pte_g

-- CR0_PE | CR0_PG | CR0_AM | CR0_WP | CR0_NE | CR0_MP, and ~(CR0_EM | CR0_TS)
abbrev pub cr0_on : ℕ
cr0_on = 0x80050023

abbrev pub cr0_keep : ℕ
cr0_keep = 0xFFFFFFF3

pub enable_paging : Registers → Registers
enable_paging r = record r { cr4 = bit_or r.cr4 0x80; cr0 = bit_and (bit_or r.cr0 cr0_on) cr0_keep }

-- `dirs` is the address of pageDirEntries.
unfoldable pub set_page_directory : ℕ → ℕ → Registers → Registers
set_page_directory dirs proc_index r = record r { cr3 = dirs + proc_index * page_size }

-- `identity` is the address of pageDirIdentity.
module _ (identity : ℕ) where
  -- `pageDirIdentity[i][j] = v`
  abbrev pub set_identity : ℕ → ℕ → ℕ → Ram → Ram
  set_identity i j v r = store32 r (identity + (i * num_tables + j) * 4) v

  -- The entries of table `i`.
  pub init_table : ℕ → Ram → Ram
  init_table i r =
      for_upto num_tables
        (λ j r. set_identity i j ((i * num_tables + j) * page_size + identity_perm i) r) r

  pub init_tables : Ram → Ram
  init_tables r = for_upto num_tables init_table r

  pub set_page_dir_entry_identity : ℕ → ℕ → Vm → Vm
  set_page_dir_entry_identity proc_index pde_index =
      set_dir proc_index pde_index (identity + pde_index * page_size + pte_pwu)

  pub init_entry : ℕ → ℕ → Vm → Vm
  init_entry i j s =
      if is_user_dir j && not (i == 0)
      then remove_page_dir_entry i j s
      else set_page_dir_entry_identity i j s

  -- The directory of process `i`.
  pub init_directory : ℕ → Vm → Vm
  init_directory i s = for_upto num_tables (λ j s. init_entry i j s) s

  pub init_directories : Vm → Vm
  init_directories s = for_upto max_procs init_directory s

  pub virtual_memory_init : ℕ → Vm → Registers → Vm × Registers
  virtual_memory_init dirs s r = (
    init_directories (record s { ram = init_tables s.ram }),
    enable_paging (set_page_directory dirs 0 r),
  )
