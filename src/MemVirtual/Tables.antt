-- ===== src/MemVirtual/Tables.antt =====
-- The page table operations of src/mem_virtual.c.
pub mod AllocPage
pub mod Entries
pub mod Install
pub mod Invariant
pub mod MapPage
pub mod Mapping
use storm_os.Base.{◌==◌, if◌then◌else◌, for_upto, ℕ, ◌+◌, ◌*◌, ◌/◌, ◌%◌, Bool, true, false}
use storm_os.MemPhysical.State.{page_size}
use storm_os.MemPhysical.Containers.{container_alloc, container_free}
use storm_os.MemVirtual.Ram.{word, load32, store32}
use storm_os.MemVirtual.State.{Vm, set_dir, pte_pwu, num_tables, pde_index, pte_index, page_base}

pub set_page_dir_entry : ℕ → ℕ → ℕ → Vm → Vm
set_page_dir_entry proc_index pde_index page =
    set_dir proc_index pde_index ((page * page_size + pte_pwu) % word)

unfoldable pub remove_page_dir_entry : ℕ → ℕ → Vm → Vm
remove_page_dir_entry proc_index pde_index = set_dir proc_index pde_index 0

-- The address of an entry of a page table.
abbrev pub entry_addr : ℕ → ℕ → ℕ → Vm → ℕ
entry_addr proc_index pde_index pte_index s =
    (page_base (s.page_dir_entries proc_index pde_index) + pte_index * 4) % word

unfoldable pub get_page_table_entry : ℕ → ℕ → ℕ → Vm → ℕ
get_page_table_entry proc_index pde_index pte_index s =
    load32 s.ram (entry_addr proc_index pde_index pte_index s)

-- `*((uint32*)addr) = v`, at the address of the entry
abbrev pub store_entry : ℕ → ℕ → ℕ → ℕ → Vm → Vm
store_entry proc_index pde_index pte_index v s = record s {
  ram = store32 s.ram (entry_addr proc_index pde_index pte_index s) v;
}

pub set_page_table_entry : ℕ → ℕ → ℕ → ℕ → ℕ → Vm → Vm
set_page_table_entry proc_index pde_index pte_index page perm =
    store_entry proc_index pde_index pte_index ((page * page_size + perm) % word)

pub remove_page_table_entry : ℕ → ℕ → ℕ → Vm → Vm
remove_page_table_entry proc_index pde_index pte_index =
    store_entry proc_index pde_index pte_index 0

-- The loop that clears the entries of a page table, `n` of them.
pub clear_entries : ℕ → ℕ → ℕ → Vm → Vm
clear_entries n proc_index pde_index s =
    for_upto n (λ i. remove_page_table_entry proc_index pde_index i) s

-- The page of the new table, or 0.
pub alloc_page_table : ℕ → ℕ → Vm → ℕ × Vm
alloc_page_table proc_index va s =
    let (page, memory) = container_alloc proc_index s.memory in
    let charged = record s { memory = memory } in
    if page == 0 then (page, charged) else (
      page,
      clear_entries num_tables proc_index (pde_index va)
          (set_page_dir_entry proc_index (pde_index va) page charged),
    )

pub free_page_table : ℕ → ℕ → Vm → Vm
free_page_table proc_index va s =
    let pde = s.page_dir_entries proc_index (pde_index va) in
    let removed = remove_page_dir_entry proc_index (pde_index va) s in
    record removed { memory = container_free proc_index (pde / page_size) removed.memory }

-- What MapPage and AllocPage return, and what they leave in `*err`.
pub record Mapped : Type 0 where
  pub result : ℕ
  pub err : Bool
  pub state : Vm

pub map_page : ℕ → ℕ → ℕ → ℕ → Vm → Mapped
map_page proc_index va page perm s =
    let pde = s.page_dir_entries proc_index (pde_index va) in
    let set_entry = set_page_table_entry proc_index (pde_index va) (pte_index va) page perm in
    let (table, allocated) = alloc_page_table proc_index va s in
    if pde == 0
    then (if table == 0
        then record { result = 0; err = true; state = allocated }
        else record { result = table; err = false; state = set_entry allocated })
    else record { result = pde / page_size; err = false; state = set_entry s }

unfoldable pub get_page_table_entry_by_va : ℕ → ℕ → Vm → ℕ
get_page_table_entry_by_va proc_index va s =
    let pde = s.page_dir_entries proc_index (pde_index va) in
    if pde == 0 then 0 else get_page_table_entry proc_index (pde_index va) (pte_index va) s

-- The entry that was there, and the state without it.
pub unmap_page : ℕ → ℕ → Vm → ℕ × Vm
unmap_page proc_index va s =
    let pte = get_page_table_entry_by_va proc_index va s in
    (
      pte,
      if pte == 0 then s else remove_page_table_entry proc_index (pde_index va) (pte_index va) s,
    )

unfoldable pub alloc_page : ℕ → ℕ → ℕ → Vm → Mapped
alloc_page proc_index va perm s =
    let (page, memory) = container_alloc proc_index s.memory in
    let charged = record s { memory = memory } in
    let mapped = map_page proc_index va page perm charged in
    if page == 0
    then record { result = 0; err = true; state = charged }
    else if mapped.err
    then record { result = 0; err = true; state = mapped.state }
    else record { result = mapped.result; err = false; state = mapped.state }
