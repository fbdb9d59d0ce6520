-- ===== src/MemPhysical/Init.antt =====
-- PhysicalMemoryInit of src/mem_physical.c, less what it prints of the map.
pub mod Count
pub mod Map
use storm_os.Base.{
  ltb, leb, ◌==◌, if◌then◌else◌, length, update, for_upto, ℕ, ◌+◌, ◌*◌, ◌%◌, Bool, true, false,
  ◌&&◌, List, [], ◌∷◌,
}
use storm_os.MemPhysical.State.{
  Memory, PageInfo, bios, kernel, user, page_size, num_physical_pages, mem_userlo_pi, mem_userhi_pi,
}
use storm_os.MemPhysical.Containers.{word, container_init}

-- An entry of the E820 map. The map is the list of entries before the one that is all zero.
pub record Smap : Type 0 where
  pub base_addr : ℕ
  pub length : ℕ
  pub type : ℕ

-- The test of the loop over the map: the page lies in the entry's range, and may be used.
unfoldable pub frees_page : ℕ → Smap → Bool
frees_page page p =
    let pg_start = page * page_size % word in
    let pg_end = (pg_start + page_size) % word in
    let start = p.base_addr % word in
    let end = (start + p.length % word) % word in
    leb start pg_start && leb pg_end end && p.type == 1

unfoldable pub page_reserved : List Smap → ℕ → Bool
unfolding frees_page
page_reserved [] page = true
page_reserved (p ∷ smap) page = if frees_page page p then false else page_reserved smap page

pub in_user_range : ℕ → Bool
in_user_range page = leb mem_userlo_pi page && ltb page mem_userhi_pi

-- the table, and the three counters
pub record Init : Type 0 where
  pub table : ℕ → PageInfo
  pub bios_pages : ℕ
  pub kern_pages : ℕ
  pub user_pages : ℕ

-- One round of the loop over the pages.
pub init_page : List Smap → ℕ → Init → Init
init_page smap page s =
    if page_reserved smap page
    then record s {
      table = update s.table page (record { allocated = true; perm = bios });
      bios_pages = s.bios_pages + 1;
    }
    else if in_user_range page
    then record s {
      table = update s.table page (record { allocated = false; perm = user });
      user_pages = s.user_pages + 1;
    }
    else record s {
      table = update s.table page (record { allocated = false; perm = kernel });
      kern_pages = s.kern_pages + 1;
    }

pub init_pages : ℕ → List Smap → (ℕ → PageInfo) → Init
init_pages rounds smap table =
    for_upto rounds (init_page smap)
      (record { table = table; bios_pages = 0; kern_pages = 0; user_pages = 0 })

unfoldable pub physical_memory_init : List Smap → Memory → Memory
physical_memory_init smap m =
    let s = init_pages num_physical_pages smap m.pages in
    container_init s.user_pages (record m { pages = s.table })
