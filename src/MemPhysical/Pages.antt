-- ===== src/MemPhysical/Pages.antt =====
-- PhysicalPageAlloc and PhysicalPageFree of src/mem_physical.c.
pub mod Scan
pub mod Alloc
pub mod Recycled
use storm_os.Base.{if◌then◌else◌, ℕ, zero, suc, ◌+◌, ◌-◌, true, false, Option, none, some}
use storm_os.MemPhysical.State.{
  Memory, PageInfo, available, set_allocated, mem_userlo_pi, mem_userhi_pi,
}

-- The loops of the function: the first available page of the `rounds` pages from `page` on.
unfoldable pub scan : (ℕ → PageInfo) → ℕ → ℕ → Option ℕ
scan pages zero page = none
scan pages (suc rounds) page =
    let rest = scan pages rounds (page + 1) in if available pages page then some page else rest

-- The body of the loops: the page that was found is marked.
unfoldable pub take_page : ℕ → Memory → ℕ × Memory
take_page page m =
    (page, record m { pages = set_allocated m.pages page true; last_alloc_page = some page })

-- The scan that comes behind the place of the last allocation, then the one before it.
abbrev pub or_else : Option ℕ → Option ℕ → Option ℕ
or_else (some page) other = some page
or_else none other = other

unfoldable pub scan_from : ℕ → (ℕ → PageInfo) → Option ℕ
scan_from last pages =
    let before = scan pages (last + 1 - mem_userlo_pi) mem_userlo_pi in
    or_else (scan pages (mem_userhi_pi - (last + 1)) (last + 1)) before

-- The page that PhysicalPageAlloc finds by a scan.
unfoldable pub find_page : Memory → Option ℕ
unfolding scan_from
find_page m = elim m.last_alloc_page [
  | some last ↦ scan_from last m.pages
  | none ↦ scan m.pages (mem_userhi_pi - mem_userlo_pi) mem_userlo_pi
]

-- The page that was freed last is returned at once; else the scans; 0 if there is no page.
unfoldable pub physical_page_alloc : Memory → ℕ × Memory
unfolding take_page
physical_page_alloc m = elim m.last_freed_page [
  | some page ↦ (page, record m { last_alloc_page = some page; last_freed_page = none })
  | none ↦ elim (find_page m) [ some page ↦ take_page page m | none ↦ (0, m) ]
]

unfoldable pub physical_page_free : ℕ → Memory → Memory
physical_page_free page m = record m {
  pages = set_allocated m.pages page false;
  last_freed_page = some page;
}
