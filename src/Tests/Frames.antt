-- ===== src/Tests/Frames.antt =====
-- Physical pages and containers at concrete states.
use storm_os.Base.{
  leb, ◌==◌, if◌then◌else◌, ==_ne, ℕ, ◌≤◌, ◌<◌, ◌≡◌, refl, ◌↔◌, ◌⊎◌, true, false, not, none, List,
  [], ◌∷◌, arith,
}
use storm_os.MemPhysical.State.{
  mem_userlo_pi, mem_userhi_pi, Memory, kernel, user, Container, available, num_physical_pages,
}
use storm_os.MemPhysical.Pages.{find_page, scan, physical_page_alloc, physical_page_free}
use storm_os.MemPhysical.Pages.Scan.{NoneLeft, LastInRange}
use storm_os.MemPhysical.Pages.Alloc.{Allocated, physical_page_alloc-Allocated}
use storm_os.MemPhysical.Pages.Recycled.{IsOnlyPage, physical_page_alloc_twice}
use storm_os.MemPhysical.Containers.{
  container_init, container_split, container_alloc, container_free,
}
use storm_os.MemPhysical.Containers.Quota.{IsWithinQuota}
use storm_os.MemPhysical.Containers.Tree.{IsTree, container_split-IsTree}
use storm_os.MemPhysical.Containers.Reachable.{
  Reach, here, next, allocs, frees, splits, reachable-IsTree,
}
use storm_os.MemPhysical.Init.{Smap, physical_memory_init}
use storm_os.MemPhysical.Init.Count.{count_available}
use storm_os.MemPhysical.Init.Map.{IsUsable, in_first, physical_memory_init-IsUsable}

abbrev pub root : Container
root = record { quota = 100; usage = 0; parent = 0; num_children = 0; used = true }

abbrev pub unused : Container
unused = record { quota = 0; usage = 0; parent = 0; num_children = 0; used = false }

-- Every page of the user range is free, and only the root container is used.
abbrev pub booted : Memory
booted = record {
  pages = λ p. record { allocated = false; perm = if leb mem_userlo_pi p then user else kernel };
  containers = λ id. if id == 0 then root else unused;
  last_freed_page = none;
  last_alloc_page = none;
}

booted-LastInRange : LastInRange booted
booted-LastInRange = λ a e. absurd (cc e)

alloc_runs : (physical_page_alloc booted).0 ≡ 0x40000
unfolding physical_page_alloc find_page scan
alloc_runs = refl

physical_page_alloc-Allocated_example :
    Allocated booted (physical_page_alloc booted).0 (physical_page_alloc booted).1
    ⊎ ((physical_page_alloc booted ≡ (0, booted)) × NoneLeft booted.pages)
physical_page_alloc-Allocated_example = physical_page_alloc-Allocated booted booted-LastInRange refl

-- All pages but 0x50000 are taken.
abbrev one_left : Memory
one_left = record booted { pages = λ p. record { allocated = not (p == 0x50000); perm = user } }

one_left-IsOnlyPage : IsOnlyPage one_left 0x50000
one_left-IsOnlyPage = record {
  above = omega arith;
  below = omega arith;
  is_user = refl;
  others = λ q ne. rw (==_ne q 0x50000 ne);
}

physical_page_alloc_twice_example :
    let (first, m') = physical_page_alloc (physical_page_free 0x50000 one_left) in
    (first ≡ 0x50000) × ((physical_page_alloc m').0 ≡ 0x50000)
physical_page_alloc_twice_example = physical_page_alloc_twice one_left 0x50000 one_left-IsOnlyPage

pub booted-IsTree : IsTree booted
booted-IsTree = record {
  root = refl;
  parent_used = λ id positive u. absurd (ground arith);
  names_parent = λ id positive u. absurd (ground arith);
  counted = λ id positive u. absurd (ground arith);
}

container_split-IsTree_example :
    let (child, m') = container_split 0 40 booted in
    IsTree m' × ((booted.containers child).used ≡ false) × ((m'.containers child).used ≡ true)
container_split-IsTree_example =
    container_split-IsTree 0 40 booted booted-IsTree
      (record { small = omega arith; fewer = omega arith; inside = omega arith }) refl

-- One usable range, of the two pages from 0x40000 on.
abbrev small_map : List Smap
small_map = record { base_addr = 0x40000000; length = 0x2000; type = 1 } ∷ []

physical_memory_init-IsUsable_example :
    let m' = physical_memory_init small_map booted in
    ((m'.containers 0).quota ≡ count_available m'.pages num_physical_pages)
    × ((m'.containers 0).usage ≡ 0)
    × ((p : ℕ)
        → p < num_physical_pages
        → (available m'.pages p ≡ true)
          ↔ (IsUsable p small_map × (mem_userlo_pi ≤ p) × (p < mem_userhi_pi)))
physical_memory_init-IsUsable_example =
    physical_memory_init-IsUsable small_map booted (omega arith, tt)

small_map-IsUsable : IsUsable 0x40001 small_map
small_map-IsUsable = in_first refl (omega arith) (omega arith)

-- No container is used.
abbrev zeroed : Memory
zeroed = record booted { containers = λ id. unused }

-- The root is split, and the child is given a page and frees it.
after_calls : Reach (physical_memory_init small_map zeroed) (
    container_free 1 0x40000
      (container_alloc 1 (container_split 0 0 (physical_memory_init small_map zeroed)).1).1)
unfolding physical_memory_init container_init
after_calls =
    next
      (next
        (next here (
          splits 0 0 (record { small = omega arith; fewer = omega arith; inside = omega arith })
            refl (omega arith)))
        (allocs 1 (omega arith)))
      (frees 1 0x40000 (omega arith) (omega arith))

reachable-IsTree_example :
    let m =
      container_free 1 0x40000
        (container_alloc 1 (container_split 0 0 (physical_memory_init small_map zeroed)).1).1 in
    IsTree m × IsWithinQuota m
reachable-IsTree_example =
    reachable-IsTree small_map zeroed
      (container_free 1 0x40000
        (container_alloc 1 (container_split 0 0 (physical_memory_init small_map zeroed)).1).1)
      (λ id. record { unused = refl; usage = refl; quota = refl }) after_calls
