-- ===== src/MemPhysical/Pages/Alloc.antt =====
-- PhysicalPageAlloc by a scan hands out an available user page, and fails only if there is none.
use storm_os.Base.{
  Option-cases, update_self, update_ne, ℕ, ◌≤◌, ◌<◌, ◌≡◌, refl, ap, ◌≢◌, ◌⊎◌, inl, inr, true, none,
  some, arith,
}
use storm_os.MemPhysical.State.{Memory, PageInfo, available, mem_userlo_pi, mem_userhi_pi}
use storm_os.MemPhysical.Pages.{find_page, take_page, physical_page_alloc}
use storm_os.MemPhysical.Pages.Scan.{NoneLeft, LastInRange, find_page-some, find_page-none}

-- Page `p` was available before, is marked after, and nothing else has changed but the hint.
pub record Allocated (m : Memory) (p : ℕ) (m' : Memory) : Type 0 where
  pub above : mem_userlo_pi ≤ p
  pub below : p < mem_userhi_pi
  pub was_available : available m.pages p ≡ true
  pub marked : (m'.pages p).allocated ≡ true
  pub others : (q : ℕ) → q ≢ p → m'.pages q ≡ m.pages q
  pub same_containers : m'.containers ≡ m.containers
  pub last : m'.last_alloc_page ≡ some p
  pub none_freed : m'.last_freed_page ≡ none

pub physical_page_alloc_found :
    (m : Memory) (p : ℕ)
    → m.last_freed_page ≡ none
    → find_page m ≡ some p
    → physical_page_alloc m ≡ take_page p m
unfolding physical_page_alloc
physical_page_alloc_found m p f e = ground arith

pub physical_page_alloc_full :
    (m : Memory) → m.last_freed_page ≡ none → find_page m ≡ none → physical_page_alloc m ≡ (0, m)
unfolding physical_page_alloc
physical_page_alloc_full m f e = ground arith

take_page-Allocated :
    (m : Memory) (p : ℕ)
    → LastInRange m
    → m.last_freed_page ≡ none
    → find_page m ≡ some p
    → Allocated m p (take_page p m).1
unfolding take_page
take_page-Allocated m p r f e =
    let (lo, hi, av) = find_page-some m p r e in
    record {
      above = lo;
      below = hi;
      was_available = av;
      marked =
          ap (λ (i : PageInfo). i.allocated)
            (update_self m.pages p (record (m.pages p) { allocated = true }));
      others = λ q ne. update_ne m.pages p q (record (m.pages p) { allocated = true }) ne;
      same_containers = refl;
      last = refl;
      none_freed = f;
    }

-- With no freed page pending, PhysicalPageAlloc either returns a user page that was available, and
-- marks that page and no other, or it returns 0, changes nothing, and no page of the user range was
-- available.
pub physical_page_alloc-Allocated :
    (m : Memory)
    → LastInRange m
    → m.last_freed_page ≡ none
    → Allocated m (physical_page_alloc m).0 (physical_page_alloc m).1
      ⊎ ((physical_page_alloc m ≡ (0, m)) × NoneLeft m.pages)
unfolding take_page
physical_page_alloc-Allocated m r f = elim (Option-cases (find_page m)) [
  | inl full ↦ inr (physical_page_alloc_full m f full, find_page-none m full)
  | inr (p, found) ↦
      inl (rw (physical_page_alloc_found m p f found) (take_page-Allocated m p r f found))
]
