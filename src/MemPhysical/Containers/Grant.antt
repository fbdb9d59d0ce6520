-- ===== src/MemPhysical/Containers/Grant.antt =====
-- What ContainerAlloc does to the table of pages.
use storm_os.Base.{==_iff, ==_ne, ℕ, ◌≡◌, refl, ap, ◌≢◌, ◌⊎◌, inl, inr, none}
use native.Mathlib.Decide.{ℕ_discrete}
use storm_os.MemPhysical.State.{Memory}
use storm_os.MemPhysical.Pages.{physical_page_alloc}
use storm_os.MemPhysical.Pages.Scan.{LastInRange}
use storm_os.MemPhysical.Pages.Alloc.{Allocated, physical_page_alloc-Allocated}
use storm_os.MemPhysical.Containers.{charged, container_alloc}

-- ContainerAlloc at the quota fails and changes nothing.
pub container_alloc_full :
    (id : ℕ) (m : Memory)
    → (m.containers id).usage ≡ (m.containers id).quota
    → container_alloc id m ≡ (0, m)
unfolding container_alloc
container_alloc_full id m e = rw ((==_iff _ _).1 e)

-- The pages that PhysicalPageAlloc hands out do not depend on the containers.
pub container_alloc_room :
    (id : ℕ) (m : Memory)
    → (m.containers id).usage ≢ (m.containers id).quota
    → container_alloc id m ≡ physical_page_alloc (charged id m)
unfolding container_alloc
container_alloc_room id m ne = rw (==_ne _ _ ne)

-- No page was taken: the table and its hints are as before.
pub record SamePages (m m' : Memory) : Type 0 where
  pub pages : m'.pages ≡ m.pages
  pub last : m'.last_alloc_page ≡ m.last_alloc_page
  pub freed : m'.last_freed_page ≡ m.last_freed_page

-- With no freed page pending, ContainerAlloc takes an available page, or returns 0 and takes none.
pub container_alloc-Allocated :
    (id : ℕ) (m : Memory)
    → LastInRange m
    → m.last_freed_page ≡ none
    → let (page, m') = container_alloc id m in
      Allocated (charged id m) page m' ⊎ ((page ≡ 0) × SamePages m m')
container_alloc-Allocated id m r f =
    elim (ℕ_discrete (m.containers id).usage (m.containers id).quota) [
      | yes full ↦ inr (
          rw (container_alloc_full id m full)
            (refl, record { pages = refl; last = refl; freed = refl }))
      | no room ↦
          rw (container_alloc_room id m room)
            (elim (physical_page_alloc-Allocated (charged id m) r f) [
              | inl a ↦ inl a
              | inr (e, _) ↦ inr (
                ap (λ (x : ℕ × Memory). x.0) e,
                record {
                  pages = ap (λ (x : ℕ × Memory). x.1.pages) e;
                  last = ap (λ (x : ℕ × Memory). x.1.last_alloc_page) e;
                  freed = ap (λ (x : ℕ × Memory). x.1.last_freed_page) e;
                },
              )
            ])
    ]
