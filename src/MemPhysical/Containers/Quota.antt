-- ===== src/MemPhysical/Containers/Quota.antt =====
-- Usage and quota: no container uses more than its quota.
use storm_os.Base.{==_ne, ℕ, ◌+◌, ◌^◌, ◌≤◌, ◌<◌, ◌≡◌, refl, ap, ◌≢◌, arith}
use native.Mathlib.Decide.{ℕ_discrete}
use storm_os.MemPhysical.State.{Memory, Container}
use storm_os.MemPhysical.Pages.{find_page, take_page, physical_page_alloc, physical_page_free}
use storm_os.MemPhysical.Containers.Grant.{container_alloc_full, container_alloc_room}
use storm_os.MemPhysical.Containers.{
  charged, set_container, next_child, container_split, container_alloc, container_free,
}

-- The usage is at most the quota, and the quota is a positive `int` or 0.
pub record IsWithinQuota (m : Memory) : Type 0 where
  pub within : (id : ℕ) → (m.containers id).usage ≤ (m.containers id).quota
  pub small : (id : ℕ) → (m.containers id).quota < 2 ^ 31

pub containers-physical_page_alloc :
    (m : Memory) → (physical_page_alloc m).1.containers ≡ m.containers
unfolding physical_page_alloc
containers-physical_page_alloc m = ground arith

find_page-set_container :
    (id : ℕ) (c : Container) (m : Memory) → find_page (set_container id c m) ≡ find_page m
unfolding find_page
find_page-set_container id c m = refl

physical_page_alloc-set_container :
    (id : ℕ) (c : Container) (m : Memory)
    → physical_page_alloc (set_container id c m)
      ≡ ((physical_page_alloc m).0, set_container id c (physical_page_alloc m).1)
unfolding physical_page_alloc take_page
physical_page_alloc-set_container id c m = ground (arith, find_page-set_container id c m)

-- Below the quota ContainerAlloc counts a page, to that container and no other, whether or not
-- PhysicalPageAlloc finds one, and returns what PhysicalPageAlloc returns.
pub container_alloc_counts :
    (id : ℕ) (m : Memory)
    → IsWithinQuota m
    → (m.containers id).usage ≢ (m.containers id).quota
    → let (page, m') = container_alloc id m in
      (page ≡ (physical_page_alloc m).0)
      × (m'.pages ≡ (physical_page_alloc m).1.pages)
      × ((m'.containers id).usage ≡ (m.containers id).usage + 1)
      × ((j : ℕ) → j ≢ id → m'.containers j ≡ m.containers j)
container_alloc_counts id m v ne =
    rw (container_alloc_room id m ne, physical_page_alloc-set_container)
      (
        refl,
        refl,
        ground (arith, v.within id, v.small id),
        λ j other.
            rw (==_ne j id other)
              (ap (λ (c : ℕ → Container). c j) (containers-physical_page_alloc m)),
      )

-- ContainerAlloc keeps every container within its quota.
pub container_alloc-IsWithinQuota :
    (id : ℕ) (m : Memory) → IsWithinQuota m → IsWithinQuota (container_alloc id m).1
container_alloc-IsWithinQuota id m v =
    elim (ℕ_discrete (m.containers id).usage (m.containers id).quota) [
      | yes full ↦ rw (container_alloc_full id m full) v
      | no room ↦ rw (container_alloc_room id m room) (record {
        within = λ j.
            rw (containers-physical_page_alloc (charged id m))
              (ground (arith, v.within j, v.small id));
        small = λ j. rw (containers-physical_page_alloc (charged id m)) (ground (arith, v.small j));
      })
    ]

-- ContainerFree keeps every container within its quota.
pub container_free-IsWithinQuota :
    (id page : ℕ) (m : Memory) → IsWithinQuota m → IsWithinQuota (container_free id page m)
unfolding container_free physical_page_free
container_free-IsWithinQuota id page m v = record {
  within = λ j. ground (arith, v.within j, v.within id);
  small = λ j. ground (arith, v.small j, v.small id);
}

-- ContainerSplit keeps every container within its quota, if the parent can spare the pages (which
-- the source assumes) and the child is another container.
pub container_split-IsWithinQuota :
    (id quota : ℕ) (m : Memory)
    → IsWithinQuota m
    → (m.containers id).usage + quota ≤ (m.containers id).quota
    → next_child id m ≢ id
    → IsWithinQuota (container_split id quota m).1
unfolding container_split
container_split-IsWithinQuota id quota m v room other = record {
  within = λ j. ground (arith, v.within j, v.within id, v.small id);
  small = λ j. ground (arith, v.small j, v.small id);
}
