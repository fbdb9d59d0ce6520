-- ===== src/MemPhysical/Containers/Reachable.antt =====
-- The containers after any sequence of ContainerAlloc, ContainerFree and ContainerSplit.
use storm_os.Base.{ℕ, zero, suc, ◌+◌, ◌≤◌, ◌<◌, ◌≡◌, refl, sym, ◌∙◌, true, false, List, arith}
use native.Mathlib.Decide.{ℕ_discrete}
use storm_os.MemPhysical.State.{Memory, Container, PageInfo, num_physical_pages}
use storm_os.MemPhysical.Pages.{physical_page_free}
use storm_os.MemPhysical.Init.{Smap, physical_memory_init}
use storm_os.MemPhysical.Init.Count.{count_available, physical_memory_init_quota}
use storm_os.MemPhysical.Containers.{
  charged, container_init, container_split, container_alloc, container_free,
}
use storm_os.MemPhysical.Containers.Grant.{container_alloc_full, container_alloc_room}
use storm_os.Thread.State.{max_procs}
use storm_os.MemPhysical.Containers.Tree.{IsTree, HasRoom, next_child_index, container_split-IsTree}
use storm_os.MemPhysical.Containers.Quota.{
  IsWithinQuota, containers-physical_page_alloc, container_alloc-IsWithinQuota,
  container_free-IsWithinQuota, container_split-IsWithinQuota,
}

-- A call, whose indices lie in the arrays. A split is made for a container in use that has room for
-- a child and can spare the pages.
pub data Step : Memory → Memory → Type 0 where
  allocs : {m : Memory} (id : ℕ) → id < max_procs → Step m (container_alloc id m).1
  frees :
      {m : Memory} (id page : ℕ)
      → id < max_procs
      → page < num_physical_pages
      → Step m (container_free id page m)
  splits :
      {m : Memory} (id quota : ℕ)
      → HasRoom id m
      → (m.containers id).used ≡ true
      → (m.containers id).usage + quota ≤ (m.containers id).quota
      → Step m (container_split id quota m).1

pub data Reach (m : Memory) : Memory → Type 0 where
  here : Reach m m
  next : {m' m'' : Memory} → Reach m m' → Step m' m'' → Reach m m''

-- The containers form the same tree.
record SameTree (m m' : Memory) : Type 0 where
  used : (j : ℕ) → (m'.containers j).used ≡ (m.containers j).used
  parent : (j : ℕ) → (m'.containers j).parent ≡ (m.containers j).parent
  num_children : (j : ℕ) → (m'.containers j).num_children ≡ (m.containers j).num_children

SameTree-IsTree : (m m' : Memory) → SameTree m m' → IsTree m → IsTree m'
SameTree-IsTree m m' same t = record {
  root = same.used 0 ∙ t.root;
  parent_used = λ id positive u. same.used _ ∙ t.parent_used id positive (sym (same.used id) ∙ u);
  names_parent =
      λ id positive u. same.parent id ∙ t.names_parent id positive (sym (same.used id) ∙ u);
  counted =
      λ id positive u. rw (same.num_children) (t.counted id positive (sym (same.used id) ∙ u));
}

container_alloc-SameTree : (id : ℕ) (m : Memory) → SameTree m (container_alloc id m).1
container_alloc-SameTree id m = elim (ℕ_discrete (m.containers id).usage (m.containers id).quota) [
  | yes full ↦
      rw (container_alloc_full id m full)
        (record { used = λ j. refl; parent = λ j. refl; num_children = λ j. refl })
  | no room ↦ rw (container_alloc_room id m room) (record {
    used = λ j. rw (containers-physical_page_alloc (charged id m)) (ground arith);
    parent = λ j. rw (containers-physical_page_alloc (charged id m)) (ground arith);
    num_children = λ j. rw (containers-physical_page_alloc (charged id m)) (ground arith);
  })
]

container_free-SameTree : (id page : ℕ) (m : Memory) → SameTree m (container_free id page m)
unfolding container_free physical_page_free
container_free-SameTree id page m = record {
  used = λ j. ground arith;
  parent = λ j. ground arith;
  num_children = λ j. ground arith;
}

Step-keeps : {m m' : Memory} → Step m m' → IsTree m × IsWithinQuota m → IsTree m' × IsWithinQuota m'
Step-keeps {m} (allocs id inside) (t, v) = (
  SameTree-IsTree m (container_alloc id m).1 (container_alloc-SameTree id m) t,
  container_alloc-IsWithinQuota id m v,
)
Step-keeps {m} (frees id page inside in_map) (t, v) = (
  SameTree-IsTree m (container_free id page m) (container_free-SameTree id page m) t,
  container_free-IsWithinQuota id page m v,
)
Step-keeps {m} (splits id quota room used spare) (t, v) =
    let (_, _, _, above) = next_child_index id m room in
    (
      (container_split-IsTree id quota m t room used).0,
      container_split-IsWithinQuota id quota m v spare (λ e. omega (arith, e, above)),
    )

count_available-le : (pages : ℕ → PageInfo) (n : ℕ) → count_available pages n ≤ n
unfolding count_available
count_available-le pages zero = omega arith
count_available-le pages (suc n) = ground (arith, count_available-le pages n)

-- The containers as the linker leaves them.
pub record IsZero (c : Container) : Type 0 where
  pub unused : c.used ≡ false
  pub usage : c.usage ≡ 0
  pub quota : c.quota ≡ 0

pub physical_memory_init-IsTree :
    (smap : List Smap) (m : Memory)
    → ((id : ℕ) → (m.containers id).used ≡ false)
    → IsTree (physical_memory_init smap m)
unfolding physical_memory_init container_init
physical_memory_init-IsTree smap m unused = record {
  root = refl;
  parent_used = λ id positive u. absurd (ground (arith, unused id));
  names_parent = λ id positive u. absurd (ground (arith, unused id));
  counted = λ id positive u. absurd (ground (arith, unused id));
}

init-keeps :
    (smap : List Smap) (m : Memory)
    → ((id : ℕ) → IsZero (m.containers id))
    → IsTree (physical_memory_init smap m) × IsWithinQuota (physical_memory_init smap m)
unfolding physical_memory_init container_init
init-keeps smap m zeros =
    let m' = physical_memory_init smap m in
    let (quota, usage, _) = physical_memory_init_quota smap m in
    let few = count_available-le m'.pages num_physical_pages in
    (
      physical_memory_init-IsTree smap m (λ id. (zeros id).unused),
      record {
        within = λ id. ground (arith, (zeros id).usage, (zeros id).quota);
        small = λ id. ground (arith, (zeros id).quota, quota, few);
      },
    )

-- After PhysicalMemoryInit, whatever calls of ContainerAlloc, ContainerFree and ContainerSplit are
-- made, the containers form a tree and none uses more than its quota, as long as the calls name
-- containers and pages of the arrays, and only containers are split that are in use, have fewer
-- than MAX_CHILDREN children, can spare the pages, and get a child with an index below MAX_PROCS.
pub reachable-IsTree :
    (smap : List Smap) (m m' : Memory)
    → ((id : ℕ) → IsZero (m.containers id))
    → Reach (physical_memory_init smap m) m'
    → IsTree m' × IsWithinQuota m'
reachable-IsTree smap m m' zeros here = init-keeps smap m zeros
reachable-IsTree smap m m' zeros (next r step) = Step-keeps step (reachable-IsTree smap m _ zeros r)
