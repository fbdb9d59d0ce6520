-- ===== src/MemPhysical/Init/Count.antt =====
-- PhysicalMemoryInit gives the root container exactly the pages that PhysicalPageAlloc can hand out.
use storm_os.Base.{
  ltb, ◌==◌, if◌then◌else◌, ltb-true, ltb-false, for_upto, ℕ, zero, suc, ◌+◌, ◌<◌, ◌≡◌, refl, sym,
  ◌∙◌, true, false, not, ◌&&◌, List, arith,
}
use storm_os.MemPhysical.State.{
  Memory, Container, PageInfo, bios, kernel, user, available, num_physical_pages,
}
use storm_os.MemPhysical.Init.{
  Smap, page_reserved, in_user_range, Init, init_page, init_pages, physical_memory_init,
}
use storm_os.MemPhysical.Containers.{container_init}

-- How many of the pages below `n` are available.
unfoldable pub count_available : (ℕ → PageInfo) → ℕ → ℕ
count_available pages zero = 0
count_available pages (suc n) = count_available pages n + (if available pages n then 1 else 0)

-- What the map says of a page.
pub classify : List Smap → ℕ → PageInfo
classify smap page =
    if page_reserved smap page
    then record { allocated = true; perm = bios }
    else if in_user_range page
    then record { allocated = false; perm = user }
    else record { allocated = false; perm = kernel }

table-init_page :
    (smap : List Smap) (n p : ℕ) (s : Init)
    → (init_page smap n s).table p ≡ (if p == n then classify smap n else s.table p)
unfolding init_page classify
table-init_page smap n p s = ground arith

user_pages-init_page :
    (smap : List Smap) (n : ℕ) (s : Init)
    → (init_page smap n s).user_pages
      ≡ s.user_pages + (if available (classify smap) n then 1 else 0)
unfolding init_page classify
user_pages-init_page smap n s = ground arith

table-init_pages :
    (n : ℕ) (smap : List Smap) (table : ℕ → PageInfo) (p : ℕ)
    → (init_pages n smap table).table p ≡ (if ltb p n then classify smap p else table p)
unfolding init_pages for_upto
table-init_pages zero smap table p = rw (ltb-false p 0 (omega arith))
table-init_pages (suc n) smap table p =
    table-init_page smap n p (init_pages n smap table)
    ∙ ground (arith, table-init_pages n smap table p)

user_pages-init_pages :
    (n : ℕ) (smap : List Smap) (table : ℕ → PageInfo)
    → (init_pages n smap table).user_pages ≡ count_available (classify smap) n
unfolding init_pages for_upto count_available
user_pages-init_pages zero smap table = refl
user_pages-init_pages (suc n) smap table =
    user_pages-init_page smap n (init_pages n smap table) ∙ rw (user_pages-init_pages n smap table)

count_available-congr :
    (f g : ℕ → PageInfo) (n : ℕ)
    → ((p : ℕ) → p < n → f p ≡ g p)
    → count_available f n ≡ count_available g n
unfolding count_available
count_available-congr f g zero same = refl
count_available-congr f g (suc n) same =
    rw (count_available-congr f g n (λ p h. same p (omega arith)), same n (omega arith))

module _ (smap : List Smap) (m : Memory) where
  init_root : Container
  init_root = (physical_memory_init smap m).containers 0

  page-physical_memory_init :
      (p : ℕ) → p < num_physical_pages → (physical_memory_init smap m).pages p ≡ classify smap p
  unfolding physical_memory_init container_init
  page-physical_memory_init p h =
      table-init_pages num_physical_pages smap m.pages p ∙ rw (ltb-true p num_physical_pages h)

  quota-init : init_root.quota ≡ (init_pages num_physical_pages smap m.pages).user_pages
  unfolding init_root physical_memory_init container_init
  quota-init = refl

  usage-init : init_root.usage ≡ 0
  unfolding init_root physical_memory_init container_init
  usage-init = refl

available-classify :
    (smap : List Smap) (p : ℕ)
    → available (classify smap) p ≡ (not (page_reserved smap p) && in_user_range p)
unfolding classify
available-classify smap p = ground arith

-- After PhysicalMemoryInit a page can be handed out exactly if the loop over the map does not
-- reserve it and it lies in the user range; and the quota of the root container is the number of such pages, none of them used.
pub physical_memory_init_quota :
    (smap : List Smap) (m : Memory)
    → let m' = physical_memory_init smap m in
      ((m'.containers 0).quota ≡ count_available m'.pages num_physical_pages)
      × ((m'.containers 0).usage ≡ 0)
      × ((p : ℕ)
          → p < num_physical_pages
          → available m'.pages p ≡ (not (page_reserved smap p) && in_user_range p))
unfolding init_root
physical_memory_init_quota smap m = (
  quota-init smap m
      ∙ user_pages-init_pages num_physical_pages smap m.pages
      ∙ count_available-congr (classify smap) (physical_memory_init smap m).pages num_physical_pages
          (λ p h. sym (page-physical_memory_init smap m p h)),
  usage-init smap m,
  λ p h. rw (page-physical_memory_init smap m p h) (available-classify smap p),
)
