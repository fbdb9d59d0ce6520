-- ===== src/MemPhysical/Init/Map.antt =====
-- PhysicalMemoryInit hands out what the map of the BIOS says is usable.
use storm_os.Base.{
  Bool-cases, All, ℕ, ◌+◌, ◌*◌, ◌≤◌, ◌<◌, ◌≡◌, refl, sym, ◌∙◌, ◌↔◌, inl, inr, Bool, true, false,
  not, ◌&&◌, List, [], ◌∷◌, arith,
}
use storm_os.MemPhysical.State.{
  Memory, available, page_size, num_physical_pages, mem_userlo_pi, mem_userhi_pi,
}
use storm_os.MemPhysical.Init.{Smap, frees_page, page_reserved, in_user_range, physical_memory_init}
use storm_os.MemPhysical.Init.Count.{count_available, physical_memory_init_quota}
use storm_os.MemPhysical.Containers.{word}

-- All bytes of the page lie in an entry of type 1, the usable memory.
pub data IsUsable (page : ℕ) : List Smap → Type 0 where
  in_first :
      {p : Smap} {smap : List Smap}
      → p.type ≡ 1
      → p.base_addr ≤ page * page_size
      → page * page_size + page_size ≤ p.base_addr + p.length
      → IsUsable page (p ∷ smap)
  in_later : {p : Smap} {smap : List Smap} → IsUsable page smap → IsUsable page (p ∷ smap)

-- The entries end below 4 GB.
abbrev pub IsLow : List Smap → Type 0
IsLow = All (λ (p : Smap). p.base_addr + p.length < word)

frees_page_sound :
    (page : ℕ) (p : Smap)
    → page < mem_userhi_pi
    → p.base_addr + p.length < word
    → frees_page page p ≡ true
    → (p.type ≡ 1)
      × (p.base_addr ≤ page * page_size)
      × (page * page_size + page_size ≤ p.base_addr + p.length)
unfolding frees_page
frees_page_sound page p small low h = ground arith

frees_page_complete :
    (page : ℕ) (p : Smap)
    → page < mem_userhi_pi
    → p.base_addr + p.length < word
    → p.type ≡ 1
    → p.base_addr ≤ page * page_size
    → page * page_size + page_size ≤ p.base_addr + p.length
    → frees_page page p ≡ true
unfolding frees_page
frees_page_complete page p small low one lo hi = ground arith

page_reserved_sound :
    (page : ℕ) (smap : List Smap)
    → page < mem_userhi_pi
    → IsLow smap
    → page_reserved smap page ≡ false
    → IsUsable page smap
unfolding page_reserved
page_reserved_sound page [] small low h = absurd (ground (arith, h))
page_reserved_sound page (p ∷ smap) small (low, rest) h = elim (Bool-cases (frees_page page p)) [
  | inl yes_it ↦ let (one, lo, hi) = frees_page_sound page p small low yes_it in in_first one lo hi
  | inr not_it ↦ in_later (page_reserved_sound page smap small rest (rw not_it at h))
]

page_reserved_complete :
    (page : ℕ) (smap : List Smap)
    → page < mem_userhi_pi
    → IsLow smap
    → IsUsable page smap
    → page_reserved smap page ≡ false
unfolding page_reserved
page_reserved_complete page [] small low h = elim h [ ]
page_reserved_complete page (p ∷ smap) small (low, rest) (in_first one lo hi) =
    rw (frees_page_complete page p small low one lo hi) refl
page_reserved_complete page (p ∷ smap) small (low, rest) (in_later h) =
    let ih = page_reserved_complete page smap small rest h in ground arith

in_user_range_cases :
    (r : Bool) (p : ℕ)
    → (not r && in_user_range p) ≡ true
    → (r ≡ false) × (mem_userlo_pi ≤ p) × (p < mem_userhi_pi)
unfolding in_user_range
in_user_range_cases r p h = ground arith

in_user_range_lem : (p : ℕ) → mem_userlo_pi ≤ p → p < mem_userhi_pi → in_user_range p ≡ true
unfolding in_user_range
in_user_range_lem p lo hi = ground arith

-- When the entries of the map end below 4 GB, after PhysicalMemoryInit a page can be handed out
-- exactly if all of it lies in an entry of the map of type 1, and it lies between MEM_USERLO and
-- MEM_USERHI; and the quota of the root container is the number of such pages, none of them used.
pub physical_memory_init-IsUsable :
    (smap : List Smap) (m : Memory)
    → IsLow smap
    → let m' = physical_memory_init smap m in
      ((m'.containers 0).quota ≡ count_available m'.pages num_physical_pages)
      × ((m'.containers 0).usage ≡ 0)
      × ((p : ℕ)
          → p < num_physical_pages
          → (available m'.pages p ≡ true)
            ↔ (IsUsable p smap × (mem_userlo_pi ≤ p) × (p < mem_userhi_pi)))
physical_memory_init-IsUsable smap m low =
    let (quota, usage, pages) = physical_memory_init_quota smap m in
    (
      quota,
      usage,
      λ p h. (
        λ a.
            let (free, lo, hi) =
              in_user_range_cases (page_reserved smap p) p (sym (pages p h) ∙ a) in
            (page_reserved_sound p smap hi low free, lo, hi),
        λ (u, lo, hi).
            pages p h ∙ rw (page_reserved_complete p smap hi low u, in_user_range_lem p lo hi) refl,
      ),
    )
