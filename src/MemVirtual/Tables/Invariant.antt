-- ===== src/MemVirtual/Tables/Invariant.antt =====
-- The invariant of the page tables: each table that a directory names is a page of its own that the
-- table of physical pages has marked.
use storm_os.Base.{
  ◌==◌, ==_iff, Bool-cases, ℕ, ◌/◌, ◌%◌, ◌≤◌, ◌<◌, ◌≡◌, sym, ap, ◌∙◌, ◌≢◌, inl, inr, true, none,
  arith,
}
use storm_os.MemPhysical.State.{Memory, PageInfo, available, mem_userlo_pi, mem_userhi_pi}
use storm_os.MemPhysical.Pages.Scan.{LastInRange}
use storm_os.MemPhysical.Pages.Alloc.{Allocated}
use storm_os.MemPhysical.Containers.{charged, container_alloc}
use storm_os.MemPhysical.Containers.Grant.{SamePages, container_alloc-Allocated}
use storm_os.Thread.State.{max_procs}
use storm_os.MemVirtual.State.{Vm, mem_userlo_pdir, mem_userhi_pdir}

-- No freed page is pending, and the last allocated page is a user page.
pub record IsSettled (m : Memory) : Type 0 where
  pub last_in_range : LastInRange m
  pub none_freed : m.last_freed_page ≡ none

-- From `m` to `m'` pages were only marked.
pub record Grows (m m' : Memory) : Type 0 where
  pub settled : IsSettled m'
  pub keeps : (x : ℕ) → (m.pages x).allocated ≡ true → (m'.pages x).allocated ≡ true

Allocated-Grows : (m m' : Memory) (p : ℕ) → Allocated m p m' → Grows m m'
Allocated-Grows m m' p a = record {
  settled = record {
    last_in_range = λ x e. let same : p ≡ x = cc a.last in rw (← same) (a.above, a.below);
    none_freed = a.none_freed;
  };
  keeps = λ x h. elim (Bool-cases (x == p)) [
    | inl e ↦ rw ((==_iff x p).0 e) a.marked
    | inr n ↦
        ap (λ (i : PageInfo). i.allocated) (a.others x (λ e. cc (sym n ∙ (==_iff x p).1 e))) ∙ h
  ];
}

SamePages-Grows : (m m' : Memory) → IsSettled m → SamePages m m' → Grows m m'
SamePages-Grows m m' v s = record {
  settled = record {
    last_in_range = λ x e. v.last_in_range x (sym s.last ∙ e);
    none_freed = s.freed ∙ v.none_freed;
  };
  keeps = λ x h. ap (λ (f : ℕ → PageInfo). (f x).allocated) s.pages ∙ h;
}

-- ContainerAlloc only marks pages; what it returns, if not 0, is a user page that was available.
pub record Granted (m : Memory) (page : ℕ) (m' : Memory) : Type 0 where
  pub above : mem_userlo_pi ≤ page
  pub below : page < mem_userhi_pi
  pub was_available : available m.pages page ≡ true
  pub marked : (m'.pages page).allocated ≡ true

pub container_alloc-Grows :
    (id : ℕ) (m : Memory)
    → IsSettled m
    → let (page, m') = container_alloc id m in Grows m m' × (page ≢ 0 → Granted m page m')
container_alloc-Grows id m v = elim (container_alloc-Allocated id m v.last_in_range v.none_freed) [
  | inl a ↦
      let g = Allocated-Grows (charged id m) (container_alloc id m).1 (container_alloc id m).0 a in
      (
        record { settled = g.settled; keeps = g.keeps },
        λ ne. record {
          above = a.above;
          below = a.below;
          was_available = a.was_available;
          marked = a.marked;
        },
      )
  | inr (e, s) ↦ (SamePages-Grows m (container_alloc id m).1 v s, λ ne. absurd (ne e))
]

-- Directory entry `i` of process `p`, which is not the kernel's, is one for user memory.
abbrev pub IsUser : ℕ → ℕ → Type 0
IsUser p i = (p ≢ 0) × (p < max_procs) × (mem_userlo_pdir ≤ i) × (i < mem_userhi_pdir)

-- The entry `d` names a page that is marked, and has the flags of a page table.
pub record IsTable (m : Memory) (d : ℕ) : Type 0 where
  pub flags : d % 4096 ≡ 7
  pub above : mem_userlo_pi ≤ d / 4096
  pub below : d / 4096 < mem_userhi_pi
  pub taken : (m.pages (d / 4096)).allocated ≡ true

pub record IsVm (s : Vm) : Type 0 where
  pub settled : IsSettled s.memory
  pub tables :
      (p i : ℕ)
      → IsUser p i
      → s.page_dir_entries p i ≢ 0
      → IsTable s.memory (s.page_dir_entries p i)
  pub apart :
      (p i q j : ℕ)
      → IsUser p i
      → IsUser q j
      → s.page_dir_entries p i ≢ 0
      → s.page_dir_entries q j ≢ 0
      → s.page_dir_entries p i / 4096 ≡ s.page_dir_entries q j / 4096
      → (p ≡ q) × (i ≡ j)

pub IsTable-Grows : {m m' : Memory} (d : ℕ) → Grows m m' → IsTable m d → IsTable m' d
IsTable-Grows d g t = record {
  flags = t.flags;
  above = t.above;
  below = t.below;
  taken = g.keeps (d / 4096) t.taken;
}

-- The invariant does not look at the words of memory, and survives the marking of pages.
pub IsVm-memory :
    (s s' : Vm)
    → s'.page_dir_entries ≡ s.page_dir_entries
    → Grows s.memory s'.memory
    → IsVm s
    → IsVm s'
IsVm-memory s s' same g v = record {
  settled = g.settled;
  tables = λ p i u ne.
      let e = at p i in
      rw e (IsTable-Grows (s.page_dir_entries p i) g (v.tables p i u (λ z. ne (e ∙ z))));
  apart = λ p i q j u w ne nf h.
      v.apart p i q j u w (λ z. ne (at p i ∙ z)) (λ z. nf (at q j ∙ z))
        (omega (arith, h, at p i, at q j));
}
  where
    at : (p i : ℕ) → s'.page_dir_entries p i ≡ s.page_dir_entries p i
    at p i = ap (λ (d : ℕ → ℕ → ℕ). d p i) same
