-- ===== src/MemPhysical/Pages/Recycled.antt =====
-- The page that was freed last: PhysicalPageAlloc returns it without marking it.
use storm_os.Base.{
  ◌==◌, ==_iff, ==_refl, Bool-cases, ℕ, ◌≤◌, ◌<◌, ◌≡◌, refl, sym, ◌∙◌, ◌≢◌, inl, inr, Bool, true,
  false, none, some, arith,
}
use storm_os.MemPhysical.State.{
  Memory, user, available, set_allocated, mem_userlo_pi, mem_userhi_pi,
}
use storm_os.MemPhysical.Pages.{physical_page_alloc, physical_page_free}
use storm_os.MemPhysical.Pages.Scan.{LastInRange}
use storm_os.MemPhysical.Pages.Alloc.{physical_page_alloc-Allocated}

-- `p` is the only available page of the user range.
pub record IsOnlyPage (m : Memory) (p : ℕ) : Type 0 where
  pub above : mem_userlo_pi ≤ p
  pub below : p < mem_userhi_pi
  pub is_user : (m.pages p).perm ≡ user
  pub others : (q : ℕ) → q ≢ p → available m.pages q ≡ false

-- After PhysicalPageFree, PhysicalPageAlloc returns the freed page, and leaves it marked as free.
pub physical_page_alloc-free :
    (m : Memory) (p : ℕ)
    → let (page, m') = physical_page_alloc (physical_page_free p m) in
      (page ≡ p)
      × ((m'.pages p).allocated ≡ false)
      × (m'.last_freed_page ≡ none)
      × (m'.last_alloc_page ≡ some p)
unfolding physical_page_alloc physical_page_free
physical_page_alloc-free m p = ground arith

clash : {b : Bool} → b ≡ true → b ≡ false → ⊥
clash t f = cc (sym t ∙ f)

-- The state after the freed page was handed out again.
abbrev recycled : Memory → ℕ → Memory
recycled m p = record m {
  pages = set_allocated m.pages p false;
  last_alloc_page = some p;
  last_freed_page = none;
}

recycled_lem :
    (m : Memory) (p : ℕ) → physical_page_alloc (physical_page_free p m) ≡ (p, recycled m p)
unfolding physical_page_alloc physical_page_free
recycled_lem m p = refl

-- If the page that was freed is the only one left, then two calls of PhysicalPageAlloc in a row
-- both return it.
pub physical_page_alloc_twice :
    (m : Memory) (p : ℕ)
    → IsOnlyPage m p
    → let (first, m') = physical_page_alloc (physical_page_free p m) in
      (first ≡ p) × ((physical_page_alloc m').0 ≡ p)
physical_page_alloc_twice m p only = rw (recycled_lem m p) (refl, again)
  where
    in_range : LastInRange (recycled m p)
    in_range = λ a e. let same : p ≡ a = cc in rw (← same) (only.above, only.below)

    still_free : available (recycled m p).pages p ≡ true
    still_free = rw (==_refl, only.is_user)

    only_one : (q : ℕ) → available (recycled m p).pages q ≡ true → q ≡ p
    only_one q av = elim (Bool-cases (q == p)) [
      | inl same ↦ (==_iff q p).0 same
      | inr other ↦ absurd (
          let out : available m.pages q ≡ false = only.others q (ground arith) in
          let av' : available m.pages q ≡ true = rw other at av in clash av' out)
    ]

    again : (physical_page_alloc (recycled m p)).0 ≡ p
    again = elim (physical_page_alloc-Allocated (recycled m p) in_range refl) [
      | inl a ↦ only_one (physical_page_alloc (recycled m p)).0 a.was_available
      | inr (e, full) ↦ absurd (clash still_free (full p only.above only.below))
    ]
