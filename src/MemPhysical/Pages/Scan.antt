-- ===== src/MemPhysical/Pages/Scan.antt =====
-- A scan finds the first available page of its range, and fails only if there is none.
use storm_os.Base.{
  ◌==◌, Bool-cases, Option-cases, ℕ, zero, suc, ◌+◌, ◌-◌, ◌≤◌, ◌<◌, ◌≡◌, ap, ◌∙◌, inl, inr, true,
  false, none, some, arith,
}
use native.Mathlib.Decide.{dec_lt}
use storm_os.MemPhysical.State.{PageInfo, Memory, available, mem_userlo_pi, mem_userhi_pi}
use storm_os.MemPhysical.Pages.{scan, scan_from, find_page}

pub scan-some :
    (pages : ℕ → PageInfo) (n page p : ℕ)
    → scan pages n page ≡ some p
    → (page ≤ p) × (p < page + n) × (available pages p ≡ true)
unfolding scan
scan-some pages zero page p e = cc
scan-some pages (suc n) page p e = ground (arith, scan-some pages n (page + 1) p)

pub scan-none :
    (pages : ℕ → PageInfo) (n page p : ℕ)
    → scan pages n page ≡ none
    → page ≤ p
    → p < page + n
    → available pages p ≡ false
unfolding scan
scan-none pages zero page p e lo hi = absurd (omega arith)
scan-none pages (suc n) page p e lo hi = elim (Bool-cases (p == page)) [
  | inl same ↦ ground arith
  | inr other ↦ ground (arith, scan-none pages n (page + 1) p)
]

-- no page of the user range can be had
abbrev pub NoneLeft : (ℕ → PageInfo) → Type 0
NoneLeft pages = (p : ℕ) → mem_userlo_pi ≤ p → p < mem_userhi_pi → available pages p ≡ false

-- A last allocated page lies in the user range.
abbrev pub LastInRange : Memory → Type 0
LastInRange m = (a : ℕ) → m.last_alloc_page ≡ some a → (mem_userlo_pi ≤ a) × (a < mem_userhi_pi)

scan_from-some :
    (last p : ℕ) (pages : ℕ → PageInfo)
    → mem_userlo_pi ≤ last
    → last < mem_userhi_pi
    → scan_from last pages ≡ some p
    → (mem_userlo_pi ≤ p) × (p < mem_userhi_pi) × (available pages p ≡ true)
unfolding scan_from
scan_from-some last p pages lo hi e =
    elim (Option-cases (scan pages (mem_userhi_pi - (last + 1)) (last + 1))) [
      | inl failed ↦
          let (a, b, c) =
            scan-some pages (last + 1 - mem_userlo_pi) mem_userlo_pi p (rw failed at e) in
          (a, omega arith, c)
      | inr (q, found) ↦
          let same : q ≡ p = cc (rw found at e) in
          let (a, b, c) =
            scan-some pages (mem_userhi_pi - (last + 1)) (last + 1) p (found ∙ ap some same) in
          (omega arith, omega arith, c)
    ]

scan_from-none : (last : ℕ) (pages : ℕ → PageInfo) → scan_from last pages ≡ none → NoneLeft pages
unfolding scan_from
scan_from-none last pages e p lo hi =
    elim (Option-cases (scan pages (mem_userhi_pi - (last + 1)) (last + 1))) [
      | inl failed ↦ elim (dec_lt p (last + 1)) [
        | yes before ↦
            scan-none pages (last + 1 - mem_userlo_pi) mem_userlo_pi p (rw failed at e) lo
              (omega arith)
        | no behind ↦
            scan-none pages (mem_userhi_pi - (last + 1)) (last + 1) p failed (omega arith)
              (omega arith)
      ]
      | inr (q, found) ↦ absurd (let no_page : some q ≡ none = rw found at e in cc)
    ]

pub find_page-some :
    (m : Memory) (p : ℕ)
    → LastInRange m
    → find_page m ≡ some p
    → (mem_userlo_pi ≤ p) × (p < mem_userhi_pi) × (available m.pages p ≡ true)
unfolding find_page
find_page-some m p r e = elim (Option-cases m.last_alloc_page) [
  | inl first ↦
      let (a, b, c) =
        scan-some m.pages (mem_userhi_pi - mem_userlo_pi) mem_userlo_pi p
          (rw (first, find_page) at e) in
      (a, omega arith, c)
  | inr (last, is_last) ↦
      let (lo, hi) = r last is_last in
      scan_from-some last p m.pages lo hi (rw (is_last, find_page) at e)
]

pub find_page-none : (m : Memory) → find_page m ≡ none → NoneLeft m.pages
unfolding find_page
find_page-none m e = elim (Option-cases m.last_alloc_page) [
  | inl first ↦ λ p lo hi.
      scan-none m.pages (mem_userhi_pi - mem_userlo_pi) mem_userlo_pi p (rw (first, find_page) at e)
        lo (omega arith)
  | inr (last, is_last) ↦ scan_from-none last m.pages (rw (is_last, find_page) at e)
]
