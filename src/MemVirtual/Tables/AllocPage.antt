-- ===== src/MemVirtual/Tables/AllocPage.antt =====
-- AllocPage as a whole: what it maps, what it returns, and how it fails.
use storm_os.Base.{
  if◌then◌else◌, ==_iff, ==_ne, ℕ, ◌<◌, ◌≡◌, refl, sym, ap, ◌∙◌, ◌≢◌, ◌⊎◌, inl, inr, true, false,
  arith,
}
use native.Mathlib.Decide.{ℕ_discrete}
use storm_os.MemPhysical.State.{Memory, available}
use storm_os.MemPhysical.Containers.{container_alloc}
use storm_os.MemVirtual.State.{Vm, pde_index}
use storm_os.MemVirtual.Tables.{
  Mapped, get_page_table_entry, map_page, get_page_table_entry_by_va, alloc_page,
}
use storm_os.MemVirtual.Tables.Invariant.{
  Grows, Granted, container_alloc-Grows, IsUser, IsVm, IsVm-memory,
}
use storm_os.MemVirtual.Tables.MapPage.{Failed, Succeeded, Origin, map_page_cases}
use storm_os.MemVirtual.Tables.Mapping.{table-ne-available}

Grows_trans : (a b c : Memory) → Grows a b → Grows b c → Grows a c
Grows_trans a b c f g = record { settled = g.settled; keeps = λ x h. g.keeps x (f.keeps x h) }

-- a marked page is not available
marked-ne-available :
    (m : Memory) (x y : ℕ) → (m.pages x).allocated ≡ true → available m.pages y ≡ true → y ≢ x
marked-ne-available m x y marked av e =
    let same : (m.pages y).allocated ≡ true = ap (λ (k : ℕ). (m.pages k).allocated) e ∙ marked in
    absurd (ground arith)

-- What AllocPage makes of the result of MapPage.
abbrev outcome : Mapped → Mapped
outcome mapped =
    if mapped.err
    then record { result = 0; err = true; state = mapped.state }
    else record { result = mapped.result; err = false; state = mapped.state }

outcome_ok : (m : Mapped) → m.err ≡ false → outcome m ≡ m
outcome_ok m ok = ground arith

outcome_err :
    (m : Mapped) → m.err ≡ true → outcome m ≡ record { result = 0; err = true; state = m.state }
outcome_err m bad = ground arith

module _ (p va perm : ℕ) (s : Vm) (v : IsVm s) (u : IsUser p (pde_index va))
    (perm_small : perm < 4096) where
  -- the page that AllocPage asks ContainerAlloc for, and the state with it
  abbrev pub page : ℕ
  page = (container_alloc p s.memory).0

  abbrev with_page : Vm
  with_page = record s { memory = (container_alloc p s.memory).1 }

  lookup-with_page :
      (q va' : ℕ) → get_page_table_entry_by_va q va' with_page ≡ get_page_table_entry_by_va q va' s
  unfolding get_page_table_entry_by_va get_page_table_entry
  lookup-with_page q va' = refl

  grown : Grows s.memory with_page.memory
  grown = (container_alloc-Grows p s.memory v.settled).0

  alloc_page_none :
      page ≡ 0 → alloc_page p va perm s ≡ record { result = 0; err = true; state = with_page }
  unfolding alloc_page
  alloc_page_none z = rw ((==_iff _ _).1 z)

  alloc_page_some : page ≢ 0 → alloc_page p va perm s ≡ outcome (map_page p va page perm with_page)
  unfolding alloc_page
  alloc_page_some ne = rw (==_ne _ _ ne)

  with_page-IsVm : IsVm with_page
  with_page-IsVm = IsVm-memory s with_page refl grown v

  alloc_page_ok :
      (m : Mapped)
      → Granted s.memory page with_page.memory
      → Succeeded with_page p va page perm m
      → Origin with_page p va m
      → Granted s.memory page m.state.memory × Succeeded s p va page perm m × (m.result ≢ page)
  alloc_page_ok m g ok origin = (
    record {
      above = g.above;
      below = g.below;
      was_available = g.was_available;
      marked = ok.grows.keeps page g.marked;
    },
    record {
      err = ok.err;
      maps = record {
        valid = ok.maps.valid;
        reads = ok.maps.reads;
        same = λ q va' w other. ok.maps.same q va' w other ∙ lookup-with_page q va';
      };
      table = ok.table;
      grows = Grows_trans s.memory with_page.memory m.state.memory grown ok.grows;
    },
    elim origin [
      | inl (ne, e) ↦ λ same.
          table-ne-available s.memory (s.page_dir_entries p (pde_index va)) page
            (v.tables p (pde_index va) u ne) g.was_available (sym e ∙ same)
      | inr av ↦ marked-ne-available with_page.memory page m.result g.marked av
    ],
  )

  -- When the page tables are well formed and the address is one of the user part of a process other
  -- than 0, AllocPage either maps a page that was available, with the permissions given and no other
  -- user mapping changed, or fails without a change of any entry. The index that it returns on
  -- success is that of the page table, not that of the page.
  pub alloc_page_cases :
      (let m = alloc_page p va perm s in
        Granted s.memory page m.state.memory × Succeeded s p va page perm m × (m.result ≢ page))
      ⊎ Failed s (alloc_page p va perm s)
  alloc_page_cases = elim (ℕ_discrete page 0) [
    | yes z ↦ inr (
        rw (alloc_page_none z)
          (record { err = refl; same_dirs = refl; same_ram = refl; grows = grown }))
    | no ne ↦
        let g = (container_alloc-Grows p s.memory v.settled).1 ne in
        elim (map_page_cases p va page perm with_page with_page-IsVm u (omega (arith, g.below))
          perm_small) [
            | inl (ok, origin) ↦ inl (
                rw (alloc_page_some ne ∙ outcome_ok (map_page p va page perm with_page) ok.err)
                  (alloc_page_ok (map_page p va page perm with_page) g ok origin))
            | inr bad ↦ inr (
                rw (alloc_page_some ne ∙ outcome_err (map_page p va page perm with_page) bad.err)
                  (record {
                    err = refl;
                    same_dirs = bad.same_dirs;
                    same_ram = bad.same_ram;
                    grows =
                        Grows_trans s.memory with_page.memory
                          (map_page p va page perm with_page).state.memory grown bad.grows;
                  }))
          ]
  ]
