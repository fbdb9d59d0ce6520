-- ===== src/MemVirtual/Tables/Install.antt =====
-- AllocPageTable: a new table is a fresh page, its entries are 0, and no other table changes.
use storm_os.Base.{
  ==_iff, ==_ne, ℕ, ◌+◌, ◌*◌, ◌/◌, ◌%◌, ◌^◌, ◌<◌, ◌≡◌, refl, ap, ◌∙◌, ◌≢◌, ◌⊎◌, inl, inr, arith,
}
use native.Mathlib.Decide.{ℕ_discrete}
use storm_os.MemPhysical.Containers.{container_alloc}
use storm_os.MemVirtual.Ram.{word}
use storm_os.MemVirtual.State.{Vm, set_dir, pde_index, num_tables}
use storm_os.MemVirtual.Tables.{
  set_page_dir_entry, clear_entries, alloc_page_table, get_page_table_entry,
}
use storm_os.MemVirtual.Tables.Entries.{
  InRange, dirs-clear_entries, memory-clear_entries, get-clear_entries, get-clear_entries_apart,
}
use storm_os.MemVirtual.Tables.Invariant.{Grows, Granted, container_alloc-Grows, IsVm}

-- another process or another directory index
abbrev pub Elsewhere : ℕ → ℕ → ℕ → ℕ → Type 0
Elsewhere p i q j = (q ≢ p) ⊎ (j ≢ i)

dir-set_dir :
    (p i v q j : ℕ) (s : Vm)
    → Elsewhere p i q j
    → (set_dir p i v s).page_dir_entries q j ≡ s.page_dir_entries q j
dir-set_dir p i v q j s away = ground arith

dir-set_dir_self : (p i v : ℕ) (s : Vm) → (set_dir p i v s).page_dir_entries p i ≡ v
dir-set_dir_self p i v s = ground arith

-- From `s` to `s'` the page `t` became the table of entry `i` of process `p`.
pub record Installed (s : Vm) (p i t : ℕ) (s' : Vm) : Type 0 where
  pub granted : Granted s.memory t s'.memory
  pub grows : Grows s.memory s'.memory
  pub dir_at : s'.page_dir_entries p i ≡ t * 4096 + 7
  pub dirs : (q j : ℕ) → Elsewhere p i q j → s'.page_dir_entries q j ≡ s.page_dir_entries q j
  pub cleared : (l : ℕ) → l < 1024 → get_page_table_entry p i l s' ≡ 0
  pub others :
      (q j l : ℕ)
      → Elsewhere p i q j
      → InRange s q j l
      → s.page_dir_entries q j / 4096 ≢ t
      → get_page_table_entry q j l s' ≡ get_page_table_entry q j l s

module _ (p i t : ℕ) (s : Vm) where
  abbrev dir_set : Vm
  dir_set = set_page_dir_entry p i t s

  abbrev installed : Vm
  installed = clear_entries num_tables p i dir_set

  dir-dir_set :
      (q j : ℕ) → Elsewhere p i q j → dir_set.page_dir_entries q j ≡ s.page_dir_entries q j
  unfolding set_page_dir_entry
  dir-dir_set q j away = dir-set_dir p i ((t * 4096 + 7) % word) q j s away

  dir-dir_set_self : t < 2 ^ 20 → dir_set.page_dir_entries p i ≡ t * 4096 + 7
  unfolding set_page_dir_entry
  dir-dir_set_self h = omega (arith, dir-set_dir_self p i ((t * 4096 + 7) % word) s)

  dir-installed : (q j : ℕ) → installed.page_dir_entries q j ≡ dir_set.page_dir_entries q j
  dir-installed q j = ap (λ (d : ℕ → ℕ → ℕ). d q j) (dirs-clear_entries p i dir_set num_tables)

  memory-installed : installed.memory ≡ s.memory
  unfolding set_page_dir_entry
  memory-installed = memory-clear_entries p i (set_page_dir_entry p i t s) num_tables

  get-dir_set :
      (q j l : ℕ)
      → Elsewhere p i q j
      → get_page_table_entry q j l dir_set ≡ get_page_table_entry q j l s
  unfolding get_page_table_entry set_page_dir_entry
  get-dir_set q j l away = rw (dir-set_dir p i ((t * 4096 + 7) % word) q j s away)

  installed-others :
      t < 2 ^ 20
      → (q j l : ℕ) → Elsewhere p i q j
      → InRange s q j l
      → s.page_dir_entries q j / 4096 ≢ t
      → get_page_table_entry q j l installed ≡ get_page_table_entry q j l s
  installed-others h q j l away r ne =
      get-clear_entries_apart p i dir_set num_tables q j l (omega arith)
        (record { dir = omega (arith, dir-dir_set_self h); index = omega arith })
        (record { dir = omega (arith, dir-dir_set q j away, r.dir); index = r.index })
        (omega (arith, dir-dir_set_self h, dir-dir_set q j away))
      ∙ get-dir_set q j l away

  installed-cleared : t < 2 ^ 20 → (l : ℕ) → l < 1024 → get_page_table_entry p i l installed ≡ 0
  installed-cleared h l small =
      get-clear_entries p i dir_set num_tables l (omega arith)
        (record { dir = omega (arith, dir-dir_set_self h); index = small }) small

module _ (p i : ℕ) (s : Vm) (v : IsVm s) where
  abbrev page : ℕ
  page = (container_alloc p s.memory).0

  abbrev charged_vm : Vm
  charged_vm = record s { memory = (container_alloc p s.memory).1 }

  get-charged : (q j l : ℕ) → get_page_table_entry q j l charged_vm ≡ get_page_table_entry q j l s
  unfolding get_page_table_entry
  get-charged q j l = refl

  installs : page ≢ 0 → Installed s p i page (installed p i page charged_vm)
  installs found =
      let (grown, when_found) = container_alloc-Grows p s.memory v.settled in
      let g = when_found found in
      let small : page < 2 ^ 20 = omega (arith, g.below) in
      let same = memory-installed p i page charged_vm in
      record {
        granted = rw same g;
        grows = rw same grown;
        dir_at = dir-installed p i page charged_vm p i ∙ dir-dir_set_self p i page charged_vm small;
        dirs = λ q j away.
            dir-installed p i page charged_vm q j ∙ dir-dir_set p i page charged_vm q j away;
        cleared = installed-cleared p i page charged_vm small;
        others = λ q j l away r ne.
            installed-others p i page charged_vm small q j l away
              (record { dir = r.dir; index = r.index }) ne
            ∙ get-charged q j l;
      }

-- When the page tables are well formed, AllocPageTable fails without a change of any entry, or
-- installs a table of zeros in a page that was available.
pub alloc_page_table-Installed :
    (p va : ℕ) (s : Vm)
    → IsVm s
    → let (t, s') = alloc_page_table p va s in
      ((t ≡ 0)
        × (s'.page_dir_entries ≡ s.page_dir_entries)
        × (s'.ram ≡ s.ram)
        × Grows s.memory s'.memory)
      ⊎ ((t ≢ 0) × Installed s p (pde_index va) t s')
unfolding alloc_page_table
alloc_page_table-Installed p va s v = elim (ℕ_discrete (container_alloc p s.memory).0 0) [
  | yes none_left ↦ inl (rw ((==_iff _ _).1 none_left) (none_left, refl, refl, grown))
  | no found ↦ inr (rw (==_ne _ _ found) (found, installs p (pde_index va) s v found))
]
  where
    grown : Grows s.memory (container_alloc p s.memory).1
    grown = (container_alloc-Grows p s.memory v.settled).0
