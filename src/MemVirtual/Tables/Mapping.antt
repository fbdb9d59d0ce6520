-- ===== src/MemVirtual/Tables/Mapping.antt =====
-- MapPage and AllocPage: the page is found at its address, and no other address is mapped otherwise.
use storm_os.Base.{
  ==_iff, ==_ne, ℕ, ◌+◌, ◌*◌, ◌/◌, ◌<◌, ◌≡◌, sym, ap, ◌∙◌, ◌≢◌, ◌⊎◌, inl, inr, true, arith,
}
use native.Mathlib.Decide.{ℕ_discrete}
use mathlib.Core.Path.{ap₂}
use storm_os.MemPhysical.State.{Memory, available}
use storm_os.MemVirtual.Ram.{word}
use storm_os.MemVirtual.State.{Vm, pde_index, pte_index}
use storm_os.MemVirtual.Tables.{store_entry, get_page_table_entry_by_va}
use storm_os.MemVirtual.Tables.Entries.{Apart, InRange, get-store_entry, get-store_entry-Apart}
use storm_os.MemVirtual.Tables.Invariant.{IsUser, IsTable, IsVm, IsTable-Grows}
use storm_os.MemVirtual.Tables.Install.{Elsewhere, Installed}

here_or_Elsewhere : (p i q j : ℕ) → ((q ≡ p) × (j ≡ i)) ⊎ Elsewhere p i q j
here_or_Elsewhere p i q j = elim (ℕ_discrete q p) [
  | no ne ↦ inr (inl ne)
  | yes e ↦ elim (ℕ_discrete j i) [ no ne ↦ inr (inr ne) | yes e' ↦ inl (e, e') ]
]

-- A page that is available is no table.
pub table-ne-available :
    (m : Memory) (d t : ℕ) → IsTable m d → available m.pages t ≡ true → d / 4096 ≢ t
table-ne-available m d t is av e =
    let taken : (m.pages t).allocated ≡ true =
      ap (λ (k : ℕ). (m.pages k).allocated) (sym e) ∙ is.taken in
    absurd (ground arith)

module _ (s s' : Vm) (p i t : ℕ) (v : IsVm s) (n : Installed s p i t s') where
  IsTable-here : IsTable s'.memory (s'.page_dir_entries p i)
  IsTable-here =
      let page : s'.page_dir_entries p i / 4096 ≡ t = omega (arith, n.dir_at) in
      record {
        flags = omega (arith, n.dir_at);
        above = omega (arith, page, n.granted.above);
        below = omega (arith, page, n.granted.below);
        taken = rw page n.granted.marked;
      }

  old_nonzero :
      (q j : ℕ) → Elsewhere p i q j → s'.page_dir_entries q j ≢ 0 → s.page_dir_entries q j ≢ 0
  old_nonzero q j away ne z = ne (n.dirs q j away ∙ z)

  not_the_new :
      (q j : ℕ)
      → Elsewhere p i q j
      → IsUser q j
      → s'.page_dir_entries q j ≢ 0
      → s'.page_dir_entries q j / 4096 ≢ s'.page_dir_entries p i / 4096
  not_the_new q j away u ne same =
      table-ne-available s.memory (s.page_dir_entries q j) t
        (v.tables q j u (old_nonzero q j away ne)) n.granted.was_available
        (omega (arith, n.dirs q j away, n.dir_at, same))

  apart_after :
      (a b c d : ℕ)
      → IsUser a b
      → IsUser c d
      → s'.page_dir_entries a b ≢ 0
      → s'.page_dir_entries c d ≢ 0
      → s'.page_dir_entries a b / 4096 ≡ s'.page_dir_entries c d / 4096
      → (a ≡ c) × (b ≡ d)
  apart_after a b c d ua uc na nc same = elim (here_or_Elsewhere p i a b) [
    | inl (e, e') ↦ elim (here_or_Elsewhere p i c d) [
      | inl (f, f') ↦ (e ∙ sym f, e' ∙ sym f')
      | inr away ↦
          absurd (
            not_the_new c d away uc nc
              (sym same ∙ ap₂ (λ x y. s'.page_dir_entries x y / 4096) e e'))
    ]
    | inr away ↦ elim (here_or_Elsewhere p i c d) [
      | inl (f, f') ↦
          absurd
            (not_the_new a b away ua na (same ∙ ap₂ (λ x y. s'.page_dir_entries x y / 4096) f f'))
      | inr away' ↦
          v.apart a b c d ua uc (old_nonzero a b away na) (old_nonzero c d away' nc)
            (omega (arith, n.dirs a b away, n.dirs c d away', same))
    ]
  ]

  pub Installed-IsVm : IsVm s'
  Installed-IsVm = record {
    settled = n.grows.settled;
    tables = λ q j u ne. elim (here_or_Elsewhere p i q j) [
      | inl (a, b) ↦ rw (a, b) IsTable-here
      | inr away ↦ rw (n.dirs q j away) (
          IsTable-Grows (s.page_dir_entries q j) n.grows (v.tables q j u (old_nonzero q j away ne)))
    ];
    apart = λ a b c d ua uc na nc same. apart_after a b c d ua uc na nc same;
  }

-- An address of process `q` in another page than the page of `va` in process `p`.
abbrev pub OtherPage : ℕ → ℕ → ℕ → ℕ → Type 0
OtherPage p va q va' = (q ≢ p) ⊎ (va' / 4096 ≢ va / 4096)

-- From `s` to `s'` the page at `va` of process `p` was mapped to `page`: the address reads back the
-- entry, and every user address in another page reads back as before.
pub record Maps (s : Vm) (p va page perm : ℕ) (s' : Vm) : Type 0 where
  pub valid : IsVm s'
  pub reads : get_page_table_entry_by_va p va s' ≡ page * 4096 + perm
  pub same :
      (q va' : ℕ)
      → IsUser q (pde_index va')
      → OtherPage p va q va'
      → get_page_table_entry_by_va q va' s' ≡ get_page_table_entry_by_va q va' s

-- The state after a write to the entry of `va`.
abbrev pub written : Vm → ℕ → ℕ → ℕ → Vm
written s p va v = store_entry p (pde_index va) (pte_index va) v s

module _ (s : Vm) (p va v : ℕ) (inv : IsVm s) (u : IsUser p (pde_index va))
    (nz : s.page_dir_entries p (pde_index va) ≢ 0) (small : v < word) where
  pub written-reads : get_page_table_entry_by_va p va (written s p va v) ≡ v
  unfolding get_page_table_entry_by_va
  written-reads = rw (==_ne _ _ nz) (get-store_entry p (pde_index va) (pte_index va) v s small)

  in_range :
      (q va' : ℕ)
      → IsUser q (pde_index va')
      → s.page_dir_entries q (pde_index va') ≢ 0
      → InRange s q (pde_index va') (pte_index va')
  in_range q va' w ne = record {
    dir = omega (arith, inv.tables q (pde_index va') w ne);
    index = omega arith;
  }

  entries_differ :
      (q va' : ℕ)
      → IsUser q (pde_index va')
      → s.page_dir_entries q (pde_index va') ≢ 0
      → OtherPage p va q va'
      → Apart
          (s.page_dir_entries p (pde_index va))
          (pte_index va)
          (s.page_dir_entries q (pde_index va'))
          (pte_index va')
  entries_differ q va' w ne other = elim (ℕ_discrete (pte_index va) (pte_index va')) [
    | no differ ↦ inr differ
    | yes pte ↦ inl λ base.
        let (p_eq, pde) = inv.apart p (pde_index va) q (pde_index va') u w nz ne base in
        elim other [ inl q_ne ↦ q_ne (sym p_eq) | inr page_ne ↦ page_ne (omega (arith, pde, pte)) ]
  ]

  pub written-same :
      (q va' : ℕ)
      → IsUser q (pde_index va')
      → OtherPage p va q va'
      → get_page_table_entry_by_va q va' (written s p va v) ≡ get_page_table_entry_by_va q va' s
  unfolding get_page_table_entry_by_va
  written-same q va' w other = elim (ℕ_discrete (s.page_dir_entries q (pde_index va')) 0) [
    | yes z ↦ rw ((==_iff _ _).1 z)
    | no ne ↦ rw (==_ne _ _ ne) (
        get-store_entry-Apart p (pde_index va) (pte_index va) v s q (pde_index va') (pte_index va')
          (in_range p va u nz) (in_range q va' w ne) (entries_differ q va' w ne other))
  ]

  pub written-IsVm : IsVm (written s p va v)
  written-IsVm = record { settled = inv.settled; tables = inv.tables; apart = inv.apart }

-- A new table maps nothing, and the old tables map what they did.
module _ (s s' : Vm) (p i t : ℕ) (v : IsVm s) (n : Installed s p i t s')
    (zero_before : s.page_dir_entries p i ≡ 0) where
  pub installed-same :
      (q va' : ℕ)
      → IsUser q (pde_index va')
      → get_page_table_entry_by_va q va' s' ≡ get_page_table_entry_by_va q va' s
  unfolding get_page_table_entry_by_va
  installed-same q va' w = elim (here_or_Elsewhere p i q (pde_index va')) [
    | inl (a, b) ↦
        rw (a, b, zero_before, ==_ne (s'.page_dir_entries p i) 0 (omega (arith, n.dir_at)))
          (n.cleared (pte_index va') (omega arith))
    | inr away ↦ elim (ℕ_discrete (s.page_dir_entries q (pde_index va')) 0) [
      | yes z ↦ rw (n.dirs q (pde_index va') away, (==_iff _ _).1 z)
      | no ne ↦
          let is = v.tables q (pde_index va') w ne in
          rw (n.dirs q (pde_index va') away, ==_ne _ _ ne)
            (n.others q (pde_index va') (pte_index va') away
              (record { dir = omega (arith, is.below); index = omega arith })
              (table-ne-available s.memory (s.page_dir_entries q (pde_index va')) t is
                n.granted.was_available))
    ]
  ]
