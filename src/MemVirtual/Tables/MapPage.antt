-- ===== src/MemVirtual/Tables/MapPage.antt =====
-- MapPage: what it maps, what it returns, and how it fails.
use storm_os.Base.{
  ==_iff, ==_ne, ℕ, ◌+◌, ◌*◌, ◌/◌, ◌%◌, ◌^◌, ◌<◌, ◌≡◌, refl, ap, ◌∙◌, ◌≢◌, ◌⊎◌, inl, inr, true,
  false, arith,
}
use native.Mathlib.Decide.{ℕ_discrete}
use storm_os.MemPhysical.State.{available}
use storm_os.MemVirtual.Ram.{word}
use storm_os.MemVirtual.State.{Vm, pde_index}
use storm_os.MemVirtual.Tables.{Mapped, set_page_table_entry, alloc_page_table, map_page}
use storm_os.MemVirtual.Tables.Invariant.{Grows, IsUser, IsVm}
use storm_os.MemVirtual.Tables.Install.{Installed, alloc_page_table-Installed}
use storm_os.MemVirtual.Tables.Mapping.{
  Maps, written, written-reads, written-same, written-IsVm, installed-same, Installed-IsVm,
}

-- From `s` the call `m` failed without a change of any entry.
pub record Failed (s : Vm) (m : Mapped) : Type 0 where
  pub err : m.err ≡ true
  pub same_dirs : m.state.page_dir_entries ≡ s.page_dir_entries
  pub same_ram : m.state.ram ≡ s.ram
  pub grows : Grows s.memory m.state.memory

-- The table that the call `m` names was there, or its page was available.
abbrev pub Origin : Vm → ℕ → ℕ → Mapped → Type 0
Origin s p va m =
    ((s.page_dir_entries p (pde_index va) ≢ 0)
      × (m.result ≡ s.page_dir_entries p (pde_index va) / 4096))
    ⊎ (available s.memory.pages m.result ≡ true)

-- From `s` the call `m` mapped `page` at `va`, and returned the page of the table that holds the
-- entry.
pub record Succeeded (s : Vm) (p va page perm : ℕ) (m : Mapped) : Type 0 where
  pub err : m.err ≡ false
  pub maps : Maps s p va page perm m.state
  pub table : m.result ≡ m.state.page_dir_entries p (pde_index va) / 4096
  pub grows : Grows s.memory m.state.memory

module _ (p va page perm : ℕ) (s : Vm) (v : IsVm s) (u : IsUser p (pde_index va))
    (page_small : page < 2 ^ 20) (perm_small : perm < 4096) where
  abbrev entry : ℕ
  entry = (page * 4096 + perm) % word

  entry_eq : entry ≡ page * 4096 + perm
  entry_eq = omega arith

  -- the table is there
  map_page_present :
      s.page_dir_entries p (pde_index va) ≢ 0
      → map_page p va page perm s ≡ record {
        result = s.page_dir_entries p (pde_index va) / 4096;
        err = false;
        state = written s p va entry;
      }
  unfolding map_page set_page_table_entry
  map_page_present ne = rw (==_ne _ _ ne)

  -- the table is made
  map_page_installed :
      (t : ℕ) (s' : Vm)
      → s.page_dir_entries p (pde_index va) ≡ 0
      → alloc_page_table p va s ≡ (t, s')
      → t ≢ 0
      → map_page p va page perm s
        ≡ record { result = t; err = false; state = written s' p va entry }
  unfolding map_page set_page_table_entry
  map_page_installed t s' z e ne = rw ((==_iff _ _).1 z, e, ==_ne t 0 ne)

  map_page_full :
      (s' : Vm)
      → s.page_dir_entries p (pde_index va) ≡ 0
      → alloc_page_table p va s ≡ (0, s')
      → map_page p va page perm s ≡ record { result = 0; err = true; state = s' }
  unfolding map_page
  map_page_full s' z e = rw ((==_iff _ _).1 z, e)

  map_page_present-Succeeded :
      s.page_dir_entries p (pde_index va) ≢ 0
      → Succeeded s p va page perm (map_page p va page perm s)
  map_page_present-Succeeded ne = rw (map_page_present ne) (record {
    err = refl;
    maps = record {
      valid = written-IsVm s p va entry v u ne (omega arith);
      reads = written-reads s p va entry v u ne (omega arith) ∙ entry_eq;
      same = written-same s p va entry v u ne (omega arith);
    };
    table = refl;
    grows = record { settled = v.settled; keeps = λ x h. h };
  })

  map_page-Installed-Succeeded :
      s.page_dir_entries p (pde_index va) ≡ 0
      → (alloc_page_table p va s).0 ≢ 0
      → Installed s p (pde_index va) (alloc_page_table p va s).0 (alloc_page_table p va s).1
      → Succeeded s p va page perm (map_page p va page perm s)
  map_page-Installed-Succeeded z ne n =
      let t = (alloc_page_table p va s).0 in
      let s' = (alloc_page_table p va s).1 in
      let v' = Installed-IsVm s s' p (pde_index va) t v n in
      let nz : s'.page_dir_entries p (pde_index va) ≢ 0 = omega (arith, n.dir_at) in
      rw (map_page_installed t s' z refl ne) (record {
        err = refl;
        maps = record {
          valid = written-IsVm s' p va entry v' u nz (omega arith);
          reads = written-reads s' p va entry v' u nz (omega arith) ∙ entry_eq;
          same = λ q va' w other.
              written-same s' p va entry v' u nz (omega arith) q va' w other
              ∙ installed-same s s' p (pde_index va) t v n z q va' w;
        };
        table = omega (arith, n.dir_at);
        grows = n.grows;
      })

  -- MapPage either maps the page, or fails without a change of any entry.
  pub map_page_cases :
      (Succeeded s p va page perm (map_page p va page perm s)
        × Origin s p va (map_page p va page perm s))
      ⊎ Failed s (map_page p va page perm s)
  map_page_cases = elim (ℕ_discrete (s.page_dir_entries p (pde_index va)) 0) [
    | no ne ↦ inl (map_page_present-Succeeded ne, rw (map_page_present ne) (inl (ne, refl)))
    | yes z ↦ elim (alloc_page_table-Installed p va s v) [
      | inr (ne, n) ↦ inl (
        map_page-Installed-Succeeded z ne n,
        rw (map_page_installed (alloc_page_table p va s).0 (alloc_page_table p va s).1 z refl ne)
            (inr n.granted.was_available),
      )
      | inl (none_left, dirs, ram, grows) ↦ inr (
          rw (map_page_full (alloc_page_table p va s).1 z (Σ_pair none_left))
            (record { err = refl; same_dirs = dirs; same_ram = ram; grows = grows }))
    ]
  ]
    where
      Σ_pair :
          (alloc_page_table p va s).0 ≡ 0
          → alloc_page_table p va s ≡ (0, (alloc_page_table p va s).1)
      Σ_pair e = ap (λ (t : ℕ). (t, (alloc_page_table p va s).1)) e
