-- ===== src/MemVirtual/Init/Identity.antt =====
-- The mappings that VirtualMemoryInit leaves.
use storm_os.Base.{
  ltb, ◌==◌, if◌then◌else◌, ==_eq, ==_ne, ltb-true, Bool-cases, update, for_upto, ℕ, zero, suc, ◌+◌,
  ◌*◌, ◌/◌, ◌%◌, ◌≤◌, ◌<◌, ◌≡◌, refl, sym, ap, ◌∙◌, inl, inr, not, ◌&&◌, arith,
}
use native.Mathlib.Decide.{ℕ_discrete}
use storm_os.MemVirtual.Ram.{Ram, word, load32}
use storm_os.MemPhysical.State.{page_size}
use storm_os.MemVirtual.State.{Vm, page_base, pde_index, pte_index, pte_pwu, num_tables}
use storm_os.MemVirtual.Tables.{
  get_page_table_entry_by_va, get_page_table_entry, remove_page_dir_entry,
}
use storm_os.MemVirtual.Tables.Invariant.{IsVm, IsSettled, IsUser}
use storm_os.MemVirtual.Init.{
  set_page_directory, enable_paging, Registers, is_user_dir, identity_perm, init_tables, init_entry,
  init_directory, init_directories, virtual_memory_init, set_page_dir_entry_identity,
}
use storm_os.MemVirtual.Init.Words.{init_tables-inside}
use storm_os.Thread.State.{max_procs}

-- What the second loop makes of directory entry `j` of process `i`.
abbrev pub initial_entry : ℕ → ℕ → ℕ → ℕ
initial_entry identity i j =
    if is_user_dir j && not (i == 0) then 0 else identity + j * 4096 + pte_pwu

row-split :
    (i n p j : ℕ) (v : ℕ → ℕ) (x y : ℕ)
    → x ≡ (if (p == i) && ltb j n then v j else y)
    → (if (p == i) && (j == n) then v n else x) ≡ (if (p == i) && ltb j (suc n) then v j else y)
row-split i n p j v x y e = elim (ℕ_discrete j n) [
  | yes same ↦ let last = ap v same in ground (arith, last)
  | no ne ↦ ground arith
]

module _ (identity : ℕ) where
  -- The first `n` rounds for process `i`.
  abbrev row : ℕ → ℕ → Vm → Vm
  row i n s = for_upto n (λ j s. init_entry identity i j s) s

  init_entry-dirs :
      (i j : ℕ) (s : Vm)
      → (init_entry identity i j s).page_dir_entries
        ≡ update s.page_dir_entries i (update (s.page_dir_entries i) j (initial_entry identity i j))
  unfolding init_entry remove_page_dir_entry set_page_dir_entry_identity
  init_entry-dirs i j s = ground arith

  init_entry-rest :
      (i j : ℕ) (s : Vm)
      → ((init_entry identity i j s).ram ≡ s.ram) × ((init_entry identity i j s).memory ≡ s.memory)
  unfolding init_entry remove_page_dir_entry set_page_dir_entry_identity
  init_entry-rest i j s = ground arith

  init_entry-at :
      (i n p j : ℕ) (s : Vm)
      → (init_entry identity i n s).page_dir_entries p j
        ≡ (if (p == i) && (j == n) then initial_entry identity i n else s.page_dir_entries p j)
  init_entry-at i n p j s = ap (λ (d : ℕ → ℕ → ℕ). d p j) (init_entry-dirs i n s) ∙ ground arith

  row-entry :
      (i n p j : ℕ) (s : Vm)
      → (row i n s).page_dir_entries p j
        ≡ (if (p == i) && ltb j n then initial_entry identity i j else s.page_dir_entries p j)
  unfolding for_upto
  row-entry i zero p j s = ground arith
  row-entry i (suc n) p j s =
      init_entry-at i n p j (row i n s)
      ∙ row-split i n p j (initial_entry identity i) _ _ (row-entry i n p j s)

  row-rest : (i n : ℕ) (s : Vm) → ((row i n s).ram ≡ s.ram) × ((row i n s).memory ≡ s.memory)
  unfolding for_upto
  row-rest i zero s = (refl, refl)
  row-rest i (suc n) s =
      let (ram, memory) = init_entry-rest i n (row i n s) in
      let (ram', memory') = row-rest i n s in (ram ∙ ram', memory ∙ memory')

  directory-entry :
      (i p j : ℕ) (s : Vm)
      → j < num_tables
      → (init_directory identity i s).page_dir_entries p j
        ≡ (if p == i then initial_entry identity i j else s.page_dir_entries p j)
  unfolding init_directory
  directory-entry i p j s hj =
      row-entry i num_tables p j s ∙ rw (ltb-true j num_tables hj) (ground arith)

  directory-rest :
      (i : ℕ) (s : Vm)
      → ((init_directory identity i s).ram ≡ s.ram)
        × ((init_directory identity i s).memory ≡ s.memory)
  unfolding init_directory
  directory-rest i s = row-rest i num_tables s

  -- The rounds for the first `n` processes.
  abbrev rows : ℕ → Vm → Vm
  rows n s = for_upto n (init_directory identity) s

  rows-entry :
      (n p j : ℕ) (s : Vm)
      → j < num_tables
      → (rows n s).page_dir_entries p j
        ≡ (if ltb p n then initial_entry identity p j else s.page_dir_entries p j)
  unfolding for_upto
  rows-entry zero p j s hj = ground arith
  rows-entry (suc n) p j s hj = elim (ℕ_discrete p n) [
    | yes e ↦
        directory-entry n p j (rows n s) hj
        ∙ rw (==_eq p n e, ltb-true p (suc n) (omega arith))
            (ap (λ i. initial_entry identity i j) (sym e))
    | no ne ↦
        directory-entry n p j (rows n s) hj
        ∙ rw (==_ne p n ne) (rows-entry n p j s hj ∙ ground arith)
  ]

  rows-rest : (n : ℕ) (s : Vm) → ((rows n s).ram ≡ s.ram) × ((rows n s).memory ≡ s.memory)
  unfolding for_upto
  rows-rest zero s = (refl, refl)
  rows-rest (suc n) s =
      let (ram, memory) = directory-rest n (rows n s) in
      let (ram', memory') = rows-rest n s in (ram ∙ ram', memory ∙ memory')

  directories-entry :
      (p j : ℕ) (s : Vm)
      → p < max_procs
      → j < num_tables
      → (init_directories identity s).page_dir_entries p j ≡ initial_entry identity p j
  unfolding init_directories
  directories-entry p j s hp hj = rows-entry max_procs p j s hj ∙ rw (ltb-true p max_procs hp) refl

  directories-rest :
      (s : Vm)
      → ((init_directories identity s).ram ≡ s.ram)
        × ((init_directories identity s).memory ≡ s.memory)
  unfolding init_directories
  directories-rest s = rows-rest max_procs s

  directory-at :
      (p va : ℕ) (s : Vm)
      → p < max_procs
      → va < word
      → (init_directories identity s).page_dir_entries p (pde_index va)
        ≡ initial_entry identity p (pde_index va)
  directory-at p va s hp hva = directories-entry p (pde_index va) s hp (omega arith)

  -- The word of an identity table that the directory entry leads to.
  table-at :
      (va : ℕ) (r : Ram)
      → identity % 4096 ≡ 0
      → identity + 1024 * 4096 ≤ word
      → va < word
      → load32
          (init_tables identity r)
          ((page_base (identity + pde_index va * page_size + pte_pwu) + pte_index va * 4) % word)
        ≡ va / 4096 * 4096 + identity_perm (pde_index va)
  table-at va r aligned fits hva =
      ap (load32 (init_tables identity r)) (omega arith)
      ∙ init_tables-inside identity (pde_index va) (pte_index va) r (omega arith) (omega arith)
      ∙ omega arith

  no_user : (p i : ℕ) (s : Vm) → IsUser p i → (init_directories identity s).page_dir_entries p i ≡ 0
  no_user p i s u = directories-entry p i s u.1 (omega arith) ∙ ground arith

pub virtual_memory_init_lem :
    (identity dirs : ℕ) (s : Vm) (r : Registers) (p va : ℕ)
    → identity % 4096 ≡ 0
    → identity + 1024 * 4096 ≤ word
    → p < max_procs
    → va < word
    → get_page_table_entry_by_va p va (virtual_memory_init identity dirs s r).0 ≡ (
        if is_user_dir (pde_index va) && not (p == 0)
        then 0
        else va / 4096 * 4096 + identity_perm (pde_index va))
unfolding virtual_memory_init get_page_table_entry_by_va get_page_table_entry
virtual_memory_init_lem identity dirs s r p va aligned fits hp hva =
    let start : Vm = record s { ram = init_tables identity s.ram } in
    let dir = directory-at identity p va start hp hva in
    let (same_ram, _) = directories-rest identity start in
    elim (Bool-cases (is_user_dir (pde_index va) && not (p == 0))) [
      | inl user ↦ rw (dir, user) refl
      | inr kernel ↦
          rw (dir, kernel, same_ram, table-at identity va s.ram aligned fits hva) (ground arith)
    ]

-- When no freed page is pending and the page that was allocated last is a user page,
-- VirtualMemoryInit establishes the invariant of the page tables: no process other than 0 has a
-- user page.
pub virtual_memory_init-IsVm :
    (identity dirs : ℕ) (s : Vm) (r : Registers)
    → IsSettled s.memory
    → IsVm (virtual_memory_init identity dirs s r).0
unfolding virtual_memory_init
virtual_memory_init-IsVm identity dirs s r settled =
    let start : Vm = record s { ram = init_tables identity s.ram } in
    let (_, same_memory) = directories-rest identity start in
    record {
      settled = rw same_memory settled;
      tables = λ p i u ne. absurd (ne (no_user identity p i start u));
      apart = λ p i q j u w ne nf h. absurd (ne (no_user identity p i start u));
    }

-- VirtualMemoryInit changes no page and no container, and loads the directory of process 0.
pub virtual_memory_init-memory :
    (identity dirs : ℕ) (s : Vm) (r : Registers)
    → ((virtual_memory_init identity dirs s r).0.memory ≡ s.memory)
      × ((virtual_memory_init identity dirs s r).1.cr3 ≡ dirs)
unfolding virtual_memory_init set_page_directory enable_paging
virtual_memory_init-memory identity dirs s r =
    ((directories-rest identity (record s { ram = init_tables identity s.ram })).1, omega arith)
