-- ===== src/MemVirtual/Tables/Entries.antt =====
-- Reads and writes of page table entries.
use storm_os.Base.{
  for_upto, ℕ, zero, suc, ◌+◌, ◌*◌, ◌/◌, ◌%◌, ◌≤◌, ◌<◌, ◌≡◌, refl, sym, ap, ◌∙◌, ◌≢◌, ◌⊎◌, inl, inr,
  arith,
}
use native.Mathlib.Decide.{dec_lt, ℕ_discrete}
use storm_os.MemVirtual.Ram.{word, load32-store32, load32-store32_apart}
use storm_os.MemVirtual.State.{Vm, page_base}
use storm_os.MemVirtual.Tables.{
  entry_addr, get_page_table_entry, store_entry, remove_page_table_entry, clear_entries,
}

-- Entries `k` of the table at `d` and `l` of the table at `e` are different words.
abbrev pub Apart : ℕ → ℕ → ℕ → ℕ → Type 0
Apart d k e l = (d / 4096 ≢ e / 4096) ⊎ (k ≢ l)

entries-Apart :
    (d k e l : ℕ)
    → d < word
    → e < word
    → k < 1024
    → l < 1024
    → Apart d k e l
    → ((page_base d + k * 4) % word + 4 ≤ (page_base e + l * 4) % word)
      ⊎ ((page_base e + l * 4) % word + 4 ≤ (page_base d + k * 4) % word)
entries-Apart d k e l hd he hk hl apart =
    elim (dec_lt (page_base d + k * 4) (page_base e + l * 4)) [
      | yes lt ↦ inl (omega arith)
      | no ge ↦ inr (elim apart [ inl ne ↦ omega arith | inr ne ↦ omega arith ])
    ]

-- A directory entry and an index of an entry in its table, both in range.
pub record InRange (s : Vm) (p i k : ℕ) : Type 0 where
  pub dir : s.page_dir_entries p i < word
  pub index : k < 1024

module _ (p i k v : ℕ) (s : Vm) where
  -- An entry reads back as it was written.
  pub get-store_entry : v < word → get_page_table_entry p i k (store_entry p i k v s) ≡ v
  unfolding get_page_table_entry
  get-store_entry h = load32-store32 s.ram (entry_addr p i k s) v h

  -- A write to one entry leaves every other one alone.
  pub get-store_entry-Apart :
      (q j l : ℕ)
      → InRange s p i k
      → InRange s q j l
      → Apart (s.page_dir_entries p i) k (s.page_dir_entries q j) l
      → get_page_table_entry q j l (store_entry p i k v s) ≡ get_page_table_entry q j l s
  unfolding get_page_table_entry
  get-store_entry-Apart q j l h g apart =
      load32-store32_apart s.ram (entry_addr p i k s) v (entry_addr q j l s) (
        entries-Apart (s.page_dir_entries p i) k (s.page_dir_entries q j) l h.dir g.dir h.index
          g.index apart)

module _ (p i : ℕ) (s : Vm) where
  pub dirs-clear_entries : (n : ℕ) → (clear_entries n p i s).page_dir_entries ≡ s.page_dir_entries
  unfolding clear_entries remove_page_table_entry for_upto
  dirs-clear_entries zero = refl
  dirs-clear_entries (suc n) = dirs-clear_entries n

  pub memory-clear_entries : (n : ℕ) → (clear_entries n p i s).memory ≡ s.memory
  unfolding clear_entries remove_page_table_entry for_upto
  memory-clear_entries zero = refl
  memory-clear_entries (suc n) = memory-clear_entries n

  dir-clear_entries :
      (n q j : ℕ) → (clear_entries n p i s).page_dir_entries q j ≡ s.page_dir_entries q j
  dir-clear_entries n q j = ap (λ (d : ℕ → ℕ → ℕ). d q j) (dirs-clear_entries n)

  InRange-clear_entries : (n q j l : ℕ) → InRange s q j l → InRange (clear_entries n p i s) q j l
  InRange-clear_entries n q j l h = record {
    dir = omega (arith, dir-clear_entries n q j, h.dir);
    index = h.index;
  }

  -- Clearing a table leaves the entries of every other table alone.
  pub get-clear_entries_apart :
      (n q j l : ℕ)
      → n ≤ 1024
      → InRange s p i 0
      → InRange s q j l
      → s.page_dir_entries p i / 4096 ≢ s.page_dir_entries q j / 4096
      → get_page_table_entry q j l (clear_entries n p i s) ≡ get_page_table_entry q j l s
  unfolding clear_entries remove_page_table_entry for_upto
  get-clear_entries_apart zero q j l h a b ne = refl
  get-clear_entries_apart (suc n) q j l h a b ne =
      get-store_entry-Apart p i n 0 (clear_entries n p i s) q j l
        (InRange-clear_entries n p i n (record { dir = a.dir; index = h }))
        (InRange-clear_entries n q j l b)
        (inl (omega (arith, dir-clear_entries n p i, dir-clear_entries n q j)))
      ∙ get-clear_entries_apart n q j l (omega arith) a b ne

  -- The entries of a cleared table are 0.
  pub get-clear_entries :
      (n l : ℕ)
      → n ≤ 1024
      → InRange s p i l
      → l < n
      → get_page_table_entry p i l (clear_entries n p i s) ≡ 0
  unfolding clear_entries remove_page_table_entry for_upto
  get-clear_entries zero l h a lt = absurd (omega arith)
  get-clear_entries (suc n) l h a lt = elim (ℕ_discrete l n) [
    | yes e ↦ rw e (get-store_entry p i n 0 (clear_entries n p i s) (omega arith))
    | no ne ↦
        get-store_entry-Apart p i n 0 (clear_entries n p i s) p i l
          (InRange-clear_entries n p i n (record { dir = a.dir; index = h }))
          (InRange-clear_entries n p i l a) (inr (λ e. ne (sym e)))
        ∙ get-clear_entries n l (omega arith) a (omega arith)
  ]
