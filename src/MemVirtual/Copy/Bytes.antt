-- ===== src/MemVirtual/Copy/Bytes.antt =====
-- Which bytes PTCopyIn moves, from pages that are present.
use storm_os.Base.{
  ◌==◌, if◌then◌else◌, update, update_self, update_ne, for_upto, ℕ, zero, suc, ◌+◌, ◌%◌, ◌≤◌, ◌<◌,
  ◌≡◌, refl, sym, ap, ◌∙◌, ◌⊎◌, inl, inr, arith,
}
use storm_os.MemPhysical.State.{page_size}
use storm_os.MemVirtual.Ram.{Ram, word, load32}
use storm_os.MemVirtual.State.{Vm, page_base, pde_index, pte_index}
use storm_os.MemVirtual.Tables.{get_page_table_entry_by_va, get_page_table_entry, entry_addr}
use storm_os.MemVirtual.Copy.{mem_copy, user_address, chunk}
use native.Mathlib.Decide.{ℕ_discrete}

-- The address `a` lies outside of the `n` bytes from `b` on.
abbrev pub Outside : ℕ → ℕ → ℕ → Type 0
Outside a b n = (a < b) ⊎ (b + n ≤ a)

pub Outside-less : (a b n : ℕ) → Outside a b (suc n) → Outside a b n
Outside-less a b n out = elim out [ inl l ↦ inl l | inr l ↦ inr (omega arith) ]

module _ (dst src : ℕ) (r : Ram) where
  pub mem_copy-outside : (n a : ℕ) → Outside a dst n → mem_copy dst src n r a ≡ r a
  unfolding mem_copy for_upto
  mem_copy-outside zero a out = refl
  mem_copy-outside (suc n) a out =
      update_ne (mem_copy dst src n r) (dst + n) a (mem_copy dst src n r (src + n))
        (omega (arith, out))
      ∙ mem_copy-outside n a (Outside-less a dst n out)

  pub mem_copy-inside :
      (n i : ℕ)
      → ((k : ℕ) → k < n → Outside (src + k) dst n)
      → i < n
      → mem_copy dst src n r (dst + i) ≡ r (src + i)
  unfolding mem_copy for_upto
  mem_copy-inside zero i apart h = absurd (omega arith)
  mem_copy-inside (suc n) i apart h =
      let before = mem_copy dst src n r in
      elim (ℕ_discrete i n) [
        | yes e ↦
            ap (λ k. update before (dst + n) (before (src + n)) (dst + k)) e
            ∙ update_self before (dst + n) (before (src + n))
            ∙ mem_copy-outside n (src + n) (Outside-less (src + n) dst n (apart n (omega arith)))
            ∙ ap (λ k. r (src + k)) (sym e)
        | no ne ↦
            update_ne before (dst + n) (dst + i) (before (src + n)) (omega arith)
            ∙ mem_copy-inside n i (λ k hk. Outside-less (src + k) dst n (apart k (omega arith)))
                (omega arith)
      ]

-- The physical address that a user address is mapped to.
abbrev pub physical : Vm → ℕ → ℕ → ℕ
physical s p va = (page_base (get_page_table_entry_by_va p va s) + va % page_size) % word

-- The `len` bytes at user address `uva` are present, and the buffer of as many bytes at `kva` overlaps
-- neither them nor the entries of the page tables that map them.
pub record Source (s : Vm) (p uva kva len : ℕ) : Type 0 where
  pub present : (i : ℕ) → i < len → get_page_table_entry_by_va p (uva + i) s % 2 ≡ 1
  pub entries :
      (i k : ℕ)
      → i < len
      → k < 4
      → Outside (entry_addr p (pde_index (uva + i)) (pte_index (uva + i)) s + k) kva len
  pub bytes : (i : ℕ) → i < len → Outside (physical s p (uva + i)) kva len

-- Words whose bytes are the same are the same.
pub load32-congr :
    (a : ℕ) (r r' : Ram) → ((k : ℕ) → k < 4 → r (a + k) ≡ r' (a + k)) → load32 r a ≡ load32 r' a
unfolding load32
load32-congr a r r' same =
    let first : r a ≡ r' a = ap r (omega arith) ∙ same 0 (omega arith) ∙ ap r' (omega arith) in
    omega (arith, first, same 1 (omega arith), same 2 (omega arith), same 3 (omega arith))

-- An entry whose bytes are left alone reads as before.
pub same_bytes :
    (p va : ℕ) (s : Vm) (r : Ram)
    → ((k : ℕ)
        → k < 4
        → r (entry_addr p (pde_index va) (pte_index va) s + k)
          ≡ s.ram (entry_addr p (pde_index va) (pte_index va) s + k))
    → get_page_table_entry_by_va p va (record s { ram = r }) ≡ get_page_table_entry_by_va p va s
unfolding get_page_table_entry_by_va get_page_table_entry
same_bytes p va s r same =
    let word_eq = load32-congr (entry_addr p (pde_index va) (pte_index va) s) r s.ram same in
    ap (λ (v : ℕ). if s.page_dir_entries p (pde_index va) == 0 then 0 else v) word_eq

-- An entry depends on the indices of its address only.
pub same_indices :
    (p a b : ℕ) (s : Vm)
    → pde_index a ≡ pde_index b
    → pte_index a ≡ pte_index b
    → get_page_table_entry_by_va p a s ≡ get_page_table_entry_by_va p b s
unfolding get_page_table_entry_by_va
same_indices p a b s e f =
    let at : ℕ → ℕ → ℕ =
      λ i j. if s.page_dir_entries p i == 0 then 0 else get_page_table_entry p i j s in
    ap (λ i. at i (pte_index a)) e ∙ ap (at (pde_index b)) f

pub user_address-present :
    (p va : ℕ) (s : Vm)
    → get_page_table_entry_by_va p va s % 2 ≡ 1
    → user_address p va s ≡ (physical s p va, s)
unfolding user_address
user_address-present p va s h = rw h refl

-- Addresses of one page are mapped to one page.
pub physical-chunk :
    (s : Vm) (p va len i : ℕ)
    → i < chunk len (physical s p va)
    → physical s p (va + i) ≡ physical s p va + i
physical-chunk s p va len i h =
    let inside : va % 4096 + i < 4096 = ground arith in
    let same = same_indices p (va + i) va s (omega (arith, inside)) (omega (arith, inside)) in
    omega (arith, inside, same)

-- From `s` to `t` the bytes at user address `uva` were copied to `kva`, and nothing else changed.
pub record Copied (s : Vm) (p uva kva len : ℕ) (t : Vm) : Type 0 where
  pub bytes : (i : ℕ) → i < len → t.ram (kva + i) ≡ s.ram (physical s p (uva + i))
  pub rest : (a : ℕ) → Outside a kva len → t.ram a ≡ s.ram a
  pub same_dirs : t.page_dir_entries ≡ s.page_dir_entries
  pub same_memory : t.memory ≡ s.memory
