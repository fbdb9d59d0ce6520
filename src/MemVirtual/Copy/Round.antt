-- ===== src/MemVirtual/Copy/Round.antt =====
-- One round of the loop of PTCopyIn.
use storm_os.Base.{ℕ, ◌+◌, ◌-◌, ◌%◌, ◌≤◌, ◌<◌, ◌≡◌, sym, ap, ◌∙◌, inl, inr, arith}
use storm_os.MemPhysical.State.{page_size}
use storm_os.MemVirtual.Ram.{word}
use storm_os.MemVirtual.State.{Vm, page_base, pde_index, pte_index}
use storm_os.MemVirtual.Tables.{get_page_table_entry_by_va, entry_addr}
use storm_os.MemVirtual.Copy.{mem_copy, chunk}
use mathlib.Core.Path.{subst}
use native.Mathlib.Decide.{dec_lt}
use storm_os.MemVirtual.Copy.Bytes.{
  Outside, mem_copy-outside, mem_copy-inside, physical, Source, same_bytes, physical-chunk, Copied,
}

-- A round of the loop.
module _ (s : Vm) (p uva kva len : ℕ) (source : Source s p uva kva len) (some_left : 0 < len) where
  abbrev pub pa : ℕ
  pa = physical s p uva

  abbrev pub size : ℕ
  size = chunk len pa

  abbrev pub after : Vm
  after = record s { ram = mem_copy kva pa size s.ram }

  pub size-le : (0 < size) × (size ≤ len)
  size-le = ground arith

  within : (a : ℕ) → Outside a kva len → Outside a kva size
  within a out = elim out [ inl l ↦ inl l | inr l ↦ inr (omega (arith, size-le)) ]

  later : (a : ℕ) → Outside a kva len → Outside a (kva + size) (len - size)
  later a out = elim out [ inl l ↦ inl (omega arith) | inr l ↦ inr (omega (arith, size-le)) ]

  entry-after :
      (i : ℕ)
      → i < len
      → get_page_table_entry_by_va p (uva + i) after ≡ get_page_table_entry_by_va p (uva + i) s
  entry-after i h = same_bytes p (uva + i) s (mem_copy kva pa size s.ram) (λ k hk.
      mem_copy-outside kva pa s.ram size
        (entry_addr p (pde_index (uva + i)) (pte_index (uva + i)) s + k)
        (within (entry_addr p (pde_index (uva + i)) (pte_index (uva + i)) s + k)
          (source.entries i k h hk)))

  physical-after : (i : ℕ) → i < len → physical after p (uva + i) ≡ physical s p (uva + i)
  physical-after i h = ap (λ e. (page_base e + (uva + i) % page_size) % word) (entry-after i h)

  assoc : (i : ℕ) → uva + size + i ≡ uva + (size + i)
  assoc i = omega arith

  physical-later :
      (i : ℕ) → size + i < len → physical after p (uva + size + i) ≡ physical s p (uva + (size + i))
  physical-later i lt = ap (physical after p) (assoc i) ∙ physical-after (size + i) lt

  -- The bytes of this round.
  moved : (i : ℕ) → i < size → after.ram (kva + i) ≡ s.ram (physical s p (uva + i))
  moved i h =
      mem_copy-inside kva pa s.ram size i
        (λ k hk.
          subst (λ a. Outside a kva size) (physical-chunk s p uva len k hk)
            (within (physical s p (uva + k)) (source.bytes k (omega (arith, hk, size-le)))))
        h
      ∙ ap s.ram (sym (physical-chunk s p uva len i h))

  -- The bytes that are left for the rounds after.
  unmoved : (i : ℕ) → i < len → after.ram (physical s p (uva + i)) ≡ s.ram (physical s p (uva + i))
  unmoved i h =
      mem_copy-outside kva pa s.ram size (physical s p (uva + i))
        (within (physical s p (uva + i)) (source.bytes i h))

  pub Source-after : Source after p (uva + size) (kva + size) (len - size)
  Source-after = record {
    present = λ i h.
        let lt : size + i < len = omega (arith, h, size-le) in
        ap (λ a. get_page_table_entry_by_va p a after % 2) (assoc i)
        ∙ ap (λ e. e % 2) (entry-after (size + i) lt)
        ∙ source.present (size + i) lt;
    entries = λ i k h hk.
        let lt : size + i < len = omega (arith, h, size-le) in
        subst
          (λ a.
            Outside (entry_addr p (pde_index a) (pte_index a) after + k) (kva + size) (len - size))
          (sym (assoc i))
          (later (entry_addr p (pde_index (uva + (size + i))) (pte_index (uva + (size + i))) s + k)
            (source.entries (size + i) k lt hk));
    bytes = λ i h.
        let lt : size + i < len = omega (arith, h, size-le) in
        subst (λ a. Outside a (kva + size) (len - size)) (sym (physical-later i lt))
          (later (physical s p (uva + (size + i))) (source.bytes (size + i) lt));
  }

  pub Copied-before :
      (t : Vm) → Copied after p (uva + size) (kva + size) (len - size) t → Copied s p uva kva len t
  Copied-before t c = record {
    bytes = λ i h. elim (dec_lt i size) [
      | yes now ↦ c.rest (kva + i) (inl (omega arith)) ∙ moved i now
      | no last ↦
          let j : ℕ = i - size in
          let lt : size + j < len = omega (arith, h, last) in
          let place : size + j ≡ i = omega (arith, last) in
          ap t.ram (omega (arith, last))
          ∙ c.bytes j (omega (arith, lt))
          ∙ ap after.ram (physical-later j lt)
          ∙ unmoved (size + j) lt
          ∙ ap (λ k. s.ram (physical s p (uva + k))) place
    ];
    rest = λ a out.
        c.rest a (omega (arith, out, size-le))
        ∙ mem_copy-outside kva pa s.ram size a (omega (arith, out, size-le));
    same_dirs = c.same_dirs;
    same_memory = c.same_memory;
  }
