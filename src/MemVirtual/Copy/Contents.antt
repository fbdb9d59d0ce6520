-- ===== src/MemVirtual/Copy/Contents.antt =====
-- What PTCopyIn copies.
use storm_os.Base.{
  ==_eq, ==_ne, ltb-false, leb-true, ℕ, zero, suc, ◌+◌, ◌-◌, ◌%◌, ◌≤◌, ◌<◌, ◌≡◌, refl, ap, ◌∙◌,
  some, arith,
}
use storm_os.MemPhysical.State.{mem_userlo, mem_userhi}
use storm_os.MemVirtual.Ram.{Ram, word}
use storm_os.MemVirtual.State.{Vm}
use storm_os.MemVirtual.Tables.{get_page_table_entry_by_va}
use storm_os.MemVirtual.Copy.{mem_copy, by_page, pt_copy_in}
use native.Mathlib.Decide.{ℕ_discrete}
use storm_os.MemVirtual.Copy.Bytes.{Source, user_address-present, Copied}
use storm_os.MemVirtual.Copy.Round.{size, after, size-le, Source-after, Copied-before}

Copied-nothing : (s : Vm) (p uva kva len : ℕ) → len ≡ 0 → Copied s p uva kva len s
Copied-nothing s p uva kva len z = record {
  bytes = λ i h. absurd (omega (arith, h, z));
  rest = λ a out. refl;
  same_dirs = refl;
  same_memory = refl;
}

abbrev copy_in : ℕ → ℕ → ℕ → Ram → Ram
copy_in pa kva size = mem_copy kva pa size

by_page-congr :
    (fuel p n : ℕ) (s : Vm) {u u' k k' c c' : ℕ}
    → u ≡ u'
    → k ≡ k'
    → c ≡ c'
    → by_page copy_in fuel p u k n c s ≡ by_page copy_in fuel p u' k' n c' s
by_page-congr fuel p n s {u} {u'} {k} {k'} {c} {c'} eu ek ec =
    ap (λ x. by_page copy_in fuel p x k n c s) eu
    ∙ ap (λ x. by_page copy_in fuel p u' x n c s) ek
    ∙ ap (λ x. by_page copy_in fuel p u' k' n x s) ec

-- A round on a page that is present.
by_page_round :
    (fuel p uva kva len copied : ℕ) (s : Vm) (source : Source s p uva kva len) (left : 0 < len)
    → let n = size s p uva kva len source left in
      by_page copy_in (suc fuel) p uva kva len copied s
      ≡ by_page copy_in fuel p
          ((uva + n) % word)
          ((kva + n) % word)
          (len - n)
          ((copied + n) % word)
          (after s p uva kva len source left)
unfolding by_page
by_page_round fuel p uva kva len copied s source left =
    let here : get_page_table_entry_by_va p uva s % 2 ≡ 1 =
      ap (λ a. get_page_table_entry_by_va p a s % 2) (omega arith) ∙ source.present 0 left in
    rw (==_ne len 0 (omega (arith, left)), user_address-present p uva s here) refl

-- The loop of PTCopyIn.
by_page-Copied :
    (fuel p uva kva len copied : ℕ) (s : Vm)
    → len ≤ fuel
    → copied + len < word
    → uva + len < word
    → kva + len < word
    → Source s p uva kva len
    → (t : Vm) × (by_page copy_in fuel p uva kva len copied s ≡ some (copied + len, t))
      × Copied s p uva kva len t
unfolding by_page
by_page-Copied zero p uva kva len copied s h small hu hk source =
    let none_left : len ≡ 0 = omega arith in
    (
      s,
      rw (==_eq len 0 none_left) (ap (λ n. some (n, s)) (omega arith)),
      Copied-nothing s p uva kva len none_left,
    )
by_page-Copied (suc fuel) p uva kva len copied s h small hu hk source = elim (ℕ_discrete len 0) [
  | yes z ↦ (
    s,
    rw (==_eq len 0 z) (ap (λ n. some (n, s)) (omega (arith, z))),
    Copied-nothing s p uva kva len z,
  )
  | no ne ↦
      let left : 0 < len = omega (arith, ne) in
      let n : ℕ = size s p uva kva len source left in
      let s' : Vm = after s p uva kva len source left in
      let (positive, le) = size-le s p uva kva len source left in
      let (t, e, copied_rest) =
        by_page-Copied fuel p (uva + n) (kva + n) (len - n) (copied + n) s'
          (omega (arith, positive)) (omega (arith, le)) (omega (arith, le)) (omega (arith, le))
          (Source-after s p uva kva len source left) in
      (
        t,
        by_page_round fuel p uva kva len copied s source left
            ∙ by_page-congr fuel p (len - n) s' (omega (arith, le)) (omega (arith, le))
                (omega (arith, le))
            ∙ e
            ∙ ap (λ k. some (k, t)) (omega (arith, le)),
        Copied-before s p uva kva len source left t copied_rest,
      )
]

-- If the range is a user range that is present, and the buffer ends below MEM_USERHI and overlaps
-- neither the range nor the page tables' entries for it, PTCopyIn ends, returns the length, has
-- copied each byte from the place that the page tables map its address to, and has changed nothing
-- outside of the buffer.
pub pt_copy_in-Copied :
    (p uva kva len : ℕ) (s : Vm)
    → mem_userlo ≤ uva
    → uva + len ≤ mem_userhi
    → kva + len ≤ mem_userhi
    → Source s p uva kva len
    → (t : Vm) × (pt_copy_in p uva kva len s ≡ some (len, t)) × Copied s p uva kva len t
unfolding pt_copy_in
pt_copy_in-Copied p uva kva len s lo hi fits source =
    let (t, e, copied) =
      by_page-Copied len p uva kva len 0 s (omega arith) (omega arith) (omega arith) (omega arith)
        source in
    (
      t,
      rw
          (
            leb-true mem_userlo uva lo,
            leb-true ((uva + len) % word) mem_userhi (omega arith),
            ltb-false mem_userhi ((kva + len) % word) (omega arith),
          )
          (e ∙ ap (λ k. some (k, t)) (omega arith)),
      copied,
    )
