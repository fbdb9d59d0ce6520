-- ===== src/MemVirtual/Copy/Length.antt =====
-- The copies end, and move as many bytes as they are asked to.
use storm_os.Base.{
  ltb, ==_eq, ==_ne, ltb-false, leb-true, Bool-cases, ℕ, zero, suc, ◌+◌, ◌-◌, ◌%◌, ◌^◌, ◌≤◌, ◌<◌,
  ◌≡◌, refl, ap, ◌∙◌, ◌≢◌, inl, inr, true, some, arith,
}
use storm_os.MemPhysical.State.{mem_userlo, mem_userhi, page_size}
use storm_os.MemVirtual.Ram.{Ram, word}
use storm_os.MemVirtual.State.{Vm, pte_pwu}
use storm_os.MemVirtual.Tables.{get_page_table_entry_by_va, get_page_table_entry, alloc_page}
use storm_os.MemVirtual.Tables.MapPage.{Failed}
use native.Mathlib.Decide.{ℕ_discrete}
use storm_os.MemVirtual.Copy.{
  mem_copy, mem_set, pt_mem_set, by_page, in_user_space, pt_copy_in, pt_copy_out, user_address,
  chunk,
}

chunk-cases : (len pa : ℕ) → len ≢ 0 → (0 < chunk len pa) × (chunk len pa ≤ len)
chunk-cases len pa ne = ground arith

-- `fuel` rounds are enough for as many bytes.
by_page-total :
    (move : ℕ → ℕ → ℕ → Ram → Ram) (fuel pmap_id uva kva len copied : ℕ) (s : Vm)
    → len ≤ fuel
    → copied + len < word
    → (t : Vm) × (by_page move fuel pmap_id uva kva len copied s ≡ some (copied + len, t))
unfolding by_page
by_page-total move zero pmap_id uva kva len copied s h small =
    (s, rw (==_eq len 0 (omega arith)) (ap (λ n. some (n, s)) (omega arith)))
by_page-total move (suc fuel) pmap_id uva kva len copied s h small = elim (ℕ_discrete len 0) [
  | yes z ↦ (s, rw (==_eq len 0 z) (ap (λ n. some (n, s)) (omega (arith, z))))
  | no ne ↦
      let pa = (user_address pmap_id uva s).0 in
      let found = (user_address pmap_id uva s).1 in
      let size = chunk len pa in
      let (positive, le) = chunk-cases len pa ne in
      let (t, e) =
        by_page-total move fuel pmap_id ((uva + size) % word) ((kva + size) % word) (len - size)
          ((copied + size) % word) (record found { ram = move pa kva size found.ram })
          (omega (arith, positive, le)) (omega (arith, le)) in
      (t, rw (==_ne len 0 ne) (e ∙ ap (λ n. some (n, t)) (omega (arith, le))))
]

module _ (move : ℕ → ℕ → ℕ → Ram → Ram) (pmap_id uva kva len : ℕ) (s : Vm)
    (small : len < word) where
  by_page-all : (t : Vm) × (by_page move len pmap_id uva kva len 0 s ≡ some (len, t))
  by_page-all =
      let (t, e) = by_page-total move len pmap_id uva kva len 0 s (omega arith) (omega arith) in
      (t, e ∙ ap (λ n. some (n, t)) (omega arith))

-- PTCopyOut ends.
pub pt_copy_out-total :
    (kva pmap_id uva len : ℕ) (s : Vm)
    → len < word
    → (n : ℕ) × (t : Vm) × (pt_copy_out kva pmap_id uva len s ≡ some (n, t))
unfolding pt_copy_out
pt_copy_out-total kva pmap_id uva len s small =
    let (t, e) = by_page-all (λ pa kva size. mem_copy pa kva size) pmap_id uva kva len s small in
    elim (Bool-cases (in_user_space uva len)) [
      | inr far ↦ (0, s, rw (far) refl)
      | inl ok ↦ elim (Bool-cases (ltb mem_userhi ((kva + len) % word))) [
        | inl high ↦ (0, s, rw (ok, high) refl)
        | inr low ↦ (len, t, rw (ok, low) e)
      ]
    ]

-- If the range tests are passed, PTCopyIn ends and returns the length that it was asked to copy.
pub pt_copy_in_lem :
    (pmap_id uva kva len : ℕ) (s : Vm)
    → len < word
    → in_user_space uva len ≡ true
    → (kva + len) % word ≤ mem_userhi
    → (t : Vm) × (pt_copy_in pmap_id uva kva len s ≡ some (len, t))
unfolding pt_copy_in
pt_copy_in_lem pmap_id uva kva len s small ok fits =
    let (t, e) = by_page-all (λ pa kva size. mem_copy kva pa size) pmap_id uva kva len s small in
    (t, rw ok (rw (ltb-false mem_userhi ((kva + len) % word) fits) e))

-- If the range tests are passed, PTCopyOut ends and returns the length that it was asked to copy.
pub pt_copy_out_lem :
    (pmap_id uva kva len : ℕ) (s : Vm)
    → len < word
    → in_user_space uva len ≡ true
    → (kva + len) % word ≤ mem_userhi
    → (t : Vm) × (pt_copy_out kva pmap_id uva len s ≡ some (len, t))
unfolding pt_copy_out
pt_copy_out_lem pmap_id uva kva len s small ok fits =
    let (t, e) = by_page-all (λ pa kva size. mem_copy pa kva size) pmap_id uva kva len s small in
    (t, rw ok (rw (ltb-false mem_userhi ((kva + len) % word) fits) e))

-- PTMemSet ends and returns the length that it was asked to set, for any range.
pub pt_mem_set_lem :
    (pmap_id va c len : ℕ) (s : Vm)
    → len < word
    → (t : Vm) × (pt_mem_set pmap_id va c len s ≡ some (len, t))
unfolding pt_mem_set
pt_mem_set_lem pmap_id va c len s small =
    by_page-all (λ pa kva size. mem_set pa (c % 2 ^ 8) size) pmap_id va 0 len s small

-- The range test of the copies adds with wrap-around: it accepts a range that runs past the end of
-- the address space, and up to 4 GB, if what is left behind the end is below MEM_USERHI.
pub in_user_space_wraps :
    (uva len : ℕ)
    → mem_userlo ≤ uva
    → uva < word
    → len < word
    → word ≤ uva + len
    → uva + len ≤ word + mem_userhi
    → in_user_space uva len ≡ true
in_user_space_wraps uva len lo hi small over left =
    rw (leb-true mem_userlo uva lo) (leb-true ((uva + len) % word) mem_userhi (omega arith))

same_entry :
    (p va : ℕ) (s t : Vm)
    → t.page_dir_entries ≡ s.page_dir_entries
    → t.ram ≡ s.ram
    → get_page_table_entry_by_va p va t ≡ get_page_table_entry_by_va p va s
unfolding get_page_table_entry_by_va get_page_table_entry
same_entry p va s t dirs same = rw dirs (rw same refl)

-- If no entry maps a user address and AllocPage fails, the copies take the address's offset in
-- its page for its physical address.
user_address-Failed :
    (pmap_id uva : ℕ) (s : Vm)
    → get_page_table_entry_by_va pmap_id uva s ≡ 0
    → Failed s (alloc_page pmap_id uva pte_pwu s)
    → (user_address pmap_id uva s).0 ≡ uva % page_size
unfolding user_address
user_address-Failed pmap_id uva s e failed =
    let after = (alloc_page pmap_id uva pte_pwu s).state in
    let unmapped = same_entry pmap_id uva s after failed.same_dirs failed.same_ram ∙ e in
    rw e (rw unmapped (omega arith))

by_page-none :
    (move : ℕ → ℕ → ℕ → Ram → Ram) (fuel pmap_id uva kva len copied : ℕ) (s : Vm)
    → len ≡ 0
    → by_page move fuel pmap_id uva kva len copied s ≡ some (copied, s)
unfolding by_page
by_page-none move zero pmap_id uva kva len copied s e = rw (==_eq len 0 e) refl
by_page-none move (suc fuel) pmap_id uva kva len copied s e = rw (==_eq len 0 e) refl

copied_in_page :
    (move : ℕ → ℕ → ℕ → Ram → Ram) (fuel pmap_id uva kva len : ℕ) (s : Vm)
    → 0 < len
    → len ≤ fuel
    → len < word
    → (user_address pmap_id uva s).0 + len ≤ page_size
    → by_page move fuel pmap_id uva kva len 0 s
      ≡ some (
        len,
        record ((user_address pmap_id uva s).1) {
          ram = move (user_address pmap_id uva s).0 kva len (user_address pmap_id uva s).1.ram;
        },
      )
unfolding by_page
copied_in_page move zero pmap_id uva kva len s positive h small inside = absurd (omega arith)
copied_in_page move (suc fuel) pmap_id uva kva len s positive h small inside =
    let pa = (user_address pmap_id uva s).0 in
    let found = (user_address pmap_id uva s).1 in
    let whole : chunk len pa ≡ len = ground arith in
    let after : Vm = record found { ram = move pa kva len found.ram } in
    rw (==_ne len 0 (omega arith), whole)
      (by_page-none move fuel pmap_id ((uva + len) % word) ((kva + len) % word) (len - len)
          ((0 + len) % word) after (omega arith)
        ∙ ap (λ n. some (n, after)) (omega arith))

-- When no entry maps the page of a user address and AllocPage fails, PTCopyOut of some bytes that
-- end in that page ignores the failure: it returns the whole length, and has written the bytes to
-- physical page 0, at the address's offset in its page.
pub pt_copy_out-Failed :
    (pmap_id uva kva len : ℕ) (s : Vm)
    → mem_userlo ≤ uva
    → uva + len ≤ mem_userhi
    → kva + len ≤ mem_userhi
    → 0 < len
    → uva % page_size + len ≤ page_size
    → get_page_table_entry_by_va pmap_id uva s ≡ 0
    → Failed s (alloc_page pmap_id uva pte_pwu s)
    → pt_copy_out kva pmap_id uva len s
      ≡ some (
        len,
        record ((alloc_page pmap_id uva pte_pwu s).state) {
          ram = mem_copy (uva % page_size) kva len s.ram;
        },
      )
unfolding pt_copy_out user_address
pt_copy_out-Failed pmap_id uva kva len s lo hi fits positive inside e failed =
    let after = (alloc_page pmap_id uva pte_pwu s).state in
    let pa : (user_address pmap_id uva s).0 ≡ uva % page_size =
      user_address-Failed pmap_id uva s e failed in
    let same : (user_address pmap_id uva s).1 ≡ after = rw e refl in
    rw
      (
        leb-true mem_userlo uva lo,
        leb-true ((uva + len) % word) mem_userhi (omega arith),
        ltb-false mem_userhi ((kva + len) % word) (omega arith),
        copied_in_page (λ pa kva size. mem_copy pa kva size) len pmap_id uva kva len s positive
            (omega arith) (omega arith) (omega (arith, pa)),
        pa,
        same,
        failed.same_ram,
      )
      refl
