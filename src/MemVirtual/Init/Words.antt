-- ===== src/MemVirtual/Init/Words.antt =====
-- The words of pageDirIdentity after its two loops.
use storm_os.Base.{
  for_upto, ℕ, zero, suc, ◌+◌, ◌*◌, ◌≤◌, ◌<◌, ◌≡◌, refl, ◌∙◌, ◌≢◌, ◌⊎◌, inl, inr, arith,
}
use native.Mathlib.Decide.{dec_lt, ℕ_discrete}
use storm_os.MemVirtual.Ram.{Ram, word, load32, load32-store32, load32-store32_apart}
use storm_os.MemVirtual.State.{num_tables}
use storm_os.MemVirtual.Init.{identity_perm, set_identity, init_table, init_tables}

-- Word `m` of the array at `base`.
abbrev pub word_at : ℕ → ℕ → Ram → ℕ
word_at base m r = load32 r (base + m * 4)

-- What the loops write to word `j` of table `i`.
abbrev pub identity_entry : ℕ → ℕ → ℕ
identity_entry i j = (i * 1024 + j) * 4096 + identity_perm i

identity_entry-lt : (i j : ℕ) → i < 1024 → j < 1024 → identity_entry i j < word
identity_entry-lt i j hi hj = ground arith

module _ (base : ℕ) where
  -- The first `n` rounds of the loop over a table.
  abbrev rounds : ℕ → ℕ → Ram → Ram
  rounds i n r = for_upto n (λ j r. set_identity base i j (identity_entry i j) r) r

  word_at-set_ne :
      (i j v m : ℕ) (r : Ram)
      → m ≢ i * 1024 + j
      → word_at base m (set_identity base i j v r) ≡ word_at base m r
  word_at-set_ne i j v m r ne =
      load32-store32_apart r (base + (i * 1024 + j) * 4) v (base + m * 4)
        (elim (dec_lt m (i * 1024 + j)) [
          | yes below ↦ inr (omega arith)
          | no above ↦ inl (omega (arith, above, ne))
        ])

  rounds-outside :
      (i n m : ℕ) (r : Ram)
      → (m < i * 1024) ⊎ (i * 1024 + n ≤ m)
      → word_at base m (rounds i n r) ≡ word_at base m r
  unfolding for_upto
  rounds-outside i zero m r out = refl
  rounds-outside i (suc n) m r out =
      word_at-set_ne i n (identity_entry i n) m (rounds i n r) (omega (arith, out))
      ∙ rounds-outside i n m r (elim out [ inl l ↦ inl l | inr l ↦ inr (omega arith) ])

  rounds-inside :
      (i n j : ℕ) (r : Ram)
      → i < 1024
      → n ≤ 1024
      → j < n
      → word_at base (i * 1024 + j) (rounds i n r) ≡ identity_entry i j
  unfolding for_upto
  rounds-inside i zero j r hi hn hj = absurd (omega arith)
  rounds-inside i (suc n) j r hi hn hj = elim (ℕ_discrete j n) [
    | yes e ↦ rw e (
        load32-store32 (rounds i n r) (base + (i * 1024 + n) * 4) (identity_entry i n)
          (identity_entry-lt i n hi (omega arith)))
    | no ne ↦
        word_at-set_ne i n (identity_entry i n) (i * 1024 + j) (rounds i n r) (omega arith)
        ∙ rounds-inside i n j r hi (omega arith) (omega arith)
  ]

  table-inside :
      (i j : ℕ) (r : Ram)
      → i < 1024
      → j < 1024
      → word_at base (i * 1024 + j) (init_table base i r) ≡ identity_entry i j
  unfolding init_table
  table-inside i j r hi hj = rounds-inside i num_tables j r hi (omega arith) hj

  table-outside :
      (i m : ℕ) (r : Ram)
      → (m < i * 1024) ⊎ (i * 1024 + 1024 ≤ m)
      → word_at base m (init_table base i r) ≡ word_at base m r
  unfolding init_table
  table-outside i m r out = rounds-outside i num_tables m r out

  tables-inside :
      (n i j : ℕ) (r : Ram)
      → n ≤ 1024
      → i < n
      → j < 1024
      → word_at base (i * 1024 + j) (for_upto n (init_table base) r) ≡ identity_entry i j
  unfolding for_upto
  tables-inside zero i j r hn hi hj = absurd (omega arith)
  tables-inside (suc n) i j r hn hi hj = elim (ℕ_discrete i n) [
    | yes e ↦ rw e (table-inside n j (for_upto n (init_table base) r) (omega arith) hj)
    | no ne ↦
        table-outside n (i * 1024 + j) (for_upto n (init_table base) r) (inl (omega arith))
        ∙ tables-inside n i j r (omega arith) (omega arith) hj
  ]

  -- The loops leave the entry of each page in its place.
  pub init_tables-inside :
      (i j : ℕ) (r : Ram)
      → i < 1024
      → j < 1024
      → word_at base (i * 1024 + j) (init_tables base r) ≡ identity_entry i j
  unfolding init_tables
  init_tables-inside i j r hi hj = tables-inside num_tables i j r (omega arith) hi hj
