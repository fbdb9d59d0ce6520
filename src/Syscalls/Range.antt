-- ===== src/Syscalls/Range.antt =====
-- User memory that the kernel's buffer does not overlap.
use mathlib.Core.Path.{subst}
use storm_os.Base.{
  ℕ, zero, suc, ◌+◌, ◌-◌, ◌%◌, ◌≤◌, ◌<◌, ◌≡◌, refl, sym, ap, ◌∙◌, inl, inr, List, [], ◌∷◌, ◌++◌,
  arith,
}
use storm_os.MemPhysical.State.{page_size}
use storm_os.MemVirtual.Ram.{Ram, word}
use storm_os.MemVirtual.State.{Vm, pde_index, pte_index, page_base}
use storm_os.MemVirtual.Tables.{get_page_table_entry_by_va, entry_addr}
use storm_os.MemVirtual.Copy.Bytes.{Outside, physical, Source, same_bytes}

-- The bytes of a user range.
unfoldable pub user_bytes : Vm → ℕ → ℕ → ℕ → List ℕ
user_bytes s p uva zero = []
user_bytes s p uva (suc n) = s.ram (physical s p uva) ∷ user_bytes s p (uva + 1) n

-- The range is present, and the page at `buf` overlaps neither it nor the entries that map it.
pub record UserRange (s : Vm) (p uva buf len : ℕ) : Type 0 where
  pub present : (i : ℕ) → i < len → get_page_table_entry_by_va p (uva + i) s % 2 ≡ 1
  pub entries :
      (i k : ℕ)
      → i < len
      → k < 4
      → Outside (entry_addr p (pde_index (uva + i)) (pte_index (uva + i)) s + k) buf page_size
  pub bytes : (i : ℕ) → i < len → Outside (physical s p (uva + i)) buf page_size

Outside-part : (a b m n : ℕ) → m ≤ n → Outside a b n → Outside a b m
Outside-part a b m n h out = elim out [ inl l ↦ inl l | inr l ↦ inr (omega arith) ]

pub UserRange-Source :
    (s : Vm) (p uva buf len n : ℕ)
    → n ≤ len
    → n ≤ page_size
    → UserRange s p uva buf len
    → Source s p uva buf n
UserRange-Source s p uva buf len n h small u = record {
  present = λ i hi. u.present i (omega arith);
  entries = λ i k hi hk.
      Outside-part (entry_addr p (pde_index (uva + i)) (pte_index (uva + i)) s + k) buf n page_size
        small (u.entries i k (omega arith) hk);
  bytes =
      λ i hi. Outside-part (physical s p (uva + i)) buf n page_size small (u.bytes i (omega arith));
}

pub UserRange-first :
    (s : Vm) (p uva buf len n : ℕ) → n ≤ len → UserRange s p uva buf len → UserRange s p uva buf n
UserRange-first s p uva buf len n h u = record {
  present = λ i hi. u.present i (omega arith);
  entries = λ i k hi hk. u.entries i k (omega arith) hk;
  bytes = λ i hi. u.bytes i (omega arith);
}

pub UserRange-later :
    (s : Vm) (p uva buf len n : ℕ)
    → n ≤ len
    → UserRange s p uva buf len
    → UserRange s p (uva + n) buf (len - n)
UserRange-later s p uva buf len n h u = record {
  present = λ i hi.
      subst (λ a. get_page_table_entry_by_va p a s % 2 ≡ 1) (place i)
        (u.present (n + i) (omega arith));
  entries = λ i k hi hk.
      subst (λ a. Outside (entry_addr p (pde_index a) (pte_index a) s + k) buf page_size) (place i)
        (u.entries (n + i) k (omega arith) hk);
  bytes = λ i hi.
      subst (λ a. Outside (physical s p a) buf page_size) (place i) (u.bytes (n + i) (omega arith));
}
  where
    place : (i : ℕ) → uva + (n + i) ≡ uva + n + i
    place i = omega arith

-- A change inside of the buffer.
module _ (s : Vm) (p uva buf len : ℕ) (u : UserRange s p uva buf len) (r : Ram)
    (same : (a : ℕ) → Outside a buf page_size → r a ≡ s.ram a) where
  entry_same :
      (i : ℕ)
      → i < len
      → get_page_table_entry_by_va p (uva + i) (record s { ram = r })
        ≡ get_page_table_entry_by_va p (uva + i) s
  entry_same i h = same_bytes p (uva + i) s r (λ k hk.
      same (entry_addr p (pde_index (uva + i)) (pte_index (uva + i)) s + k) (u.entries i k h hk))

  physical_same :
      (i : ℕ) → i < len → physical (record s { ram = r }) p (uva + i) ≡ physical s p (uva + i)
  physical_same i h = ap (λ e. (page_base e + (uva + i) % page_size) % word) (entry_same i h)

  pub UserRange-changed : UserRange (record s { ram = r }) p uva buf len
  UserRange-changed = record {
    present = λ i h. ap (λ e. e % 2) (entry_same i h) ∙ u.present i h;
    entries = λ i k h hk. u.entries i k h hk;
    bytes = λ i h. subst (λ a. Outside a buf page_size) (sym (physical_same i h)) (u.bytes i h);
  }

pub user_bytes_changed :
    (n : ℕ) (s : Vm) (p uva buf len : ℕ)
    → n ≤ len
    → UserRange s p uva buf len
    → (r : Ram) → ((a : ℕ) → Outside a buf page_size → r a ≡ s.ram a)
    → user_bytes (record s { ram = r }) p uva n ≡ user_bytes s p uva n
unfolding user_bytes
user_bytes_changed zero s p uva buf len h u r same = refl
user_bytes_changed (suc n) s p uva buf len h u r same =
    let s' : Vm = record s { ram = r } in
    let start : uva ≡ uva + 0 = omega arith in
    let place : physical s' p uva ≡ physical s p uva =
      ap (physical s' p) start
      ∙ physical_same s p uva buf len u r same 0 (omega arith)
      ∙ ap (physical s p) (sym start) in
    let apart : Outside (physical s p uva) buf page_size =
      subst (λ a. Outside (physical s p a) buf page_size) (sym start) (u.bytes 0 (omega arith)) in
    ap (λ x. x ∷ user_bytes s' p (uva + 1) n) (ap r place ∙ same (physical s p uva) apart)
    ∙ ap (λ xs. s.ram (physical s p uva) ∷ xs)
        (user_bytes_changed n s p (uva + 1) buf (len - 1) (omega arith)
          (UserRange-later s p uva buf len 1 (omega arith) u) r same)

pub user_bytes-append :
    (n m : ℕ) (s : Vm) (p uva : ℕ)
    → user_bytes s p uva (n + m) ≡ user_bytes s p uva n ++ user_bytes s p (uva + n) m
unfolding user_bytes
user_bytes-append zero m s p uva =
    ap (λ n. user_bytes s p uva n) (omega arith) ∙ ap (λ a. user_bytes s p a m) (omega arith)
user_bytes-append (suc n) m s p uva =
    let count : suc n + m ≡ suc (n + m) = omega arith in
    let place : uva + 1 + n ≡ uva + suc n = omega arith in
    ap (λ k. user_bytes s p uva k) count
    ∙ ap (λ xs. s.ram (physical s p uva) ∷ xs)
        (user_bytes-append n m s p (uva + 1)
          ∙ ap (λ a. user_bytes s p (uva + 1) n ++ user_bytes s p a m) place)
