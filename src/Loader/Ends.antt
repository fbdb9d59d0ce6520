-- ===== src/Loader/Ends.antt =====
-- ELFLoad of a segment ends.
use storm_os.Base.{◌==◌, if◌then◌else◌, ℕ, ◌+◌, ◌/◌, ◌%◌, ◌≤◌, ◌<◌, ◌≡◌, ◌⊎◌, true}
use storm_os.MemPhysical.State.{page_size}
use storm_os.MemVirtual.State.{Vm, pte_p, pte_u, pte_w}
use storm_os.MemVirtual.Tables.{alloc_page}
use storm_os.Kernel.{Run, done, panics}
use storm_os.Loader.{ProgHdr}

-- AllocPage refused some page between two addresses.
pub record Refused (pid perm lo hi : ℕ) : Type 0 where
  pub va : ℕ
  pub state : Vm
  pub aligned : va % page_size ≡ 0
  pub from : lo ≤ va
  pub below : va < hi
  pub err : (alloc_page pid va perm state).err ≡ true

-- The call returns, or it panics and some page between the addresses was refused.
abbrev pub Loads : ℕ → ℕ → ℕ → ℕ → Run Vm → Type 0
Loads pid perm lo hi r = ((t : Vm) × (r ≡ done t)) ⊎ ((r ≡ panics) × Refused pid perm lo hi)

-- The permissions of a segment's pages.
abbrev pub segment_perm : ProgHdr → ℕ
segment_perm ph = if ph.p_flags / 2 % 2 == 0 then pte_u + pte_p else pte_u + pte_p + pte_w
