-- ===== src/Interrupts/Handlers/PageFault.antt =====
-- A page fault of the user.
use storm_os.Base.{ℕ, ◌≡◌, refl, ◌⊎◌, inl, inr, false, arith}
use storm_os.MemPhysical.Containers.{container_alloc}
use storm_os.MemVirtual.State.{Vm, pte_pwu, pde_index}
use storm_os.MemVirtual.Tables.{alloc_page}
use storm_os.MemVirtual.Tables.Invariant.{IsUser, IsVm, Granted}
use storm_os.MemVirtual.Tables.Mapping.{Maps}
use storm_os.MemVirtual.Tables.MapPage.{Failed}
use storm_os.MemVirtual.Tables.AllocPage.{alloc_page_cases}
use storm_os.Interrupts.Handlers.{
  panic, handled, exception_handler, page_fault_handler, is_violation, t_pgflt,
}

-- A page fault at a user address that is no violation of a protection either maps the address to
-- a page that was available, readable and writable for the user, and leaves all other user
-- addresses of all processes as they were, or AllocPage fails without a change of an entry and the
-- kernel panics.
pub exception_handler_fault :
    (pid errno va : ℕ) (s : Vm)
    → is_violation errno ≡ false
    → IsVm s
    → IsUser pid (pde_index va)
    → let page = (container_alloc pid s.memory).0 in
      ((t : Vm) × (exception_handler t_pgflt pid errno va s ≡ handled t)
        × Maps s pid va page pte_pwu t
        × Granted s.memory page t.memory)
      ⊎ (Failed s (alloc_page pid va pte_pwu s)
          × (exception_handler t_pgflt pid errno va s ≡ panic (alloc_page pid va pte_pwu s).state))
unfolding exception_handler page_fault_handler
exception_handler_fault pid errno va s fine v u =
    let after = (alloc_page pid va pte_pwu s).state in
    elim (alloc_page_cases pid va pte_pwu s v u (omega arith)) [
      | inl (granted, ok, table) ↦ inl (after, rw (fine, ok.err) refl, ok.maps, granted)
      | inr failed ↦ inr (failed, rw (fine, failed.err) refl)
    ]
