-- ===== src/Traps/Fault.antt =====
-- A page fault of a process.
use storm_os.Base.{leb-true, update, ℕ, ◌≡◌, refl, ap, ◌⊎◌, inl, inr, false, arith}
use storm_os.Thread.Schedule.{get_current_id}
use storm_os.MemPhysical.Containers.{container_alloc}
use storm_os.MemVirtual.State.{Vm, pte_pwu, pde_index}
use storm_os.MemVirtual.Init.{set_page_directory}
use storm_os.MemVirtual.Tables.Invariant.{IsUser, IsVm, Granted}
use storm_os.MemVirtual.Tables.{alloc_page}
use storm_os.MemVirtual.Tables.MapPage.{Failed}
use storm_os.MemVirtual.Tables.Mapping.{Maps}
use storm_os.Interrupts.Handlers.{exception_handler, is_violation, t_pgflt}
use storm_os.Interrupts.Handlers.PageFault.{exception_handler_fault}
use storm_os.Kernel.{TrapFrame, Kernel, done, panics}
use storm_os.Traps.{handle_trap, trap_dispatch, t_secev}

-- When the page tables are well formed, a page fault of the current process, another one than
-- process 0, at a user address, that is no violation of a protection, returns to the frame that
-- faulted, with the process's own page directory, after the address was mapped to a page that was
-- available, readable and writable for the user, all other user addresses being as they were. It
-- panics only if AllocPage fails for the address.
pub handle_trap_fault :
    (dirs fault_va sys_buf : ℕ) (garbage : ℕ → ℕ) (tf : TrapFrame) (k : Kernel)
    → tf.trapno ≡ t_pgflt
    → is_violation tf.err ≡ false
    → IsVm k.vm
    → IsUser (get_current_id k.threads) (pde_index fault_va)
    → let id = get_current_id k.threads in
      let page = (container_alloc id k.vm.memory).0 in
      ((vm : Vm) × (handle_trap dirs fault_va sys_buf garbage tf k
          ≡ done (
            tf,
            record k {
              vm = vm;
              user_contexts = update k.user_contexts id tf;
              registers = set_page_directory dirs id k.registers;
            },
          ))
        × Maps k.vm id fault_va page pte_pwu vm
        × Granted k.vm.memory page vm.memory)
      ⊎ (Failed k.vm (alloc_page id fault_va pte_pwu k.vm)
          × (handle_trap dirs fault_va sys_buf garbage tf k ≡ panics))
unfolding handle_trap trap_dispatch set_page_directory
handle_trap_fault dirs fault_va sys_buf garbage tf k number fine v u =
    let id = get_current_id k.threads in
    let handler = ap (λ n. exception_handler n id tf.err fault_va k.vm) number in
    elim (exception_handler_fault id tf.err fault_va k.vm fine v u) [
      | inl (vm, e, maps, granted) ↦
          inl (vm, rw (leb-true tf.trapno t_secev (omega arith), handler, e) refl, maps, granted)
      | inr (failed, e) ↦
          inr (failed, rw (leb-true tf.trapno t_secev (omega arith), handler, e) refl)
    ]
