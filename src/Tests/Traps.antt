-- ===== src/Tests/Traps.antt =====
-- Traps of process 1, and the page tables when the kernel starts.
use storm_os.Base.{update, ◌≡◌, refl, ◌⊎◌, arith}
use storm_os.MemPhysical.Containers.{container_alloc}
use storm_os.MemVirtual.State.{Vm, pte_pwu}
use storm_os.MemVirtual.Init.{Registers, set_page_directory}
use storm_os.MemVirtual.Tables.{alloc_page}
use storm_os.MemVirtual.Tables.MapPage.{Failed}
use storm_os.MemVirtual.Tables.Invariant.{Granted}
use storm_os.MemVirtual.Tables.Mapping.{Maps}
use storm_os.Pic.{pic_eoi}
use storm_os.Kernel.{TrapFrame, Kernel, done, panics}
use storm_os.Traps.{handle_trap}
use storm_os.Traps.Irq.{handle_trap_irq}
use storm_os.Traps.Fault.{handle_trap_fault}
use storm_os.Tests.PageTables.{empty, empty-IsVm}
use storm_os.Tests.Calls.{frame, quiet}

abbrev start : Registers
start = record { cr0 = 1; cr3 = 0; cr4 = 0 }

abbrev tick : TrapFrame
tick = record (frame 0 0 0 0) { trapno = 32 }

handle_trap_irq_example :
    handle_trap 0x300000 0 0x100000 (λ i. 0) tick quiet
    ≡ done (
      tick,
      record quiet {
        user_contexts = update quiet.user_contexts 1 tick;
        registers = record { cr0 = 0; cr3 = 0x301000; cr4 = 0 };
        pic = pic_eoi quiet.pic;
      },
    )
unfolding set_page_directory
handle_trap_irq_example =
    handle_trap_irq 0x300000 0 0x100000 (λ i. 0) tick quiet (omega arith) (omega arith)

abbrev fault : TrapFrame
fault = record (frame 0 0 0 0) { trapno = 14; err = 6 }

abbrev unmapped : Kernel
unmapped = record quiet { vm = empty }

handle_trap_fault_example :
    let page = (container_alloc 1 empty.memory).0 in
    ((vm : Vm) × (handle_trap 0x300000 0x40003000 0x100000 (λ i. 0) fault unmapped
        ≡ done (
          fault,
          record unmapped {
            vm = vm;
            user_contexts = update unmapped.user_contexts 1 fault;
            registers = set_page_directory 0x300000 1 unmapped.registers;
          },
        ))
      × Maps empty 1 0x40003000 page pte_pwu vm
      × Granted empty.memory page vm.memory)
    ⊎ (Failed empty (alloc_page 1 0x40003000 pte_pwu empty)
        × (handle_trap 0x300000 0x40003000 0x100000 (λ i. 0) fault unmapped ≡ panics))
handle_trap_fault_example =
    handle_trap_fault 0x300000 0x40003000 0x100000 (λ i. 0) fault unmapped refl refl empty-IsVm
      (omega arith)
