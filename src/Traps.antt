-- ===== src/Traps.antt =====
-- HandleTrap of src/interrupt.c: from the trap frame that trap_main.S pushed to the one that
-- TrapReturn restores. The address of pageDirEntries and what GetCR2 reads are parameters.
pub mod Fault
pub mod Frames
pub mod Irq
use storm_os.Base.{leb, ◌==◌, if◌then◌else◌, update, ℕ, ◌+◌, ◌&&◌}
use storm_os.Thread.Schedule.{get_current_id}
use storm_os.MemVirtual.Init.{set_page_directory}
use storm_os.Interrupts.Handlers.{
  Handled, panic, handled, exception_handler, interrupt_handler, irq_timer,
}
use storm_os.Pic.{t_irq0}
use storm_os.Kernel.{TrapFrame, Kernel, Run, done, panics, ◌>>=◌}
use storm_os.Syscalls.{syscall_dispatch}

abbrev pub t_secev : ℕ
t_secev = 30

abbrev pub irq_ide2 : ℕ
irq_ide2 = 15

abbrev pub t_syscall : ℕ
t_syscall = 48

-- What an exception leaves of the kernel's state.
abbrev pub exception : Handled → Kernel → Run Kernel
exception (panic vm) k = panics
exception (handled vm) k = done (record k { vm = vm })

module _ (dirs fault_va sys_buf : ℕ) (garbage : ℕ → ℕ) where
  -- The branches over the trap number. The test `T_DIVIDE <= tf->trapno` always holds.
  unfoldable pub trap_dispatch : TrapFrame → Kernel → Run (TrapFrame × Kernel)
  trap_dispatch tf k =
      let pid = get_current_id k.threads in
      let type = (k.user_contexts pid).trapno in
      if leb tf.trapno t_secev
      then (exception (exception_handler tf.trapno pid tf.err fault_va k.vm) k >>= λ t.
          done (tf, t))
      else if leb (t_irq0 + irq_timer) tf.trapno && leb tf.trapno (t_irq0 + irq_ide2)
      then done (tf, record k { pic = interrupt_handler type k.pic })
      else if tf.trapno == t_syscall
      then syscall_dispatch sys_buf garbage tf k
      else done (tf, k)

  -- `userContexts[currentID] = *tf; SetPageDirectory(0);`
  abbrev pub enter : TrapFrame → Kernel → Kernel
  enter tf k = record k {
    user_contexts = update k.user_contexts (get_current_id k.threads) tf;
    registers = set_page_directory dirs 0 k.registers;
  }

  -- The frame that TrapReturn gets.
  unfoldable pub handle_trap : TrapFrame → Kernel → Run (TrapFrame × Kernel)
  handle_trap tf k =
      let current_id = get_current_id k.threads in
      trap_dispatch tf (enter tf k) >>= λ (r : TrapFrame × Kernel).
      done (r.0, record r.1 { registers = set_page_directory dirs current_id r.1.registers })
