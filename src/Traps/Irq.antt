-- ===== src/Traps/Irq.antt =====
-- A trap of the hardware.
use storm_os.Base.{
  ◌==◌, if◌then◌else◌, leb-true, leb-false, update, update_self, ℕ, ◌+◌, ◌≤◌, ◌≡◌, ap, arith,
}
use storm_os.Thread.Schedule.{get_current_id}
use storm_os.MemVirtual.Init.{set_page_directory}
use storm_os.Interrupts.Handlers.{interrupt_handler, irq_timer, irq_spurious}
use storm_os.Pic.{Pic, pic_eoi, t_irq0}
use storm_os.Kernel.{TrapFrame, Kernel, done}
use storm_os.Traps.{handle_trap, trap_dispatch, irq_ide2, t_secev}

handled :
    (n : ℕ) (s : Pic)
    → interrupt_handler n s ≡ (if n == t_irq0 + irq_spurious then s else pic_eoi s)
unfolding interrupt_handler
handled n s = ground arith

-- An IRQ of a controller, a trap from 32 to 47, returns to the frame that it interrupted, with the
-- page directory of the interrupted process. The frame is saved, the end of the interrupt is
-- signalled unless the IRQ is the spurious one, and nothing else changes.
pub handle_trap_irq :
    (dirs fault_va sys_buf : ℕ) (garbage : ℕ → ℕ) (tf : TrapFrame) (k : Kernel)
    → t_irq0 + irq_timer ≤ tf.trapno
    → tf.trapno ≤ t_irq0 + irq_ide2
    → let id = get_current_id k.threads in
      handle_trap dirs fault_va sys_buf garbage tf k
      ≡ done (
        tf,
        record k {
          user_contexts = update k.user_contexts id tf;
          registers = record k.registers { cr3 = (set_page_directory dirs id k.registers).cr3 };
          pic = if tf.trapno == t_irq0 + irq_spurious then k.pic else pic_eoi k.pic;
        },
      )
unfolding handle_trap trap_dispatch set_page_directory
handle_trap_irq dirs fault_va sys_buf garbage tf k lo hi =
    rw
      (
        leb-false tf.trapno t_secev (omega arith),
        leb-true (t_irq0 + irq_timer) tf.trapno lo,
        leb-true tf.trapno (t_irq0 + irq_ide2) hi,
        update_self k.user_contexts (get_current_id k.threads) tf,
      )
      (ap
        (λ (p : Pic). done (
          tf,
          record k {
            user_contexts = update k.user_contexts (get_current_id k.threads) tf;
            registers = set_page_directory dirs (get_current_id k.threads) k.registers;
            pic = p;
          },
        ))
        (handled tf.trapno k.pic))
