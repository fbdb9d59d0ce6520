-- ===== src/Interrupts/Handlers.antt =====
-- PageFaultHandler, ExceptionHandler and InterruptHandler of src/interrupt.c.
pub mod PageFault
use storm_os.Base.{◌==◌, if◌then◌else◌, ℕ, ◌+◌, ◌%◌, Bool}
use storm_os.Pic.{Pic, pic_eoi, t_irq0}
use storm_os.MemVirtual.State.{Vm, pte_pwu}
use storm_os.MemVirtual.Tables.{alloc_page}

-- KERNEL_PANIC does not return.
pub data Handled : Type 0 where
  panic : Vm → Handled
  handled : Vm → Handled

-- `errno & PGFLT_PROT_VIOL`
abbrev pub is_violation : ℕ → Bool
is_violation errno = errno % 2 == 1

-- `fault_va` is what GetCR2 reads, `pid` the current thread.
unfoldable pub page_fault_handler : ℕ → ℕ → ℕ → Vm → Handled
page_fault_handler pid errno fault_va s =
    let mapped = alloc_page pid fault_va pte_pwu s in
    if is_violation errno
    then panic s
    else if mapped.err
    then panic mapped.state
    else handled mapped.state

abbrev pub t_pgflt : ℕ
t_pgflt = 14

unfoldable pub exception_handler : ℕ → ℕ → ℕ → ℕ → Vm → Handled
exception_handler trapno pid errno fault_va s =
    let fault = page_fault_handler pid errno fault_va s in
    if trapno == t_pgflt then fault else handled s

abbrev pub irq_timer : ℕ
irq_timer = 0

abbrev pub irq_spurious : ℕ
irq_spurious = 7

-- `type` is the trap number of the current thread's context.
unfoldable pub interrupt_handler : ℕ → Pic → Pic
interrupt_handler type s =
    if type == t_irq0 + irq_timer
    then pic_eoi s
    else if type == t_irq0 + irq_spurious
    then s
    else pic_eoi s
