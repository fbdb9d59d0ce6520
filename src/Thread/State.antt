-- ===== src/Thread/State.antt =====
-- The data of src/thread.c: TCBs, queues, kernel contexts.
use storm_os.Base.{update, ℕ}

abbrev pub max_procs : ℕ
max_procs = 64

pub data ThreadState : Type 0 where
  ready run sleep dead : ThreadState

pub record Tcb : Type 0 where
  pub state : ThreadState
  pub prev : ℕ
  pub next : ℕ

pub record ThreadQueue : Type 0 where
  pub head : ℕ
  pub tail : ℕ

pub record KernelContext : Type 0 where
  pub esp : ℕ
  pub edi : ℕ
  pub esi : ℕ
  pub ebx : ℕ
  pub ebp : ℕ
  pub eip : ℕ

-- the globals of thread.c that its functions read and write
pub record Threads : Type 0 where
  pub tcbs : ℕ → Tcb
  pub thread_queues : ℕ → ThreadQueue
  pub kernel_contexts : ℕ → KernelContext
  pub current_id : ℕ

-- `tcbs[i].next = v` and the like, on the array
abbrev pub with_next : (ℕ → Tcb) → ℕ → ℕ → ℕ → Tcb
with_next f i v = update f i (record (f i) { next = v })

abbrev pub with_prev : (ℕ → Tcb) → ℕ → ℕ → ℕ → Tcb
with_prev f i v = update f i (record (f i) { prev = v })

abbrev pub with_state : (ℕ → Tcb) → ℕ → ThreadState → ℕ → Tcb
with_state f i v = update f i (record (f i) { state = v })

-- the same on the globals
abbrev pub set_next : ℕ → ℕ → Threads → Threads
set_next i v s = record s { tcbs = with_next s.tcbs i v }

abbrev pub set_prev : ℕ → ℕ → Threads → Threads
set_prev i v s = record s { tcbs = with_prev s.tcbs i v }

abbrev pub set_state : ℕ → ThreadState → Threads → Threads
set_state i v s = record s { tcbs = with_state s.tcbs i v }

abbrev pub set_head : ℕ → ℕ → Threads → Threads
set_head q v s = record s {
  thread_queues = update s.thread_queues q (record (s.thread_queues q) { head = v });
}

abbrev pub set_tail : ℕ → ℕ → Threads → Threads
set_tail q v s = record s {
  thread_queues = update s.thread_queues q (record (s.thread_queues q) { tail = v });
}
