-- ===== src/Tests/Threads.antt =====
-- The thread queues and ThreadYield on three threads.
use storm_os.Base.{◌==◌, if◌then◌else◌, ℕ, ◌≡◌, refl, ◌≢◌, some, [], ◌∷◌, arith}
use storm_os.Thread.State.{ThreadState, ready, run, dead, Tcb, ThreadQueue, KernelContext, Threads}
use storm_os.Thread.Queue.{tq_remove}
use storm_os.Thread.Queue.Refine.{IsQueue}
use storm_os.Thread.Queue.Remove.{tq_remove-IsQueue}
use storm_os.Thread.Schedule.{thread_yield}
use storm_os.Thread.Schedule.RoundRobin.{IsCycle, yields, yields-rotate, thread_yield_switch}

abbrev context : KernelContext
context = record { esp = 0; edi = 0; esi = 0; ebx = 0; ebp = 0; eip = 0 }

abbrev tcb : ThreadState → ℕ → ℕ → Tcb
tcb st p n = record { state = st; prev = p; next = n }

-- Thread 1 runs, and threads 2, 3 and 5 are ready in this order.
abbrev tcb_at : ℕ → Tcb
tcb_at i =
    if i == 1
    then tcb run 64 64
    else if i == 2
    then tcb ready 64 3
    else if i == 3
    then tcb ready 2 5
    else if i == 5
    then tcb ready 3 64
    else tcb dead 64 64

abbrev queue_at : ℕ → ThreadQueue
queue_at q = if q == 64 then record { head = 2; tail = 5 } else record { head = 64; tail = 64 }

abbrev pub three_ready : Threads
three_ready = record {
  tcbs = tcb_at;
  thread_queues = queue_at;
  kernel_contexts = λ i. context;
  current_id = 1;
}

pub three_ready-IsQueue : IsQueue three_ready 64 (2 ∷ 3 ∷ 5 ∷ [])
three_ready-IsQueue = record {
  head_eq = refl;
  tail_eq = refl;
  links = (refl, refl, (refl, refl, (refl, refl, tt)));
  in_range = omega arith;
  distinct = (refl, (refl, (refl, tt)));
}

three_ready-IsCycle : IsCycle three_ready (1 ∷ 2 ∷ 3 ∷ 5 ∷ [])
three_ready-IsCycle = (
  refl,
  record {
    current_small = omega arith;
    runs = refl;
    queue = three_ready-IsQueue;
    not_queued = refl;
    waiting = λ a m. ground arith;
  },
)

tq_remove-IsQueue_example : IsQueue (tq_remove 64 3 three_ready) 64 (2 ∷ 5 ∷ [])
tq_remove-IsQueue_example = tq_remove-IsQueue three_ready 64 3 (2 ∷ []) (5 ∷ []) three_ready-IsQueue

yields-rotate_example : IsCycle (yields 2 three_ready) (3 ∷ 5 ∷ 1 ∷ 2 ∷ [])
yields-rotate_example = yields-rotate three_ready (1 ∷ 2 ∷ []) (3 ∷ 5 ∷ []) three_ready-IsCycle

thread_yield_switch_example :
    ((thread_yield three_ready).1 ≡ some (record { from = 2; to = 2 })) × ◌≢◌ {A = ℕ} 2 1
thread_yield_switch_example = thread_yield_switch three_ready 1 2 (3 ∷ 5 ∷ []) three_ready-IsCycle
