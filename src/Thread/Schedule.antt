-- ===== src/Thread/Schedule.antt =====
-- ThreadInit, GetCurrentID, ThreadYield and ForceRunProcess of src/thread.c. Queue MAX_PROCS is the
-- ready queue.
pub mod RoundRobin
use storm_os.Base.{◌==◌, if◌then◌else◌, update, for_upto, ℕ, ◌+◌, Option, none, some}
use storm_os.Thread.State.{max_procs, ready, run, dead, Tcb, ThreadQueue, Threads, set_state}
use storm_os.Thread.Queue.{tq_enqueue, tq_dequeue, tq_remove}

-- The call ContextSwitch(&kernelContexts[from], &kernelContexts[to]).
pub record Switch : Type 0 where
  pub from : ℕ
  pub to : ℕ

abbrev pub dead_tcb : Tcb
dead_tcb = record { state = dead; prev = max_procs; next = max_procs }

abbrev pub empty_queue : ThreadQueue
empty_queue = record { head = max_procs; tail = max_procs }

pub thread_init : Threads → Threads
thread_init s =
    let tcbs = for_upto max_procs (λ i f. update f i dead_tcb) s.tcbs in
    let queues = for_upto (max_procs + 1) (λ i f. update f i empty_queue) s.thread_queues in
    set_state 0 run (record s { tcbs = tcbs; thread_queues = queues; current_id = 0 })

abbrev pub get_current_id : Threads → ℕ
get_current_id s = s.current_id

-- Lets `next_id` run, with a context switch unless it is the current thread.
pub run_next : ℕ → Threads → Threads × Option Switch
run_next next_id s =
    let running = set_state next_id run s in
    if next_id == s.current_id
    then (running, none)
    else (let switched = record running { current_id = next_id } in
        (switched, some (record { from = switched.current_id; to = next_id })))

-- The new state, and the context switch if one is made.
unfoldable pub thread_yield : Threads → Threads × Option Switch
unfolding run_next
thread_yield s =
    let queued = tq_enqueue max_procs s.current_id (set_state s.current_id ready s) in
    run_next (tq_dequeue max_procs queued).0 (tq_dequeue max_procs queued).1

unfoldable pub force_run_process : ℕ → Threads → Threads × Switch
force_run_process pid s =
    let curid = s.current_id in
    let running = set_state pid run (tq_remove max_procs pid s) in
    (record running { current_id = pid }, record { from = curid; to = pid })
