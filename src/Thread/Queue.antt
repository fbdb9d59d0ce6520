-- ===== src/Thread/Queue.antt =====
-- TQEnqueue, TQDequeue and TQRemove of src/thread.c.
pub mod Links
pub mod Middle
pub mod Refine
pub mod Remove
pub mod Steps
use storm_os.Base.{◌==◌, if◌then◌else◌, ℕ}
use storm_os.Thread.State.{max_procs, Threads, set_next, set_prev, set_head, set_tail}

-- Insert the TCB #id2 into the tail of the thread queue #id1.
unfoldable pub tq_enqueue : ℕ → ℕ → Threads → Threads
tq_enqueue id1 id2 s =
    let old_tail_id = (s.thread_queues id1).tail in
    if old_tail_id == max_procs
    then set_prev id2 max_procs (set_next id2 max_procs (set_tail id1 id2 (set_head id1 id2 s)))
    else set_tail id1 id2
        (set_next id2 max_procs (set_prev id2 old_tail_id (set_next old_tail_id id2 s)))

-- Pops the head; MAX_PROCS if the queue is empty.
unfoldable pub tq_dequeue : ℕ → Threads → ℕ × Threads
tq_dequeue pid s =
    let head = (s.thread_queues pid).head in
    let next = (s.tcbs head).next in
    let popped = set_head pid next (set_next head max_procs s) in
    if head == max_procs then (head, s) else (
      head,
      if next == max_procs then set_tail pid max_procs popped else set_prev next max_procs popped,
    )

-- Unlinks the TCB #id2 from the thread queue #id1.
unfoldable pub tq_remove : ℕ → ℕ → Threads → Threads
tq_remove id1 id2 s =
    let prev = (s.tcbs id2).prev in
    let next = (s.tcbs id2).next in
    let cleared = set_next id2 max_procs (set_prev id2 max_procs s) in
    let front =
      if prev == max_procs then set_head id1 next cleared else set_next prev next cleared in
    if next == max_procs then set_tail id1 prev front else set_prev next prev front
