-- ===== src/Thread/Queue/Steps.antt =====
-- The writes that TQEnqueue, TQDequeue and TQRemove make, by the case that they meet.
use storm_os.Base.{◌==◌, if◌then◌else◌, ==_iff, ℕ, ◌≡◌, ◌≢◌, arith}
use storm_os.Thread.State.{max_procs, Threads, set_next, set_prev, set_head, set_tail}
use storm_os.Thread.Queue.{tq_enqueue, tq_dequeue, tq_remove}

module _ (s : Threads) (q : ℕ) where
  abbrev pub front : ℕ → ℕ → ℕ → Threads
  front id a b =
      let cleared = set_next id max_procs (set_prev id max_procs s) in
      if a == max_procs then set_head q b cleared else set_next a b cleared

  pub tq_enqueue_first :
      (id : ℕ)
      → (s.thread_queues q).tail ≡ max_procs
      → tq_enqueue q id s
        ≡ set_prev id max_procs (set_next id max_procs (set_tail q id (set_head q id s)))
  unfolding tq_enqueue
  tq_enqueue_first id e = rw ((==_iff _ _).1 e)

  pub tq_enqueue_behind :
      (id old : ℕ)
      → (s.thread_queues q).tail ≡ old
      → old ≢ max_procs
      → tq_enqueue q id s
        ≡ set_tail q id (set_next id max_procs (set_prev id old (set_next old id s)))
  unfolding tq_enqueue
  tq_enqueue_behind id old e ne = ground arith

  pub tq_dequeue_none : (s.thread_queues q).head ≡ max_procs → tq_dequeue q s ≡ (max_procs, s)
  unfolding tq_dequeue
  tq_dequeue_none e = ground arith

  pub tq_dequeue_last :
      (x : ℕ)
      → (s.thread_queues q).head ≡ x
      → x ≢ max_procs
      → (s.tcbs x).next ≡ max_procs
      → tq_dequeue q s ≡ (x, set_tail q max_procs (set_head q max_procs (set_next x max_procs s)))
  unfolding tq_dequeue
  tq_dequeue_last x e ne n = ground arith

  pub tq_dequeue_more :
      (x y : ℕ)
      → (s.thread_queues q).head ≡ x
      → x ≢ max_procs
      → (s.tcbs x).next ≡ y
      → y ≢ max_procs
      → tq_dequeue q s ≡ (x, set_prev y max_procs (set_head q y (set_next x max_procs s)))
  unfolding tq_dequeue
  tq_dequeue_more x y e ne n ne' = ground arith

  -- TQRemove clears the links of the TCB, then lets its neighbours, or the ends, skip it.
  pub tq_remove_writes :
      (id a b : ℕ)
      → (s.tcbs id).prev ≡ a
      → (s.tcbs id).next ≡ b
      → tq_remove q id s
        ≡ (if b == max_procs then set_tail q a (front id a b) else set_prev b a (front id a b))
  unfolding tq_remove
  tq_remove_writes id a b p n = ground arith
