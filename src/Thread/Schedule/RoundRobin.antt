-- ===== src/Thread/Schedule/RoundRobin.antt =====
-- ThreadYield is round robin: the ready queue behind the running thread turns by one place.
use storm_os.Base.{
  ◌==◌, ==_iff, ==_refl, ==_ne, ltb-true, Bool-cases, length, has, has-append, for_upto-update, ℕ,
  zero, suc, ◌+◌, ◌≤◌, ◌<◌, ◌≡◌, refl, sym, ap, ◌∙◌, ◌≢◌, inl, inr, true, false, some, List, [],
  ◌∷◌, ◌++◌, arith,
}
use storm_os.Thread.State.{ThreadQueue, max_procs, ThreadState, ready, run, Threads, set_state}
use storm_os.Thread.Queue.{tq_enqueue, tq_dequeue}
use storm_os.Thread.Queue.Links.{Links-with_state}
use storm_os.Thread.Queue.Refine.{IsQueue, tq_enqueue-IsQueue, tq_dequeue-IsQueue}
use mathlib.Core.List.{append-nil, append_assoc}
use storm_os.Thread.Schedule.{empty_queue, run_next, thread_init, thread_yield}

state-tq_enqueue :
    (q id j : ℕ) (s : Threads) → ((tq_enqueue q id s).tcbs j).state ≡ (s.tcbs j).state
unfolding tq_enqueue
state-tq_enqueue q id j s = ground arith

state-tq_dequeue : (q j : ℕ) (s : Threads) → ((tq_dequeue q s).1.tcbs j).state ≡ (s.tcbs j).state
unfolding tq_dequeue
state-tq_dequeue q j s = ground arith

current_id-tq_enqueue : (q id : ℕ) (s : Threads) → (tq_enqueue q id s).current_id ≡ s.current_id
unfolding tq_enqueue
current_id-tq_enqueue q id s = ground arith

current_id-tq_dequeue : (q : ℕ) (s : Threads) → (tq_dequeue q s).1.current_id ≡ s.current_id
unfolding tq_dequeue
current_id-tq_dequeue q s = ground arith

pub set_state-IsQueue :
    (s : Threads) (q i : ℕ) (v : ThreadState) (xs : List ℕ)
    → IsQueue s q xs
    → IsQueue (set_state i v s) q xs
set_state-IsQueue s q i v xs h = record {
  head_eq = h.head_eq;
  tail_eq = h.tail_eq;
  links = Links-with_state s.tcbs i v max_procs max_procs xs h.links;
  in_range = h.in_range;
  distinct = h.distinct;
}

abbrev pub AllReady : Threads → List ℕ → Type 0
AllReady s xs = (a : ℕ) → has a xs ≡ true → (s.tcbs a).state ≡ ready

-- The current thread runs, and the ready queue holds `xs`.
pub record IsRunning (s : Threads) (xs : List ℕ) : Type 0 where
  pub current_small : s.current_id < max_procs
  pub runs : (s.tcbs s.current_id).state ≡ run
  pub queue : IsQueue s max_procs xs
  pub not_queued : has s.current_id xs ≡ false
  pub waiting : AllReady s xs

-- `c ∷ xs` names the running thread and the ready queue.
abbrev pub IsCycle : Threads → List ℕ → Type 0
IsCycle s [] = ⊥
IsCycle s (c ∷ xs) = (s.current_id ≡ c) × IsRunning s xs

abbrev queued : Threads → Threads
queued s = tq_enqueue max_procs s.current_id (set_state s.current_id ready s)

queued-IsQueue :
    (s : Threads) (xs : List ℕ)
    → IsRunning s xs
    → IsQueue (queued s) max_procs (xs ++ s.current_id ∷ [])
queued-IsQueue s xs h =
    tq_enqueue-IsQueue (set_state s.current_id ready s) max_procs s.current_id xs
      (set_state-IsQueue s max_procs s.current_id ready xs h.queue) h.current_small h.not_queued

queued-AllReady :
    (s : Threads) (xs : List ℕ) → IsRunning s xs → AllReady (queued s) (xs ++ s.current_id ∷ [])
queued-AllReady s xs h a m =
    state-tq_enqueue max_procs s.current_id a (set_state s.current_id ready s)
    ∙ ground (arith, has-append a xs (s.current_id ∷ []), h.waiting a)

-- What ThreadYield does once the running thread is queued: the first thread becomes the current one.
abbrev dispatched : Threads → ℕ → Threads
dispatched s y = record (set_state y run (tq_dequeue max_procs s).1) { current_id = y }

dispatched-IsRunning :
    (s : Threads) (y : ℕ) (ys : List ℕ)
    → IsQueue s max_procs (y ∷ ys)
    → AllReady s (y ∷ ys)
    → IsRunning (dispatched s y) ys
dispatched-IsRunning s y ys q r =
    let rest = (tq_dequeue-IsQueue s max_procs y ys q).1 in
    let moved = set_state-IsQueue (tq_dequeue max_procs s).1 max_procs y run ys rest in
    record {
      current_small = q.in_range.0;
      runs = rw ==_refl;
      queue = record {
        head_eq = moved.head_eq;
        tail_eq = moved.tail_eq;
        links = moved.links;
        in_range = moved.in_range;
        distinct = moved.distinct;
      };
      not_queued = q.distinct.0;
      waiting = λ a m. ground (arith, state-tq_dequeue max_procs a s, r a);
    }

run_next-current :
    (y : ℕ) (s : Threads) → (run_next y s).0 ≡ record (set_state y run s) { current_id = y }
unfolding run_next
run_next-current y s = elim (Bool-cases (y == s.current_id)) [
  | inl same ↦
      rw same (ap (λ k. record (set_state y run s) { current_id = k }) (sym ((==_iff _ _).0 same)))
  | inr other ↦ rw other
]

-- ThreadYield in terms of what it dispatches, whether or not that is the thread that yields.
thread_yield-dispatched :
    (s : Threads) (y : ℕ)
    → (tq_dequeue max_procs (queued s)).0 ≡ y
    → (thread_yield s).0 ≡ dispatched (queued s) y
thread_yield-dispatched s y e =
    unfold_yield ∙ run_next-current _ _ ∙ ap (λ k. dispatched (queued s) k) e
  where
    unfold_yield :
        (thread_yield s).0
        ≡ (run_next (tq_dequeue max_procs (queued s)).0 (tq_dequeue max_procs (queued s)).1).0
    unfold_yield = unfold thread_yield in refl

turn :
    (s : Threads) (y : ℕ) (xs ys : List ℕ)
    → IsRunning s xs
    → xs ++ s.current_id ∷ [] ≡ y ∷ ys
    → IsCycle (thread_yield s).0 (y ∷ ys)
turn s y xs ys h e =
    let q : IsQueue (queued s) max_procs (y ∷ ys) = rw e at (queued-IsQueue s xs h) in
    let r : AllReady (queued s) (y ∷ ys) = rw e at (queued-AllReady s xs h) in
    rw (thread_yield-dispatched s y (tq_dequeue-IsQueue (queued s) max_procs y ys q).0)
      (refl, dispatched-IsRunning (queued s) y ys q r)

-- The list with its first element last.
abbrev pub rotate : List ℕ → List ℕ
rotate [] = []
rotate (x ∷ xs) = xs ++ x ∷ []

-- ThreadYield turns the cycle of the running thread and the ready queue by one place.
pub thread_yield-rotate :
    (s : Threads) (cs : List ℕ) → IsCycle s cs → IsCycle (thread_yield s).0 (rotate cs)
thread_yield-rotate s [] h = h
thread_yield-rotate s (c ∷ []) (e, h) = turn s c [] [] h (ap (λ k. k ∷ []) e)
thread_yield-rotate s (c ∷ x ∷ xs) (e, h) =
    turn s x (x ∷ xs) (xs ++ c ∷ []) h (ap (λ k. x ∷ xs ++ k ∷ []) e)

-- `n` calls of ThreadYield.
abbrev pub yields : ℕ → Threads → Threads
yields zero s = s
yields (suc n) s = yields n (thread_yield s).0

-- After one call of ThreadYield for each thread `xs` that stands before them, the threads `ys` are
-- next, and those before have queued up behind them in their order.
pub yields-rotate :
    (s : Threads) (xs ys : List ℕ)
    → IsCycle s (xs ++ ys)
    → IsCycle (yields (length xs) s) (ys ++ xs)
yields-rotate s [] ys h = rw append-nil h
yields-rotate s (x ∷ xs) ys h = rw append_middle at (
    yields-rotate (thread_yield s).0 xs (ys ++ x ∷ [])
      (rw (← append_assoc) (thread_yield-rotate s (x ∷ xs ++ ys) h)))
  where
    append_middle : (ys ++ x ∷ []) ++ xs ≡ ys ++ x ∷ xs
    append_middle = append_assoc ys (x ∷ []) xs

not_head : (a x : ℕ) (xs : List ℕ) → has a (x ∷ xs) ≡ false → x ≢ a
not_head a x xs h same = absurd (ground (arith, h))

-- When another thread is waiting, ThreadYield switches, with the context of the thread that it runs
-- next both as the one to save and as the one to load: it is another one than that of the thread
-- that yields.
pub thread_yield_switch :
    (s : Threads) (c x : ℕ) (xs : List ℕ)
    → IsCycle s (c ∷ x ∷ xs)
    → ((thread_yield s).1 ≡ some (record { from = x; to = x })) × (x ≢ c)
unfolding thread_yield run_next
thread_yield_switch s c x xs (e, h) =
    let q = queued-IsQueue s (x ∷ xs) h in
    let first = (tq_dequeue-IsQueue (queued s) max_procs x (xs ++ s.current_id ∷ []) q).0 in
    let kept =
      current_id-tq_dequeue max_procs (queued s)
      ∙ current_id-tq_enqueue max_procs s.current_id (set_state s.current_id ready s) in
    let other = not_head s.current_id x xs h.not_queued in
    (rw (first, kept, ==_ne x s.current_id other) refl, λ same. other (same ∙ sym e))

-- ThreadInit leaves every queue empty.
pub thread_init-IsQueue : (s : Threads) (q : ℕ) → q ≤ max_procs → IsQueue (thread_init s) q []
unfolding thread_init
thread_init-IsQueue s q h = record {
  head_eq = ap (λ (t : ThreadQueue). t.head) empty;
  tail_eq = ap (λ (t : ThreadQueue). t.tail) empty;
  links = tt;
  in_range = tt;
  distinct = tt;
}
  where
    empty : (thread_init s).thread_queues q ≡ empty_queue
    empty =
        for_upto-update (max_procs + 1) (λ i. empty_queue) s.thread_queues q
        ∙ rw (ltb-true q 65 (omega arith))

-- ThreadInit leaves thread 0 running alone.
pub thread_init-IsCycle : (s : Threads) → IsCycle (thread_init s) (0 ∷ [])
thread_init-IsCycle s = (
  unfold thread_init in refl,
  record {
    current_small = unfold thread_init in omega arith;
    runs = unfold thread_init in refl;
    queue = thread_init-IsQueue s max_procs (omega arith);
    not_queued = refl;
    waiting = λ a m. cc;
  },
)
