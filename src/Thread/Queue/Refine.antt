-- ===== src/Thread/Queue/Refine.antt =====
-- The queue operations of src/thread.c against a list of thread ids: TQEnqueue appends,
-- TQDequeue takes the first, TQRemove takes one out.
use storm_os.Base.{
  ==_refl, All, has, Distinct, has-append, ℕ, ◌<◌, ◌≡◌, refl, ◌≢◌, false, List, [], ◌∷◌, ◌++◌,
  arith,
}
use storm_os.Thread.State.{max_procs, Tcb, Threads, with_next, with_prev}
use storm_os.Thread.Queue.{tq_enqueue, tq_dequeue}
use storm_os.Thread.Queue.Steps.{
  tq_enqueue_first, tq_enqueue_behind, tq_dequeue_none, tq_dequeue_last, tq_dequeue_more,
}
use storm_os.Thread.Queue.Links.{
  first_or, last_or, Links, last_or-append, Links-append, Links-with_next, Links-with_prev,
  Links-retarget, Links-reprev, Links-one,
}

-- Queue `q` holds the threads `xs`, the head first.
pub record IsQueue (s : Threads) (q : ℕ) (xs : List ℕ) : Type 0 where
  pub head_eq : (s.thread_queues q).head ≡ first_or max_procs xs
  pub tail_eq : (s.thread_queues q).tail ≡ last_or max_procs xs
  pub links : Links s.tcbs max_procs xs max_procs
  pub in_range : All (λ x. x < max_procs) xs
  pub distinct : Distinct xs

pub All-last : (x : ℕ) (xs : List ℕ) → All (λ y. y < max_procs) (x ∷ xs) → last_or x xs < max_procs
All-last x [] h = h.0
All-last x (y ∷ ys) h = All-last y ys h.1

pub Distinct-snoc : (x : ℕ) (xs : List ℕ) → Distinct xs → has x xs ≡ false → Distinct (xs ++ x ∷ [])
Distinct-snoc x [] d out = (refl, tt)
Distinct-snoc x (y ∷ ys) d out =
    (ground (arith, has-append y ys (x ∷ [])), Distinct-snoc x ys d.1 (ground arith))

pub All-snoc :
    (x : ℕ) (xs : List ℕ)
    → All (λ y. y < max_procs) xs
    → x < max_procs
    → All (λ y. y < max_procs) (xs ++ x ∷ [])
All-snoc x [] h hx = (hx, tt)
All-snoc x (y ∷ ys) h hx = (h.0, All-snoc x ys h.1 hx)

-- TQEnqueue puts a thread that is in no queue behind the last one.
pub tq_enqueue-IsQueue :
    (s : Threads) (q id : ℕ) (xs : List ℕ)
    → IsQueue s q xs
    → id < max_procs
    → has id xs ≡ false
    → IsQueue (tq_enqueue q id s) q (xs ++ id ∷ [])
tq_enqueue-IsQueue s q id [] h hid out = rw (tq_enqueue_first s q id h.tail_eq) (record {
  head_eq = ground arith;
  tail_eq = ground arith;
  links = (ground arith, ground arith, tt);
  in_range = (hid, tt);
  distinct = (refl, tt);
})
tq_enqueue-IsQueue s q id (x ∷ xs) h hid out =
    rw (tq_enqueue_behind s q id old h.tail_eq old_ne) (record {
      head_eq = rw ==_refl h.head_eq;
      tail_eq = rw (==_refl, last_or-append x xs (id ∷ []));
      links =
          Links-append f3 max_procs max_procs (x ∷ xs) (id ∷ []) front
            (Links-one f1 id old max_procs);
      in_range = All-snoc id (x ∷ xs) h.in_range hid;
      distinct = Distinct-snoc id (x ∷ xs) h.distinct out;
    })
  where
    old : ℕ
    old = last_or x xs

    old_ne : old ≢ max_procs
    old_ne = omega (arith, All-last x xs h.in_range)

    f1 : ℕ → Tcb
    f1 = with_next s.tcbs old id

    f2 : ℕ → Tcb
    f2 = with_prev f1 id old

    f3 : ℕ → Tcb
    f3 = with_next f2 id max_procs

    front : Links f3 max_procs (x ∷ xs) id
    front = Links-with_next f2 id max_procs max_procs id (x ∷ xs) out (
        Links-with_prev f1 id old max_procs id (x ∷ xs) out
          (Links-retarget s.tcbs max_procs max_procs id x xs h.distinct h.links))

-- TQDequeue on an empty queue returns MAX_PROCS and changes nothing.
pub tq_dequeue_empty : (s : Threads) (q : ℕ) → IsQueue s q [] → tq_dequeue q s ≡ (max_procs, s)
tq_dequeue_empty s q h = tq_dequeue_none s q h.head_eq

-- TQDequeue returns the first thread, and leaves the rest.
pub tq_dequeue-IsQueue :
    (s : Threads) (q x : ℕ) (xs : List ℕ)
    → IsQueue s q (x ∷ xs)
    → ((tq_dequeue q s).0 ≡ x) × IsQueue (tq_dequeue q s).1 q xs
tq_dequeue-IsQueue s q x [] h =
    rw (tq_dequeue_last s q x h.head_eq (omega (arith, h.in_range.0)) h.links.1) (
      refl,
      record {
        head_eq = ground arith;
        tail_eq = ground arith;
        links = tt;
        in_range = tt;
        distinct = tt;
      },
    )
tq_dequeue-IsQueue s q x (y ∷ ys) h =
    rw
      (tq_dequeue_more s q x y h.head_eq (omega (arith, h.in_range.0)) h.links.1
        (omega (arith, h.in_range.1)))
      (
        refl,
        record {
          head_eq = rw ==_refl;
          tail_eq = rw ==_refl h.tail_eq;
          links =
              Links-reprev (with_next s.tcbs x max_procs) x max_procs max_procs y ys h.distinct.1
                (Links-with_next s.tcbs x max_procs x max_procs (y ∷ ys) h.distinct.0 h.links.2);
          in_range = h.in_range.1;
          distinct = h.distinct.1;
        },
      )
