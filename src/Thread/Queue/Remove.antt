-- ===== src/Thread/Queue/Remove.antt =====
-- TQRemove takes one thread out of its queue, wherever it stands.
use storm_os.Base.{
  ==_refl, ==_ne, Bool-cases, has, ℕ, ◌≡◌, ◌∙◌, ◌≢◌, inl, inr, false, List, [], ◌∷◌, ◌++◌, arith,
}
use mathlib.Core.List.{append-nil}
use storm_os.Thread.State.{max_procs, Tcb, Threads, with_next, with_prev}
use storm_os.Thread.Queue.{tq_remove}
use storm_os.Thread.Queue.Steps.{tq_remove_writes}
use storm_os.Thread.Queue.Refine.{IsQueue, All-last}
use storm_os.Thread.Queue.Middle.{
  IsMiddle, Distinct-IsMiddle, Distinct-drop, All-drop, All-left, All-right,
}
use storm_os.Thread.Queue.Links.{
  last_or, Links, has-last, last_or-append, Links-append, Links-split, Links-with_next,
  Links-with_prev, Links-retarget, Links-reprev,
}

-- the TCBs after the links of `x` are cleared
abbrev cleared : (ℕ → Tcb) → ℕ → ℕ → Tcb
cleared f x = with_next (with_prev f x max_procs) x max_procs

Links-cleared :
    (f : ℕ → Tcb) (x p e : ℕ) (xs : List ℕ)
    → has x xs ≡ false
    → Links f p xs e
    → Links (cleared f x) p xs e
Links-cleared f x p e xs out l =
    Links-with_next (with_prev f x max_procs) x max_procs p e xs out
      (Links-with_prev f x max_procs p e xs out l)

-- The neighbours of the TCB that is taken out are linked to one another.
Links-joined :
    (f : ℕ → Tcb) (x u v : ℕ) (us vs : List ℕ)
    → IsMiddle (u ∷ us) x (v ∷ vs)
    → Links f max_procs (u ∷ us) x
    → Links f x (v ∷ vs) max_procs
    → Links
        (with_prev (with_next (cleared f x) (last_or u us) v) v (last_or u us))
        max_procs
        ((u ∷ us) ++ v ∷ vs)
        max_procs
Links-joined f x u v us vs mid l r =
    Links-append g max_procs max_procs (u ∷ us) (v ∷ vs)
      (Links-with_prev g1 v a max_procs v (u ∷ us) first_out (
        Links-retarget (cleared f x) max_procs x v u us mid.left
          (Links-cleared f x max_procs x (u ∷ us) mid.not_left l)))
      (Links-reprev g1 x a max_procs v vs mid.right (
        Links-with_next (cleared f x) a v x max_procs (v ∷ vs) (mid.apart a (has-last u us))
          (Links-cleared f x x max_procs (v ∷ vs) mid.not_right r)))
  where
    a : ℕ
    a = last_or u us

    g1 : ℕ → Tcb
    g1 = with_next (cleared f x) a v

    g : ℕ → Tcb
    g = with_prev g1 v a

    first_out : has v (u ∷ us) ≡ false
    first_out = elim (Bool-cases (has v (u ∷ us))) [
      | inl h ↦ absurd (ground (arith, mid.apart v h))
      | inr h ↦ h
    ]

-- TQRemove takes the thread out, and leaves those before and behind it in order.
pub tq_remove-IsQueue :
    (s : Threads) (q x : ℕ) (xs ys : List ℕ)
    → IsQueue s q (xs ++ x ∷ ys)
    → IsQueue (tq_remove q x s) q (xs ++ ys)
tq_remove-IsQueue s q x [] [] h =
    rw (tq_remove_writes s q x max_procs max_procs h.links.0 h.links.1) (record {
      head_eq = ground arith;
      tail_eq = ground arith;
      links = tt;
      in_range = tt;
      distinct = tt;
    })
tq_remove-IsQueue s q x [] (v ∷ vs) h =
    rw (tq_remove_writes s q x max_procs v h.links.0 h.links.1, ==_ne v max_procs v_ne)
      (record {
        head_eq = ground arith;
        tail_eq = rw ==_refl h.tail_eq;
        links =
            Links-reprev (cleared s.tcbs x) x max_procs max_procs v vs h.distinct.1
              (Links-cleared s.tcbs x x max_procs (v ∷ vs) h.distinct.0 h.links.2);
        in_range = h.in_range.1;
        distinct = h.distinct.1;
      })
  where
    v_ne : v ≢ max_procs
    v_ne = omega (arith, h.in_range.1.0)
tq_remove-IsQueue s q x (u ∷ us) [] h =
    rw (tq_remove_writes s q x a max_procs r.0 r.1, ==_ne a max_procs a_ne)
      (record {
        head_eq = rw ==_refl h.head_eq;
        tail_eq = rw (append-nil, ==_refl);
        links = rw append-nil (
            Links-retarget (cleared s.tcbs x) max_procs x max_procs u us mid.left
              (Links-cleared s.tcbs x max_procs x (u ∷ us) mid.not_left l));
        in_range = All-drop max_procs (u ∷ us) x [] h.in_range;
        distinct = Distinct-drop (u ∷ us) x [] h.distinct;
      })
  where
    a : ℕ
    a = last_or u us

    mid : IsMiddle (u ∷ us) x []
    mid = Distinct-IsMiddle (u ∷ us) x [] h.distinct

    l : Links s.tcbs max_procs (u ∷ us) x
    l = (Links-split s.tcbs max_procs max_procs (u ∷ us) (x ∷ []) h.links).0

    r : Links s.tcbs a (x ∷ []) max_procs
    r = (Links-split s.tcbs max_procs max_procs (u ∷ us) (x ∷ []) h.links).1

    a_ne : a ≢ max_procs
    a_ne = omega (arith, All-last u us (All-left max_procs (u ∷ us) (x ∷ []) h.in_range))
tq_remove-IsQueue s q x (u ∷ us) (v ∷ vs) h =
    rw (tq_remove_writes s q x a v r.0 r.1, ==_ne a max_procs a_ne, ==_ne v max_procs v_ne)
      (record {
        head_eq = h.head_eq;
        tail_eq = h.tail_eq ∙ rw (last_or-append u us (x ∷ v ∷ vs), last_or-append u us (v ∷ vs));
        links =
            Links-joined s.tcbs x u v us vs (Distinct-IsMiddle (u ∷ us) x (v ∷ vs) h.distinct) l
              r.2;
        in_range = All-drop max_procs (u ∷ us) x (v ∷ vs) h.in_range;
        distinct = Distinct-drop (u ∷ us) x (v ∷ vs) h.distinct;
      })
  where
    a : ℕ
    a = last_or u us

    l : Links s.tcbs max_procs (u ∷ us) x
    l = (Links-split s.tcbs max_procs max_procs (u ∷ us) (x ∷ v ∷ vs) h.links).0

    r : Links s.tcbs a (x ∷ v ∷ vs) max_procs
    r = (Links-split s.tcbs max_procs max_procs (u ∷ us) (x ∷ v ∷ vs) h.links).1

    a_ne : a ≢ max_procs
    a_ne = omega (arith, All-last u us (All-left max_procs (u ∷ us) (x ∷ v ∷ vs) h.in_range))

    v_ne : v ≢ max_procs
    v_ne = omega (arith, All-right max_procs (u ∷ us) (x ∷ v ∷ vs) h.in_range)
