-- ===== src/Process/Spawn.antt =====
-- A thread that is spawned is queued under a fresh id, and runs when it is forced to.
use storm_os.Base.{
  has, update, ℕ, ◌+◌, ◌-◌, ◌*◌, ◌<◌, ◌≡◌, refl, ap, true, false, List, [], ◌∷◌, ◌++◌, arith,
}
use mathlib.Core.Path.{subst}
use mathlib.Core.List.{append-nil}
use storm_os.MemPhysical.State.{page_size}
use storm_os.MemPhysical.Containers.{container_split}
use storm_os.MemPhysical.Containers.Tree.{IsTree, HasRoom, container_split-IsTree}
use storm_os.Thread.State.{max_procs, ready, run, set_state, Threads, KernelContext}
use storm_os.Thread.Queue.{tq_enqueue, tq_remove}
use storm_os.Thread.Queue.Refine.{IsQueue, tq_enqueue-IsQueue}
use storm_os.Thread.Queue.Remove.{tq_remove-IsQueue}
use storm_os.Thread.Schedule.{force_run_process}
use storm_os.Thread.Schedule.RoundRobin.{set_state-IsQueue}
use storm_os.Kernel.{Kernel}
use storm_os.Process.{thread_spawn}

-- A queue stands on the TCBs and the array of queues alone.
current_id-IsQueue :
    (s : Threads) (i : ℕ) (contexts : ℕ → KernelContext) (xs : List ℕ)
    → IsQueue s max_procs xs
    → IsQueue (record s { current_id = i; kernel_contexts = contexts }) max_procs xs
current_id-IsQueue s i contexts xs h = record {
  head_eq = h.head_eq;
  tail_eq = h.tail_eq;
  links = h.links;
  in_range = h.in_range;
  distinct = h.distinct;
}

tq_enqueue_current : (q id : ℕ) (s : Threads) → (tq_enqueue q id s).current_id ≡ s.current_id
unfolding tq_enqueue
tq_enqueue_current q id s = ground arith

-- ThreadSpawn for a container in use that can be split, when the containers form a tree, the ready
-- queue holds some threads, and the child's id is below MAX_PROCS and not queued: the child's id
-- was no container in use, the containers stay a tree with the child in it, and the child is behind
-- the ready threads. If ForceRunProcess then takes the child, the ready threads are as they were
-- before, the child is the current thread, and the context switch goes from the old one to it.
pub thread_spawn-IsQueue :
    (proc_stacks parent quota entry : ℕ) (k : Kernel) (xs : List ℕ)
    → let memory = k.vm.memory in
      let id = (container_split parent quota memory).0 in
      IsTree memory
      → HasRoom parent memory
      → (memory.containers parent).used ≡ true
      → IsQueue k.threads max_procs xs
      → id < max_procs
      → has id xs ≡ false
      → let spawned = (thread_spawn proc_stacks parent quota entry k).1 in
        let (running, switch) = force_run_process id spawned.threads in
        ((thread_spawn proc_stacks parent quota entry k).0 ≡ id)
        × ((memory.containers id).used ≡ false)
        × ((spawned.vm.memory.containers id).used ≡ true)
        × IsTree spawned.vm.memory
        × IsQueue spawned.threads max_procs (xs ++ id ∷ [])
        × IsQueue running max_procs xs
        × (running.current_id ≡ id)
        × (switch ≡ record { from = k.threads.current_id; to = id })
unfolding thread_spawn force_run_process
thread_spawn-IsQueue proc_stacks parent quota entry k xs tree room used queue small out =
    let id = (container_split parent quota k.vm.memory).0 in
    let contexts = update k.threads.kernel_contexts id (record (k.threads.kernel_contexts id) {
      eip = entry;
      esp = proc_stacks + id * page_size + (page_size - 1);
    }) in
    let created : Threads = record k.threads { kernel_contexts = contexts } in
    let waiting = tq_enqueue max_procs id (set_state id ready created) in
    let (tree', fresh, taken) = container_split-IsTree parent quota k.vm.memory tree room used in
    let queued : IsQueue waiting max_procs (xs ++ id ∷ []) =
      tq_enqueue-IsQueue (set_state id ready created) max_procs id xs
        (set_state-IsQueue created max_procs id ready xs
          (current_id-IsQueue k.threads k.threads.current_id contexts xs queue))
        small out in
    let removed : IsQueue (tq_remove max_procs id waiting) max_procs xs =
      subst (IsQueue (tq_remove max_procs id waiting) max_procs) (append-nil xs)
        (tq_remove-IsQueue waiting max_procs id xs [] queued) in
    let running = set_state id run (tq_remove max_procs id waiting) in
    (
      refl,
      fresh,
      taken,
      tree',
      queued,
      current_id-IsQueue running id running.kernel_contexts xs
          (set_state-IsQueue (tq_remove max_procs id waiting) max_procs id run xs removed),
      refl,
      ap (λ (c : ℕ). record { from = c; to = id })
          (tq_enqueue_current max_procs id (set_state id ready created)),
    )
