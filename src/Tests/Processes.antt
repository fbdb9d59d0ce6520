-- ===== src/Tests/Processes.antt =====
-- A process that is spawned, and an executable that is loaded.
use storm_os.Base.{◌==◌, if◌then◌else◌, ◌≡◌, refl, true, false, [], ◌∷◌, arith}
use storm_os.MemPhysical.Containers.{container_split}
use storm_os.MemPhysical.Containers.Tree.{IsTree}
use storm_os.MemVirtual.Ram.{Ram}
use storm_os.Thread.State.{max_procs}
use storm_os.Thread.Queue.Refine.{IsQueue}
use storm_os.Thread.Schedule.{force_run_process}
use storm_os.Kernel.{Kernel}
use storm_os.Process.{thread_spawn}
use storm_os.Process.Spawn.{thread_spawn-IsQueue}
use storm_os.Loader.{ProgHdr}
use storm_os.Tests.Frames.{booted, booted-IsTree}
use storm_os.Tests.PageTables.{empty}
use storm_os.Tests.Threads.{three_ready, three_ready-IsQueue}
use storm_os.Tests.Calls.{quiet}

abbrev pub idle : Kernel
idle = record quiet {
  vm = record empty { memory = booted };
  threads = record three_ready { current_id = 0 };
}

thread_spawn-IsQueue_example :
    let spawned = (thread_spawn 0x110000 0 40 0x8000 idle).1 in
    let (running, switch) = force_run_process 1 spawned.threads in
    ((thread_spawn 0x110000 0 40 0x8000 idle).0 ≡ 1)
    × ((booted.containers 1).used ≡ false)
    × ((spawned.vm.memory.containers 1).used ≡ true)
    × IsTree spawned.vm.memory
    × IsQueue spawned.threads max_procs (2 ∷ 3 ∷ 5 ∷ 1 ∷ [])
    × IsQueue running max_procs (2 ∷ 3 ∷ 5 ∷ [])
    × (running.current_id ≡ 1)
    × (switch ≡ record { from = 0; to = 1 })
unfolding container_split
thread_spawn-IsQueue_example =
    thread_spawn-IsQueue 0x110000 0 40 0x8000 idle (2 ∷ 3 ∷ 5 ∷ []) booted-IsTree
      (record { small = omega arith; fewer = omega arith; inside = omega arith }) refl queue
      (omega arith) refl
  where
    queue : IsQueue idle.threads max_procs (2 ∷ 3 ∷ 5 ∷ [])
    queue = record {
      head_eq = three_ready-IsQueue.head_eq;
      tail_eq = three_ready-IsQueue.tail_eq;
      links = three_ready-IsQueue.links;
      in_range = three_ready-IsQueue.in_range;
      distinct = three_ready-IsQueue.distinct;
    }

-- An executable at 0x10000 with one program header behind the header, a page at 0x40000000.
abbrev pub executable : Ram
executable a =
    if a == 0x10000
    then 0x7F
    else if a == 0x10001
    then 0x45
    else if a == 0x10002
    then 0x4C
    else if a == 0x10003
    then 0x46
    else if a == 0x1001C
    then 0x34
    else if a == 0x10020
    then 0x54
    else if a == 0x1002C
    then 1
    else if a == 0x10032
    then 1
    else if a == 0x10034
    then 1
    else if a == 0x1003F
    then 0x40
    else if a == 0x10044
    then 4
    else if a == 0x10048
    then 4
    else if a == 0x10080
    then 3
    else 0

-- The segment of its program header.
abbrev segment : ProgHdr
segment = record {
  p_type = 1;
  p_offset = 0;
  p_va = 0x40000010;
  p_filesz = 4;
  p_memsz = 8;
  p_flags = 0;
}
