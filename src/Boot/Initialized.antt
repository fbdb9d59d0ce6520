-- ===== src/Boot/Initialized.antt =====
-- What the initializations of KernelMain establish.
use storm_os.Base.{
  ℕ, ◌+◌, ◌*◌, ◌%◌, ◌^◌, ◌≤◌, ◌<◌, ◌≡◌, refl, ◌∙◌, false, none, List, [], ◌∷◌, arith,
}
use storm_os.MemPhysical.State.{Memory, num_physical_pages}
use storm_os.MemPhysical.Init.{Smap, physical_memory_init}
use storm_os.MemPhysical.Init.Count.{count_available, physical_memory_init_quota}
use storm_os.MemPhysical.Containers.{container_init}
use storm_os.MemPhysical.Containers.Tree.{IsTree}
use storm_os.MemPhysical.Containers.Reachable.{physical_memory_init-IsTree}
use storm_os.MemVirtual.State.{Vm}
use storm_os.MemPhysical.State.{mem_userlo, mem_userhi}
use storm_os.MemVirtual.Tables.{get_page_table_entry_by_va}
use storm_os.MemVirtual.Ram.{word}
use storm_os.Thread.State.{max_procs}
use storm_os.MemVirtual.Init.Identity.{
  virtual_memory_init_lem, virtual_memory_init-IsVm, virtual_memory_init-memory,
}
use storm_os.MemVirtual.Tables.Invariant.{IsVm, IsSettled}
use storm_os.Thread.Schedule.RoundRobin.{IsCycle, thread_init-IsCycle}
use storm_os.Interrupts.Segments.{interrupt_init}
use storm_os.Interrupts.Segments.Init.{enabled_mask, interrupt_init-IsReady}
use storm_os.Interrupts.Segments.Switch.{IsSegments}
use storm_os.Kernel.{Kernel}
use storm_os.Boot.{Image, initialize}

-- The initial values of the globals, as far as they matter.
pub record IsFresh (k : Kernel) : Type 0 where
  pub first : k.segments.intr_inited ≡ false
  pub no_freed : k.vm.memory.last_freed_page ≡ none
  pub no_alloc : k.vm.memory.last_alloc_page ≡ none
  pub no_container : (id : ℕ) → (k.vm.memory.containers id).used ≡ false

-- The invariants of the parts.
pub record IsInitialized (image : Image) (mask : ℕ) (k : Kernel) : Type 0 where
  pub segments : IsSegments image.tss0 k.segments
  pub interrupts : k.pic.irqmask ≡ enabled_mask mask
  pub tree : IsTree k.vm.memory
  pub quota :
      (k.vm.memory.containers 0).quota ≡ count_available k.vm.memory.pages num_physical_pages
  pub usage : (k.vm.memory.containers 0).usage ≡ 0
  pub childless : (k.vm.memory.containers 0).num_children ≡ 0
  pub vm : IsVm k.vm
  pub unmapped :
      (p va : ℕ)
      → p < max_procs
      → ¬ p ≡ 0
      → mem_userlo ≤ va
      → va < mem_userhi
      → get_page_table_entry_by_va p va k.vm ≡ 0
  pub directory : k.registers.cr3 ≡ image.dirs
  pub threads : IsCycle k.threads (0 ∷ [])

root_childless :
    (smap : List Smap) (m : Memory) → ((physical_memory_init smap m).containers 0).num_children ≡ 0
unfolding physical_memory_init container_init
root_childless smap m = refl

physical_memory_init-IsSettled :
    (smap : List Smap) (m : Memory)
    → m.last_freed_page ≡ none
    → m.last_alloc_page ≡ none
    → IsSettled (physical_memory_init smap m)
unfolding physical_memory_init container_init
physical_memory_init-IsSettled smap m f a = record {
  last_in_range = λ p e. absurd (cc (e, a));
  none_freed = f;
}

-- When the globals have their initial values and pageDirIdentity is aligned to a page and ends within
-- the address space, the initializations establish the invariants of the parts: the segments with
-- the task segment at tss0, the interrupts that are let in, a tree of containers whose root, with
-- no children, owns all pages that can be handed out and uses none, well-formed page tables that
-- map no user address of a process other than 0, with process 0's directory loaded, and thread 0
-- running alone.
pub initialize-IsInitialized :
    (image : Image) (smap : List Smap) (k : Kernel)
    → IsFresh k
    → image.tss0 < 2 ^ 32
    → image.identity % 4096 ≡ 0
    → image.identity + 1024 * 4096 ≤ word
    → IsInitialized image k.pic.irqmask (initialize image smap k)
unfolding initialize
initialize-IsInitialized image smap k fresh small aligned fits =
    let ready =
      interrupt_init-IsReady image.tss0 image.kernel_stack image.proc_stacks image.entries
        k.segments k.vm.ram k.pic fresh.first small in
    let settled = physical_memory_init-IsSettled smap k.vm.memory fresh.no_freed fresh.no_alloc in
    let memory = physical_memory_init smap k.vm.memory in
    let vm : Vm = record k.vm {
      ram =
          (interrupt_init image.tss0 image.kernel_stack image.proc_stacks image.entries k.segments
            k.vm.ram k.pic).1;
      memory = memory;
    } in
    let (same, cr3) = virtual_memory_init-memory image.identity image.dirs vm k.registers in
    let (quota, usage, _) = physical_memory_init_quota smap k.vm.memory in
    record {
      segments = ready.segments;
      interrupts = ready.interrupts;
      tree = rw same (physical_memory_init-IsTree smap k.vm.memory fresh.no_container);
      quota = rw same quota;
      usage = rw same usage;
      childless = rw same (root_childless smap k.vm.memory);
      vm = virtual_memory_init-IsVm image.identity image.dirs vm k.registers settled;
      unmapped = λ p va small other lo hi.
          virtual_memory_init_lem image.identity image.dirs vm k.registers p va aligned fits small
            (omega arith)
          ∙ ground arith;
      directory = cr3;
      threads = thread_init-IsCycle k.threads;
    }
