-- ===== src/Process.antt =====
-- ThreadSpawn, CreateProcess and ProcessStartUser of src/thread.c. The addresses of procStacks, of
-- tssLoc, of pageDirEntries and of ProcessStartUser, which the linker fixes, are parameters.
pub mod Spawn
pub mod Start
use storm_os.Base.{update, ℕ, ◌+◌, ◌-◌, ◌*◌}
use storm_os.MemPhysical.State.{page_size, mem_userhi}
use storm_os.MemPhysical.Containers.{container_split}
use storm_os.Thread.State.{max_procs, ready, set_state}
use storm_os.Thread.Queue.{tq_enqueue}
use storm_os.Thread.Schedule.{get_current_id}
use storm_os.Kernel.{TrapFrame, Kernel, Run, done, ◌>>=◌}
use storm_os.Interrupts.Segments.{switch_tss}
use storm_os.MemVirtual.Init.{set_page_directory}
use storm_os.Loader.{elf_load, elf_entry}

-- CPU_GDT_UCODE | 3 and CPU_GDT_UDATA | 3
abbrev pub user_code : ℕ
user_code = 0x1B

abbrev pub user_data : ℕ
user_data = 0x23

abbrev pub fl_if : ℕ
fl_if = 0x200

-- The frame of a process that starts at `entry`.
abbrev pub user_frame : ℕ → TrapFrame → TrapFrame
user_frame entry tf = record tf {
  es = user_data;
  ds = user_data;
  cs = user_code;
  ss = user_data;
  esp = mem_userhi;
  eflags = fl_if;
  eip = entry;
}

module _ (proc_stacks : ℕ) where
  -- The child's id, and the kernel with the child queued.
  unfoldable pub thread_spawn : ℕ → ℕ → ℕ → Kernel → ℕ × Kernel
  thread_spawn parent quota entry k =
      let id = (container_split parent quota k.vm.memory).0 in
      let contexts = update k.threads.kernel_contexts id (record (k.threads.kernel_contexts id) {
        eip = entry;
        esp = proc_stacks + id * page_size + (page_size - 1);
      }) in
      let threads = set_state id ready (record k.threads { kernel_contexts = contexts }) in
      (
        id,
        record k {
          vm = record k.vm { memory = (container_split parent quota k.vm.memory).1 };
          threads = tq_enqueue max_procs id threads;
        },
      )

  unfoldable pub create_process : ℕ → ℕ → ℕ → Kernel → Run (ℕ × Kernel)
  create_process process_start_user elf_addr quota k =
      let (pid, spawned) = thread_spawn (get_current_id k.threads) quota process_start_user k in
      elf_load elf_addr pid spawned.vm >>= λ vm. elf_entry elf_addr vm.ram >>= λ entry. done (
        pid,
        record spawned {
          vm = vm;
          user_contexts =
              update spawned.user_contexts pid (user_frame entry (spawned.user_contexts pid));
        },
      )

-- The frame that TrapReturn gets, and the kernel that it leaves.
unfoldable pub process_start_user : ℕ → ℕ → Kernel → TrapFrame × Kernel
process_start_user tss_loc dirs k =
    let pid = get_current_id k.threads in
    (
      k.user_contexts pid,
      record k {
        segments = switch_tss tss_loc pid k.segments;
        registers = set_page_directory dirs pid k.registers;
      },
    )
