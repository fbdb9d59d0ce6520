-- ===== src/Interrupts/Segments/Init.antt =====
-- What InterruptInit leaves: segments, stacks, gates and the interrupts that it lets in.
use storm_os.Base.{
  ltb, leb, if◌then◌else◌, ltb-true, update, for_upto, for_upto-modify, ℕ, zero, suc, ◌+◌, ◌-◌, ◌*◌,
  ◌^◌, ◌<◌, ◌≡◌, refl, sym, ap, ◌∙◌, Bool, true, false, ◌&&◌, arith,
}
use mathlib.Core.Path.{subst}
use storm_os.MemPhysical.State.{page_size}
use storm_os.MemVirtual.Ram.{Ram}
use storm_os.MemVirtual.Copy.{mem_set, mem_zero}
use storm_os.Thread.State.{max_procs}
use storm_os.Pic.{Pic, pic_init, pic_enable}
use storm_os.Pic.Mask.{bit}
use storm_os.Interrupts.{Entry, GateDesc, interrupt_init_idt}
use storm_os.Interrupts.Gates.{IsGate, interrupt_init_idt-IsGate, user_level}
use storm_os.Interrupts.Descriptors.{Tss, zero_tss, iopm_offset}
use storm_os.Interrupts.Segments.{
  Segments, process_tss, bootstrap_segments, process_segments, interrupt_enable, interrupt_init,
  cpu_gdt_kdata,
}
use storm_os.Interrupts.Segments.Switch.{
  IsSegments, task_descriptor-IsTask, code-IsFlat, data-IsFlat,
}

-- An interrupt of the process goes to the kernel's data segment, on the process's own stack, and
-- the map of ports ends in a byte of ones.
pub record IsProcessTss (proc_stacks pid : ℕ) (t : Tss) : Type 0 where
  pub stack : t.ts_esp0 ≡ proc_stacks + (pid + 1) * page_size
  pub segment : t.ts_ss0 ≡ cpu_gdt_kdata
  pub ports : t.ts_iomb ≡ iopm_offset
  pub end : t.ts_iopm 128 ≡ 0xff

process_tss-IsProcessTss :
    (proc_stacks pid : ℕ) (t : Tss) → IsProcessTss proc_stacks pid (process_tss proc_stacks pid t)
process_tss-IsProcessTss proc_stacks pid t = record {
  stack = omega arith;
  segment = refl;
  ports = refl;
  end = refl;
}

process_segments-IsProcessTss :
    (proc_stacks : ℕ) (s : Segments) (pid : ℕ)
    → pid < max_procs
    → IsProcessTss proc_stacks pid ((process_segments proc_stacks s).tss_loc pid)
unfolding process_segments
process_segments-IsProcessTss proc_stacks s pid small =
    let zeroed = for_upto max_procs (λ pid f. update f pid zero_tss) s.tss_loc in
    subst (IsProcessTss proc_stacks pid)
      (sym (
        for_upto-modify max_procs (process_tss proc_stacks) zeroed pid
        ∙ rw (ltb-true pid max_procs small) refl))
      (process_tss-IsProcessTss proc_stacks pid (zeroed pid))

pub bootstrap_segments-IsSegments :
    (tss0_at kernel_stack : ℕ) (s : Segments)
    → tss0_at < 2 ^ 32
    → IsSegments tss0_at (bootstrap_segments tss0_at kernel_stack s)
unfolding bootstrap_segments
bootstrap_segments-IsSegments tss0_at kernel_stack s h = record {
  kernel_code = code-IsFlat 0 (omega arith);
  kernel_data = data-IsFlat 0 (omega arith);
  user_code = code-IsFlat 3 (omega arith);
  user_data = data-IsFlat 3 (omega arith);
  task = task_descriptor-IsTask tss0_at h;
  loaded = refl;
}

keeps-IsSegments :
    (proc_stacks address : ℕ) (idt : ℕ → GateDesc) (b : Bool) (s : Segments)
    → IsSegments address s
    → IsSegments address (record (process_segments proc_stacks s) { idt = idt; intr_inited = b })
unfolding process_segments
keeps-IsSegments proc_stacks address idt b s inv = record {
  kernel_code = inv.kernel_code;
  kernel_data = inv.kernel_data;
  user_code = inv.user_code;
  user_data = inv.user_data;
  task = inv.task;
  loaded = inv.loaded;
}

pic_init-irqmask : (s : Pic) → (pic_init s).irqmask ≡ s.irqmask
unfolding pic_init
pic_init-irqmask s = ground arith

-- The mask without the bits of the timer, the keyboard and the serial port.
abbrev pub enabled_mask : ℕ → ℕ
enabled_mask m = m - bit m 0 - bit m 1 * 2 - bit m 4 * 16

enable_three :
    (s : Pic)
    → (interrupt_enable 4 (interrupt_enable 1 (interrupt_enable 0 s))).irqmask
      ≡ enabled_mask s.irqmask
unfolding pic_enable
enable_three s = omega arith

mem_set_at :
    (d v n a : ℕ) (r : Ram) → mem_set d v n r a ≡ (if leb d a && ltb a (d + n) then v else r a)
unfolding mem_set for_upto
mem_set_at d v zero a r = ground arith
mem_set_at d v (suc n) a r = ground (arith, mem_set_at d v n a r)

-- What InterruptInit sets up.
pub record IsReady (tss0_at proc_stacks mask : ℕ) (address : Entry → ℕ) (ram : Ram)
    (r : Segments × Ram × Pic) : Type 0 where
  pub segments : IsSegments tss0_at r.0
  pub stacks : (pid : ℕ) → pid < max_procs → IsProcessTss proc_stacks pid (r.0.tss_loc pid)
  pub gates : (v : ℕ) → v < 256 → IsGate address v (r.0.idt v) × ((r.0.idt v).gd_dpl ≡ user_level v)
  pub once : r.0.intr_inited ≡ true
  pub interrupts : r.2.irqmask ≡ enabled_mask mask
  pub zeroed :
      (a : ℕ)
      → r.1 a
        ≡ (if leb proc_stacks a && ltb a (proc_stacks + max_procs * page_size) then 0 else ram a)

module _ (tss0_at kernel_stack proc_stacks : ℕ) (address : Entry → ℕ) (s : Segments) (ram : Ram)
    (pic : Pic) where
  -- The first call of InterruptInit sets up flat kernel and user segments, the task segment at
  -- tss0, a stack of its own for the interrupts of each process, a gate for each vector, and lets
  -- in the timer, the keyboard and the serial port beside what the mask let in. It clears the
  -- stacks of the processes and no other byte.
  pub interrupt_init-IsReady :
      s.intr_inited ≡ false
      → tss0_at < 2 ^ 32
      → IsReady tss0_at proc_stacks pic.irqmask address ram
          (interrupt_init tss0_at kernel_stack proc_stacks address s ram pic)
  unfolding interrupt_init
  interrupt_init-IsReady first h =
      let booted = bootstrap_segments tss0_at kernel_stack s in
      let ready = process_segments proc_stacks booted in
      let idt = interrupt_init_idt address ready.idt in
      let after : Segments × Ram × Pic = (
        record ready { idt = idt; intr_inited = true },
        mem_zero proc_stacks (max_procs * page_size) ram,
        interrupt_enable 4 (interrupt_enable 1 (interrupt_enable 0 (pic_init pic))),
      ) in
      let Ready = IsReady tss0_at proc_stacks pic.irqmask address ram in
      subst (λ b. Ready (if b then (s, ram, pic) else after)) (sym first)
        (record {
          segments =
              keeps-IsSegments proc_stacks tss0_at idt true booted
                (bootstrap_segments-IsSegments tss0_at kernel_stack s h);
          stacks = process_segments-IsProcessTss proc_stacks booted;
          gates = interrupt_init_idt-IsGate address ready.idt;
          once = refl;
          interrupts = enable_three (pic_init pic) ∙ ap enabled_mask (pic_init-irqmask pic);
          zeroed = λ a. mem_set_at proc_stacks 0 (max_procs * page_size) a ram;
        })
