-- ===== src/Process/Start.antt =====
-- The start of a process that CreateProcess made (src/thread.c).
use storm_os.Base.{ℕ, ◌+◌, ◌*◌, ◌%◌, ◌≡◌, ◌≢◌}
use storm_os.MemPhysical.State.{page_size}
use storm_os.Thread.Schedule.{force_run_process}
use storm_os.Interrupts.Descriptors.{tss_size}
use storm_os.Interrupts.Segments.Switch.{IsSegments}
use storm_os.Kernel.{TrapFrame, Kernel}
use storm_os.MemVirtual.Ram.{Ram, word, load32}
use storm_os.Loader.{elf_hdr, elf_magic, elf_shn_undef, elf_sht_strtab}
use storm_os.Process.{user_frame, process_start_user}

-- ProcessStartUser, once ForceRunProcess has made a process the current one.
abbrev pub started : ℕ → ℕ → ℕ × Kernel → TrapFrame × Kernel
started tss_loc dirs r =
    process_start_user tss_loc dirs (record r.1 { threads = (force_run_process r.0 r.1.threads).0 })

module _ (tss_loc dirs start elf : ℕ) (k : Kernel) where
  -- What CreateProcess returned, and what ProcessStartUser then does.
  pub record IsStarted (r : ℕ × Kernel) : Type 0 where
    pub context : (r.1.threads.kernel_contexts r.0).eip ≡ start
    pub frame :
        (started tss_loc dirs r).0 ≡ user_frame (load32 r.1.vm.ram (elf + 24)) (k.user_contexts r.0)
    pub directory : (started tss_loc dirs r).1.registers.cr3 ≡ dirs + r.0 * page_size
    pub segments : IsSegments (tss_loc + r.0 * tss_size) (started tss_loc dirs r).1.segments

-- What ELFLoad asserts of an executable: the magic number, a table of section names, and its type.
pub record IsElf (elf : ℕ) (r : Ram) : Type 0 where
  pub magic : load32 r elf ≡ elf_magic
  pub names : (elf_hdr r elf).e_shstrndx ≢ elf_shn_undef
  pub strings :
      load32 r ((elf + (elf_hdr r elf).e_shoff + (elf_hdr r elf).e_shstrndx * 40 + 4) % word)
      ≡ elf_sht_strtab

-- Where ELFLoad finds the program headers, and where they end.
abbrev pub headers : ℕ → Ram → ℕ
headers elf r = (elf + (elf_hdr r elf).e_phoff) % word

abbrev pub headers_end : ℕ → Ram → ℕ
headers_end elf r = (headers elf r + (elf_hdr r elf).e_phnum * 32) % word
