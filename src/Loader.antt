-- ===== src/Loader.antt =====
-- src/elf.c: ELFLoad and ELFEntry, on the executable in memory.
pub mod Ends
use storm_os.Base.{
  ltb, ◌==◌, if◌then◌else◌, ℕ, zero, suc, ◌+◌, ◌-◌, ◌*◌, ◌/◌, ◌%◌, ◌^◌, not, ◌&&◌, Option,
}
use storm_os.MemPhysical.State.{page_size}
use storm_os.MemVirtual.Ram.{Ram, word, load32}
use storm_os.MemVirtual.Init.{is_user_dir}
use storm_os.MemVirtual.State.{Vm, pde_index, pte_p, pte_u, pte_w}
use storm_os.MemVirtual.Tables.{alloc_page}
use storm_os.MemVirtual.Copy.{pt_copy_out, pt_mem_set}
use storm_os.Types.Round.{round_down, round_up}
use storm_os.Kernel.{Run, done, panics, undefined, ◌>>=◌, defined}

abbrev pub elf_magic : ℕ
elf_magic = 0x464C457F

abbrev pub elf_shn_undef : ℕ
elf_shn_undef = 0

abbrev pub elf_sht_strtab : ℕ
elf_sht_strtab = 3

abbrev pub elf_prog_load : ℕ
elf_prog_load = 1

-- `*((uint16*)addr)`
abbrev pub load16 : Ram → ℕ → ℕ
load16 r a = r a + r (a + 1) * 2 ^ 8

-- The fields of the header at `eh` that are read.
pub record ElfHdr : Type 0 where
  pub e_magic : ℕ
  pub e_entry : ℕ
  pub e_phoff : ℕ
  pub e_shoff : ℕ
  pub e_phnum : ℕ
  pub e_shstrndx : ℕ

abbrev pub elf_hdr : Ram → ℕ → ElfHdr
elf_hdr r eh = record {
  e_magic = load32 r eh;
  e_entry = load32 r (eh + 24);
  e_phoff = load32 r (eh + 28);
  e_shoff = load32 r (eh + 32);
  e_phnum = load16 r (eh + 44);
  e_shstrndx = load16 r (eh + 50);
}

-- The fields of a program header that are read.
pub record ProgHdr : Type 0 where
  pub p_type : ℕ
  pub p_offset : ℕ
  pub p_va : ℕ
  pub p_filesz : ℕ
  pub p_memsz : ℕ
  pub p_flags : ℕ

abbrev pub prog_hdr : Ram → ℕ → ProgHdr
prog_hdr r ph = record {
  p_type = load32 r ph;
  p_offset = load32 r (ph + 4);
  p_va = load32 r (ph + 8);
  p_filesz = load32 r (ph + 16);
  p_memsz = load32 r (ph + 20);
  p_flags = load32 r (ph + 24);
}

-- The state that a copy leaves; the number of bytes is not looked at.
abbrev pub after_copy : Option (ℕ × Vm) → Run Vm
after_copy o = defined o >>= λ (r : ℕ × Vm). done r.1

-- What is put into a page once it is there.
unfoldable pub fill_page : ℕ → ℕ → ℕ → ℕ → ℕ → Vm → Run Vm
fill_page pid fa va zva filesz s = defined (round_down zva page_size) >>= λ whole.
    if ltb va whole
    then after_copy (pt_copy_out fa pid va page_size s)
    else if ltb va zva && not (filesz == 0)
    then (after_copy (pt_mem_set pid va 0 page_size s) >>= λ t.
        after_copy (pt_copy_out fa pid va (zva - va) t))
    else after_copy (pt_mem_set pid va 0 page_size s)

-- The loop over the pages of a segment, `rounds` times at most. A page outside of the user part
-- would replace what the kernel's own addresses are mapped to, in the tables that all processes
-- share: there the model has no result.
unfoldable pub load_pages : ℕ → ℕ → ℕ → ℕ → ℕ → ℕ → ℕ → ℕ → Vm → Run Vm
load_pages zero pid fa va zva eva perm filesz s = if ltb va eva then undefined else done s
load_pages (suc rounds) pid fa va zva eva perm filesz s =
    let mapped = alloc_page pid va perm s in
    let next =
      fill_page pid fa va zva filesz mapped.state
      >>= load_pages rounds pid ((fa + page_size) % word) ((va + page_size) % word) zva eva perm
          filesz in
    if not (ltb va eva)
    then done s
    else if not (is_user_dir (pde_index va))
    then undefined
    else if mapped.err
    then panics
    else next

-- A program header that is to be loaded.
unfoldable pub load_segment : ℕ → ℕ → ProgHdr → Vm → Run Vm
load_segment eh pid ph s = defined (round_down ph.p_offset page_size) >>= λ offset.
    defined (round_down ph.p_va page_size) >>= λ va.
    defined (round_up ((ph.p_va + ph.p_memsz) % word) page_size) >>= λ eva.
    load_pages ((eva - va) / page_size) pid ((eh + offset) % word) va
      ((ph.p_va + ph.p_filesz) % word) eva
      (if ph.p_flags / 2 % 2 == 0 then pte_u + pte_p else pte_u + pte_p + pte_w) ph.p_filesz s

-- The loop over the program headers from `ph` to `eph`; a header has 32 bytes.
unfoldable pub load_segments : ℕ → ℕ → ℕ → ℕ → ℕ → Vm → Run Vm
load_segments zero eh pid ph eph s = if ltb ph eph then undefined else done s
load_segments (suc rounds) eh pid ph eph s =
    let here = prog_hdr s.ram ph in
    let loaded = if here.p_type == elf_prog_load then load_segment eh pid here s else done s in
    let next = loaded >>= load_segments rounds eh pid ((ph + 32) % word) eph in
    if ltb ph eph then next else done s

-- A section header has 40 bytes, its type the bytes from 4 on.
unfoldable pub elf_load : ℕ → ℕ → Vm → Run Vm
elf_load exe pid s =
    let eh = elf_hdr s.ram exe in
    let ph = (exe + eh.e_phoff) % word in
    let load = load_segments eh.e_phnum exe pid ph ((ph + eh.e_phnum * 32) % word) s in
    if not (eh.e_magic == elf_magic)
    then panics
    else if eh.e_shstrndx == elf_shn_undef
    then panics
    else if not
        (load32 s.ram ((exe + eh.e_shoff + eh.e_shstrndx * 40 + 4) % word) == elf_sht_strtab)
    then panics
    else load

unfoldable pub elf_entry : ℕ → Ram → Run ℕ
elf_entry exe r =
    let eh = elf_hdr r exe in if eh.e_magic == elf_magic then done eh.e_entry else panics
