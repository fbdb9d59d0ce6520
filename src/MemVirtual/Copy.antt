-- ===== src/MemVirtual/Copy.antt =====
-- PTCopyIn, PTCopyOut and PTMemSet of src/mem_virtual.c, with MemCopy and MemSet of src/system.c.
pub mod Bytes
pub mod Contents
pub mod Round
pub mod Length
use storm_os.Base.{
  ltb, leb, ◌==◌, if◌then◌else◌, update, for_upto, ℕ, zero, suc, ◌+◌, ◌-◌, ◌%◌, ◌^◌, Bool, not,
  ◌&&◌, Option, none, some,
}
use storm_os.MemPhysical.State.{page_size, mem_userlo, mem_userhi}
use storm_os.MemVirtual.Ram.{Ram, word}
use storm_os.MemVirtual.State.{Vm, pte_pwu, page_base}
use storm_os.MemVirtual.Tables.{get_page_table_entry_by_va, alloc_page}

-- Bytes are copied one after the other, from the first on.
unfoldable pub mem_copy : ℕ → ℕ → ℕ → Ram → Ram
mem_copy dst src size r = for_upto size (λ i r. update r (dst + i) (r (src + i))) r

unfoldable pub mem_set : ℕ → ℕ → ℕ → Ram → Ram
mem_set dst value size r = for_upto size (λ i r. update r (dst + i) value) r

abbrev pub mem_zero : ℕ → ℕ → Ram → Ram
mem_zero dst size r = mem_set dst 0 size r

-- `MEM_USERLO <= uva && uva + len <= MEM_USERHI`, on 32-bit numbers
abbrev pub in_user_space : ℕ → ℕ → Bool
in_user_space uva len = leb mem_userlo uva && leb ((uva + len) % word) mem_userhi

-- The physical address of a user address. A page is allocated if none is present.
pub user_address : ℕ → ℕ → Vm → ℕ × Vm
user_address pmap_id uva s =
    let pte = get_page_table_entry_by_va pmap_id uva s in
    let allocated = (alloc_page pmap_id uva pte_pwu s).state in
    if pte % 2 == 0
    then (
      (page_base (get_page_table_entry_by_va pmap_id uva allocated) + uva % page_size) % word,
      allocated,
    )
    else ((page_base pte + uva % page_size) % word, s)

-- How much of `len` bytes lies in the page of an address.
abbrev pub chunk : ℕ → ℕ → ℕ
chunk len pa = if ltb len (page_size - pa % page_size) then len else page_size - pa % page_size

-- The loop of the three functions, `fuel` rounds at most. `move pa kva size` is what a round does
-- with the bytes at `pa`.
unfoldable pub by_page : (ℕ → ℕ → ℕ → Ram → Ram) → ℕ → ℕ → ℕ → ℕ → ℕ → ℕ → Vm → Option (ℕ × Vm)
by_page move zero pmap_id uva kva len copied s = if len == 0 then some (copied, s) else none
by_page move (suc fuel) pmap_id uva kva len copied s =
    let pa = (user_address pmap_id uva s).0 in
    let found = (user_address pmap_id uva s).1 in
    let size = chunk len pa in
    let rest =
      by_page move fuel pmap_id ((uva + size) % word) ((kva + size) % word) (len - size)
        ((copied + size) % word) (record found { ram = move pa kva size found.ram }) in
    if len == 0 then some (copied, s) else rest

-- A round moves one byte at least, so that `len` rounds are enough.
pub pt_copy_in : ℕ → ℕ → ℕ → ℕ → Vm → Option (ℕ × Vm)
pt_copy_in pmap_id uva kva len s =
    if not (in_user_space uva len)
    then some (0, s)
    else if ltb mem_userhi ((kva + len) % word)
    then some (0, s)
    else by_page (λ pa kva size. mem_copy kva pa size) len pmap_id uva kva len 0 s

pub pt_copy_out : ℕ → ℕ → ℕ → ℕ → Vm → Option (ℕ × Vm)
pt_copy_out kva pmap_id uva len s =
    if not (in_user_space uva len)
    then some (0, s)
    else if ltb mem_userhi ((kva + len) % word)
    then some (0, s)
    else by_page (λ pa kva size. mem_copy pa kva size) len pmap_id uva kva len 0 s

pub pt_mem_set : ℕ → ℕ → ℕ → ℕ → Vm → Option (ℕ × Vm)
pt_mem_set pmap_id va c len s =
    by_page (λ pa kva size. mem_set pa (c % 2 ^ 8) size) len pmap_id va 0 len 0 s
