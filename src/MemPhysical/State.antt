-- ===== src/MemPhysical/State.antt =====
-- The globals of src/mem_physical.c. An `int` of a container is its 32-bit pattern, and -1 in
-- lastFreedPage and lastAllocPage is `none`.
use storm_os.Base.{update, ℕ, ◌^◌, Bool, true, false, not, ◌&&◌, Option}

abbrev pub page_size : ℕ
page_size = 4096

abbrev pub num_physical_pages : ℕ
num_physical_pages = 2 ^ 20

abbrev pub mem_userlo : ℕ
mem_userlo = 0x40000000

abbrev pub mem_userhi : ℕ
mem_userhi = 0xF0000000

abbrev pub mem_userlo_pi : ℕ
mem_userlo_pi = 0x40000

abbrev pub mem_userhi_pi : ℕ
mem_userhi_pi = 0xF0000

abbrev pub max_children : ℕ
max_children = 8

pub data PagePerm : Type 0 where
  bios kernel user : PagePerm

pub record PageInfo : Type 0 where
  pub allocated : Bool
  pub perm : PagePerm

pub record Container : Type 0 where
  pub quota : ℕ
  pub usage : ℕ
  pub parent : ℕ
  pub num_children : ℕ
  pub used : Bool

pub record Memory : Type 0 where
  pub pages : ℕ → PageInfo
  pub containers : ℕ → Container
  pub last_freed_page : Option ℕ
  pub last_alloc_page : Option ℕ

abbrev pub is_user : PagePerm → Bool
is_user user = true
is_user _ = false

-- `!pPageInfo[page].allocated && pPageInfo[page].perm == PPAGEPERM_USER`
abbrev pub available : (ℕ → PageInfo) → ℕ → Bool
available pages p = not (pages p).allocated && is_user (pages p).perm

abbrev pub set_allocated : (ℕ → PageInfo) → ℕ → Bool → ℕ → PageInfo
set_allocated pages p a = update pages p (record (pages p) { allocated = a })
