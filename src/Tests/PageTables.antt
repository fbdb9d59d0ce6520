-- ===== src/Tests/PageTables.antt =====
-- AllocPage and AllocPageTable in a process that has no table yet.
use storm_os.Base.{refl, ◌≢◌, ◌⊎◌, arith}
use storm_os.MemPhysical.Containers.{container_alloc}
use storm_os.MemVirtual.State.{Vm}
use storm_os.MemVirtual.Tables.{alloc_page}
use storm_os.MemVirtual.Tables.Invariant.{Granted, IsVm}
use storm_os.MemVirtual.Tables.MapPage.{Failed, Succeeded}
use storm_os.MemVirtual.Tables.AllocPage.{alloc_page_cases}
use storm_os.Tests.Frames.{booted}

abbrev pub empty : Vm
empty = record {
  page_dir_entries = λ p i. 0;
  ram = λ a. 0;
  memory = record booted { containers = λ id. record (booted.containers 0) { quota = 100 } };
}

pub empty-IsVm : IsVm empty
empty-IsVm = record {
  settled = record { last_in_range = λ a e. absurd (cc e); none_freed = refl };
  tables = λ p i u ne. absurd (ne refl);
  apart = λ p i q j u w ne nf same. absurd (ne refl);
}

alloc_page_cases_example :
    (let m = alloc_page 3 0x40003000 7 empty in
      Granted empty.memory (container_alloc 3 empty.memory).0 m.state.memory
      × Succeeded empty 3 0x40003000 (container_alloc 3 empty.memory).0 7 m
      × (m.result ≢ (container_alloc 3 empty.memory).0))
    ⊎ Failed empty (alloc_page 3 0x40003000 7 empty)
alloc_page_cases_example =
    alloc_page_cases 3 0x40003000 7 empty empty-IsVm (omega arith) (omega arith)
