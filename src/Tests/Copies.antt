-- ===== src/Tests/Copies.antt =====
-- The copies and the page fault at concrete states.
use storm_os.Base.{◌≡◌, refl, some, arith}
use storm_os.MemPhysical.Containers.{container_alloc}
use storm_os.MemVirtual.State.{Vm, pte_pwu}
use storm_os.MemVirtual.Tables.{alloc_page, get_page_table_entry_by_va}
use storm_os.MemVirtual.Tables.MapPage.{Failed}
use storm_os.MemVirtual.Copy.{pt_copy_out, mem_copy}
use storm_os.MemVirtual.Copy.Length.{pt_copy_out-Failed}
use storm_os.Tests.PageTables.{empty}

-- No container may have a page.
abbrev poor : Vm
poor = record empty {
  memory = record empty.memory {
    containers = λ id. record (empty.memory.containers id) { quota = 0; usage = 0 };
  };
}

poor-Failed : Failed poor (alloc_page 3 0x40003123 pte_pwu poor)
unfolding alloc_page container_alloc
poor-Failed = record {
  err = refl;
  same_dirs = refl;
  same_ram = refl;
  grows = record {
    settled = record { last_in_range = λ a e. absurd (cc e); none_freed = refl };
    keeps = λ x h. h;
  };
}

none_mapped : get_page_table_entry_by_va 3 0x40003123 poor ≡ 0
unfolding get_page_table_entry_by_va
none_mapped = refl

pt_copy_out-Failed_example :
    pt_copy_out 0x8000 3 0x40003123 16 poor
    ≡ some (
      16,
      record ((alloc_page 3 0x40003123 pte_pwu poor).state) {
        ram = mem_copy 0x123 0x8000 16 poor.ram;
      },
    )
pt_copy_out-Failed_example =
    pt_copy_out-Failed 3 0x40003123 0x8000 16 poor (omega arith) (omega arith) (omega arith)
      (omega arith) (omega arith) none_mapped poor-Failed
