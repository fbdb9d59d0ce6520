-- ===== src/MemPhysical.antt =====
-- src/mem_physical.c: the table of physical pages, and the containers that bound each process's use
-- of them. Array indices are not checked by the source; the theorems keep them in range.
pub mod State
pub mod Pages
pub mod Containers
pub mod Init
