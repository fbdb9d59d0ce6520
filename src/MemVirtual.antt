-- ===== src/MemVirtual.antt =====
-- src/mem_virtual.c: two-level page tables over physical memory.
pub mod Copy
pub mod Init
pub mod Ram
pub mod State
pub mod Tables
