-- ===== src/Thread.antt =====
-- src/thread.c: thread control blocks, the queues that are threaded through them, and the switches
-- from one thread to the next. An array is a function of its index: the source checks no index, and
-- the theorems' hypotheses keep each in range.
pub mod State
pub mod Queue
pub mod Schedule
