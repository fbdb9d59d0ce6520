-- ===== src/Tests.antt =====
-- The theorems at concrete inputs, and runs of the definitions.
mod Threads
mod Frames
mod PageTables
mod Division
mod Devices
mod Output
mod Copies
mod Calls
mod Traps
mod Screens
mod Processes
mod Boot
mod Programs
