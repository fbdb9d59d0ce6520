-- ===== src/Lib.antt =====
-- Storm O.S., a 32-bit kernel in C: its memory, its threads, its interrupts, its input and output,
-- its system calls and its command prompt.
--
-- The parts of the program and their modules. Paths are from the repository's root.
--   MemPhysical   src/mem_physical.c: the table of physical pages (PhysicalMemoryInit,
--                 PhysicalPageAlloc, PhysicalPageFree) in Init and Pages, and the containers that
--                 hold the quotas of the processes (ContainerSplit, ContainerAlloc, ContainerFree)
--                 in Containers. The record Memory is the file's globals; the page table is a
--                 function of the page's index.
--   MemVirtual    src/mem_virtual.c: the page directories and page tables of the processes
--                 (AllocPageTable, FreePageTable, MapPage, UnmapPage, AllocPage) in Tables, and
--                 PTCopyIn, PTCopyOut and PTMemSet in Copy, with MemCopy, MemSet and MemZero
--                 of src/system.c, and VirtualMemoryInit with EnablePaging and SetPageDirectory in
--                 Init. The page tables lie in Ram, byte for byte; the record Vm holds the
--                 directories, the memory's bytes and Memory, from which AllocPage takes pages.
--   Thread        src/thread.c: the queues of threads, doubly linked through the array of TCBs
--                 (TQEnqueue, TQDequeue, TQRemove) in Queue, and ThreadInit, ThreadYield and
--                 ForceRunProcess in Schedule. ContextSwitch is assembly: the call is returned.
--   Loader        src/elf.c: ELFLoad, which reads the headers of the executable from memory, and
--                 ELFEntry, over AllocPage, PTCopyOut and PTMemSet.
--                 A segment at a kernel address, whose pages replace what the kernel is mapped to,
--                 has no result: later accesses of the kernel are taken as physical addresses.
--   Process       src/thread.c: ThreadSpawn, CreateProcess and ProcessStartUser, over ContainerSplit,
--                 the queues, the loader and SwitchTSS.
--   Interrupts    src/interrupt.c: the gates that InterruptInitIDT installs in Gates, the segment
--                 descriptors and task state segments in Descriptors, InterruptInit and SwitchTSS
--                 over them in Segments, and PageFaultHandler, which calls AllocPage,
--                 ExceptionHandler and InterruptHandler in Handlers.
--   Boot          src/kernel.c: KernelMain, which starts the parts, waits for Enter and runs the
--                 monitor. What is printed is kept in a list of calls.
--   Debug         src/debug.c: DebugTrace on the frames in memory, and DebugPanic.
--   Kernel        The globals of all files as one record, the trap frame of src/interrupt.h, and how
--                 a call ends: it returns, panics, or does what C leaves undefined.
--   Syscalls      src/syscall.c: SysPutStr, SysGetChar, SysDisplayBuffer and SyscallDispatch, over
--                 PTCopyIn and PrintfColor; DisplayUserBuffer of src/screen.c.
--   Traps         HandleTrap of src/interrupt.c, over the handlers and the system calls.
--   User          src/user/lib: the frames of the system calls of syscall.c, PrintfPutCh and VPrintf
--                 of stdio.c, whose PrintNum and VPrintFmt are the text of src/printf.c; the
--                 program src/user/user.c in Program.
--   Monitor       src/monitor.c: RunCommand, whose loops split the line in Parse, the commands, and
--                 the loop of MonitorRun, which is left when a user process starts, since
--                 its thread is not queued. Calls of other files are kept in a list. The lemmas on
--                 the loops are in Words, Loops, Arguments and Split.
--   Screen        src/screen.c: PaintRange, DrawCharAt, ScrollScreen, ClearScreen and DisplayBuffer
--                 on the buffer of the screen, with the table reverseBits of src/font8x8.h. What
--                 goes to the ports and to video memory is kept in a list.
--   Pic           src/pic.c: the interrupt controllers, by what is written to their ports.
--   Keyboard      src/keyboard.c: KeyboardGetData with the code tables in Tables. What it prints
--                 at Ctrl-Alt-Del is kept with it, and does not move the console.
--   Console       src/console.c: GetChar, which polls the keyboard into a ring, and PutChar,
--                 PutStr and MoveCursor. Calls of src/screen.c are kept in a list.
--   Printf        src/printf.c: PrintfPutCh with its buffer, PrintNum, VPrintFmt and VPrintf; Printf,
--                 PrintfColor and SetTextColor in Colors. Render is the reference text of a format,
--                 and Prints has the lemmas that compare the two.
--   Strings       src/string.c: all four functions.
--   Types         src/types.h: DivideAndMod64by32, on which PrintNum stands, and RoundDown and
--                 RoundUp.
--   Base          Tests and lists over the native numbers, arrays as functions, counted loops.
--   Tests         The theorems at concrete inputs, and runs of the definitions.
--
-- A function that changes globals takes the record of them and returns the new one. Numbers are
-- natural numbers, and a 32-bit or 64-bit operation that can wrap around is taken modulo its
-- range. An array is a function of the index; the code's accesses outside of an array are not
-- told apart from those inside, except where a theorem speaks of the index.
--
-- Loops with a bound on their rounds: the two loops of DivideAndMod64by32 have 65, since the divisor
-- doubles at most 64 times; PrintNum has 64 calls, since a number below 2 ^ 64 has at most 64
-- digits; the copies have as many rounds as bytes, since a round moves one at least; the polling
-- loop of GetChar has one more round than the keyboard holds bytes; the loop of SysPutStr has as
-- many rounds as the string has bytes, the loops of RunCommand as many as its buffer, and those of
-- ELFLoad as many as the program headers and the pages. That these are enough is part of the
-- theorems on them. The keyboard is taken to send nothing while it is polled.
--
-- Parameters: the addresses of the trap entries, of ProcessStartUser, and of the arrays and structs
-- pageDirEntries, pageDirIdentity, sysBuf, procStacks, kernelStack, tss0 and tssLoc, which the linker
-- fixes; what GetCR2 reads; what an uninitialised buffer on the stack holds; the font of
-- src/font8x8.h.
--
-- Not modelled: assembly (src/boot.s, src/kernel_entry.s, src/ctx_switch.s, src/trap_main.S and the
-- inline assembly of src/x86.c and src/port_io.c, and that of InterruptInit which loads tables and
-- segment registers); src/user/lib/types.c is the text of src/types.h. What a panic prints is
-- modelled in Debug only: elsewhere a panic is the end of the call.
pub mod Base
pub mod Boot
pub mod Console
pub mod Debug
pub mod Interrupts
pub mod Kernel
pub mod Keyboard
pub mod Loader
pub mod MemPhysical
pub mod MemVirtual
pub mod Monitor
pub mod Pic
pub mod Printf
pub mod Process
pub mod Screen
pub mod Strings
pub mod Syscalls
pub mod Tests
pub mod Thread
pub mod Traps
pub mod Types
pub mod User
