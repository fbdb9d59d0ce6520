-- ===== src/User/Call.antt =====
-- PutStr of the user library, through the trap and the kernel, to the console.
use storm_os.MemVirtual.Ram.{Ram}
use storm_os.Kernel.{Kernel}
