-- ===== src/Traps/Frames.antt =====
-- What a trap keeps, whatever it was.
use storm_os.Base.{◌≡◌}
use storm_os.Kernel.{Kernel}

-- The threads, the saved frames and the registers are as they were.
abbrev Same : Kernel → Kernel → Type 0
Same k t =
    (t.threads ≡ k.threads) × (t.user_contexts ≡ k.user_contexts) × (t.registers ≡ k.registers)
