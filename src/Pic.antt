-- ===== src/Pic.antt =====
-- src/pic.c: the two interrupt controllers. What the code writes to their ports is kept, oldest
-- write first.
pub mod Mask
use storm_os.Base.{
  if◌then◌else◌, ℕ, ◌+◌, ◌-◌, ◌*◌, ◌/◌, ◌%◌, ◌^◌, Bool, true, false, List, [], ◌∷◌, ◌++◌,
}

abbrev pub io_pic1 : ℕ
io_pic1 = 0x20

abbrev pub io_pic2 : ℕ
io_pic2 = 0xA0

abbrev pub irq_slave : ℕ
irq_slave = 2

abbrev pub t_irq0 : ℕ
t_irq0 = 32

pub record Pic : Type 0 where
  pub irqmask : ℕ
  pub pic_inited : Bool
  pub writes : List (ℕ × ℕ)

-- The static initializers of the two variables.
abbrev pub boot_pic : Pic
boot_pic = record { irqmask = 0xFFFB; pic_inited = false; writes = [] }

-- `PortByteOut(port, value)`, one after the other
abbrev pub port_bytes_out : List (ℕ × ℕ) → Pic → Pic
port_bytes_out bytes s = record s { writes = s.writes ++ bytes }

-- `m & ~(1 << i)`
abbrev pub clear_bit : ℕ → ℕ → ℕ
clear_bit m i = m - m / 2 ^ i % 2 * 2 ^ i

unfoldable pub pic_init : Pic → Pic
pic_init s =
    if s.pic_inited
    then s
    else port_bytes_out
        ((io_pic1 + 1, 0xff)
          ∷ (io_pic2 + 1, 0xff)
          ∷ (io_pic1, 0x11)
          ∷ (io_pic1 + 1, t_irq0)
          ∷ (io_pic1 + 1, 2 ^ irq_slave)
          ∷ (io_pic1 + 1, 0x1)
          ∷ (io_pic2, 0x11)
          ∷ (io_pic2 + 1, t_irq0 + 8)
          ∷ (io_pic2 + 1, irq_slave)
          ∷ (io_pic2 + 1, 0x01)
          ∷ (io_pic1, 0x68)
          ∷ (io_pic1, 0x0a)
          ∷ (io_pic2, 0x68)
          ∷ (io_pic2, 0x0a)
          ∷ (io_pic1 + 1, 0xFF)
          ∷ (io_pic2 + 1, 0xFF)
          ∷ [])
        (record s { pic_inited = true })

unfoldable pub pic_setmask : ℕ → Pic → Pic
pic_setmask mask s =
    port_bytes_out ((io_pic1 + 1, mask % 2 ^ 8) ∷ (io_pic2 + 1, mask / 2 ^ 8 % 2 ^ 8) ∷ [])
      (record s { irqmask = mask })

unfoldable pub pic_enable : ℕ → Pic → Pic
unfolding pic_setmask
pic_enable irq s = pic_setmask (clear_bit s.irqmask irq) s

unfoldable pub pic_eoi : Pic → Pic
pic_eoi s = port_bytes_out ((io_pic1, 0x20) ∷ (io_pic2, 0x20) ∷ []) s

pub pic_reset : Pic → Pic
pic_reset s =
    port_bytes_out
      ((io_pic1 + 1, 0x00)
        ∷ (io_pic2 + 1, 0x00)
        ∷ (io_pic1, 0x11)
        ∷ (io_pic1 + 1, t_irq0)
        ∷ (io_pic1 + 1, 2 ^ irq_slave)
        ∷ (io_pic1 + 1, 0x3)
        ∷ (io_pic2, 0x11)
        ∷ (io_pic2 + 1, t_irq0 + 8)
        ∷ (io_pic2 + 1, irq_slave)
        ∷ (io_pic2 + 1, 0x01)
        ∷ (io_pic1, 0x68)
        ∷ (io_pic1, 0x0a)
        ∷ (io_pic2, 0x68)
        ∷ (io_pic2, 0x0a)
        ∷ [])
      s
