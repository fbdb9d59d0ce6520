-- ===== src/Interrupts/Segments/Decode.antt =====
-- What the processor reads in a segment descriptor.
use storm_os.Base.{◌==◌, if◌then◌else◌, ℕ, ◌+◌, ◌*◌, ◌/◌, ◌^◌, ◌<◌, ◌≡◌, arith}
use storm_os.Interrupts.Descriptors.{SegDesc, segdesc16, segdesc32}

-- The base, which is spread over three fields.
abbrev pub base_of : SegDesc → ℕ
base_of d = d.sd_base_15_0 + d.sd_base_23_16 * 2 ^ 16 + d.sd_base_31_24 * 2 ^ 24

abbrev pub raw_limit : SegDesc → ℕ
raw_limit d = d.sd_lim_15_0 + d.sd_lim_19_16 * 2 ^ 16

-- The last offset of the segment: with the granularity bit, the limit counts pages.
abbrev pub limit_of : SegDesc → ℕ
limit_of d = if d.sd_g == 1 then raw_limit d * 2 ^ 12 + 4095 else raw_limit d

-- SEGDESC16 packs a 32-bit base and a limit below 2 ^ 20 so that the processor reads both back.
-- SEGDESC32 packs a 32-bit base and a 32-bit limit, of which the processor reads the base and the
-- last offset of the page that the limit lies in.
pub segdesc-decode :
    (type base lim dpl : ℕ)
    → base < 2 ^ 32
    → lim < 2 ^ 32
    → ((lim < 2 ^ 20)
        → (base_of (segdesc16 type base lim dpl) ≡ base)
          × (limit_of (segdesc16 type base lim dpl) ≡ lim))
      × (base_of (segdesc32 type base lim dpl) ≡ base)
      × (limit_of (segdesc32 type base lim dpl) ≡ lim / 2 ^ 12 * 2 ^ 12 + 4095)
unfolding segdesc16 segdesc32
segdesc-decode type base lim dpl hb hl =
    (λ small. (omega arith, omega arith), omega arith, omega arith)
