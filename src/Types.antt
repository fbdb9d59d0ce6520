-- ===== src/Types.antt =====
-- src/types.h (and its copy src/user/lib/types.c): the integer widths, division of a 64-bit number
-- by a 32-bit one, and rounding to a multiple.
pub mod Divide
pub mod Round
