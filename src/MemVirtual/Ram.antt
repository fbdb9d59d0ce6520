-- ===== src/MemVirtual/Ram.antt =====
-- Physical memory as bytes, and 32-bit loads and stores of it. The kernel runs with process 0's
-- identity map, so that an address that it dereferences is a physical one.
use storm_os.Base.{update, ℕ, ◌+◌, ◌*◌, ◌/◌, ◌%◌, ◌^◌, ◌≤◌, ◌<◌, ◌≡◌, ◌⊎◌, inl, inr, arith}

abbrev pub Ram : Type 0
Ram = ℕ → ℕ

abbrev pub word : ℕ
word = 2 ^ 32

-- `*((uint32*)addr)`, least significant byte first
unfoldable pub load32 : Ram → ℕ → ℕ
load32 r a = r a + r (a + 1) * 2 ^ 8 + r (a + 2) * 2 ^ 16 + r (a + 3) * 2 ^ 24

-- `*((uint32*)addr) = v`
unfoldable pub store32 : Ram → ℕ → ℕ → Ram
store32 r a v =
    update
      (update (update (update r a (v % 2 ^ 8)) (a + 1) (v / 2 ^ 8 % 2 ^ 8)) (a + 2)
        (v / 2 ^ 16 % 2 ^ 8))
      (a + 3) (v / 2 ^ 24 % 2 ^ 8)

module _ (r : Ram) (a v : ℕ) where
  byte0 : store32 r a v a ≡ v % 2 ^ 8
  unfolding store32
  byte0 = ground arith

  byte1 : store32 r a v (a + 1) ≡ v / 2 ^ 8 % 2 ^ 8
  unfolding store32
  byte1 = ground arith

  byte2 : store32 r a v (a + 2) ≡ v / 2 ^ 16 % 2 ^ 8
  unfolding store32
  byte2 = ground arith

  byte3 : store32 r a v (a + 3) ≡ v / 2 ^ 24 % 2 ^ 8
  unfolding store32
  byte3 = ground arith

  byte_apart : (b : ℕ) → (a + 3 < b) ⊎ (b < a) → store32 r a v b ≡ r b
  unfolding store32
  byte_apart b apart = ground arith

-- A load reads what was stored at its address.
pub load32-store32 : (r : Ram) (a v : ℕ) → v < word → load32 (store32 r a v) a ≡ v
unfolding load32
load32-store32 r a v h = omega (arith, byte0 r a v, byte1 r a v, byte2 r a v, byte3 r a v)

-- A store leaves the words alone that do not overlap it.
pub load32-store32_apart :
    (r : Ram) (a v b : ℕ) → (a + 4 ≤ b) ⊎ (b + 4 ≤ a) → load32 (store32 r a v) b ≡ load32 r b
unfolding load32
load32-store32_apart r a v b apart = omega (
  arith,
  byte_apart r a v b (elim apart [ inl l ↦ inl (omega arith) | inr l ↦ inr (omega arith) ]),
  byte_apart r a v (b + 1) (apart_by 1 (omega arith)),
  byte_apart r a v (b + 2) (apart_by 2 (omega arith)),
  byte_apart r a v (b + 3) (apart_by 3 (omega arith)),
)
  where
    apart_by : (k : ℕ) → k < 4 → (a + 3 < b + k) ⊎ (b + k < a)
    apart_by k h = elim apart [ inl l ↦ inl (omega arith) | inr l ↦ inr (omega arith) ]
