-- ===== src/Interrupts/Gates.antt =====
-- What the table of gates holds.
use mathlib.Core.Path.{subst}
use native.Mathlib.Decide.{ℕ_discrete}
use storm_os.Base.{
  ◌==◌, if◌then◌else◌, ==_iff, ==_eq, ==_ne, ltb-true, has, update, for_upto, for_upto-update, ℕ,
  ◌+◌, ◌*◌, ◌^◌, ◌<◌, ◌≡◌, refl, sym, ◌∙◌, ◌⊎◌, inl, inr, Bool, true, false, ◌&&◌, List, [], ◌∷◌,
  arith,
}
use storm_os.Interrupts.{
  Entry, default_entry, GateDesc, gates, set_gate, set_gates, interrupt_init_idt, cpu_gdt_kcode,
  sts_ig32,
}

abbrev pub user_vectors : List ℕ
user_vectors = 3 ∷ 4 ∷ 48 ∷ []

-- The privilege level that a vector's gate asks for.
abbrev pub user_level : ℕ → ℕ
user_level vector = if has vector user_vectors then 3 else 0

-- A present 32-bit interrupt gate of the kernel's code segment, to an entry, that asks for no
-- other level than 0 and that of the vector.
pub record IsGate (address : Entry → ℕ) (vector : ℕ) (g : GateDesc) : Type 0 where
  pub segment : g.gd_ss ≡ cpu_gdt_kcode
  pub kind : g.gd_type ≡ sts_ig32
  pub present : g.gd_p ≡ 1
  pub entry : (e : Entry) × (g.gd_off_15_0 + g.gd_off_31_16 * 2 ^ 16 ≡ address e)
  pub level : (g.gd_dpl ≡ 0) ⊎ (g.gd_dpl ≡ user_level vector)

levels_ok : List (ℕ × Entry × ℕ) → Bool
levels_ok [] = true
levels_ok ((vector, entry, dpl) ∷ later) = (dpl == user_level vector) && levels_ok later

and-cases : (a b : Bool) → (a && b) ≡ true → (a ≡ true) × (b ≡ true)
and-cases true true h = (refl, refl)
and-cases true false h = absurd (ground (arith, h))
and-cases false b h = absurd (ground (arith, h))

gates-levels_ok : levels_ok gates ≡ true
unfolding gates levels_ok
gates-levels_ok = refl

module _ (address : Entry → ℕ) where
  set_gate-IsGate :
      (vector dpl : ℕ) (e : Entry)
      → (dpl ≡ 0) ⊎ (dpl ≡ user_level vector)
      → IsGate address vector (set_gate false cpu_gdt_kcode (address e) dpl)
  unfolding set_gate
  set_gate-IsGate vector dpl e level = record {
    segment = refl;
    kind = refl;
    present = refl;
    entry = (e, omega arith);
    level = level;
  }

  set_gates-IsGate :
      (gs : List (ℕ × Entry × ℕ)) (idt : ℕ → GateDesc)
      → levels_ok gs ≡ true
      → (v : ℕ) → IsGate address v (idt v)
      → IsGate address v (set_gates address gs idt v)
  unfolding set_gates levels_ok
  set_gates-IsGate [] idt levels v h = h
  set_gates-IsGate ((vector, e, dpl) ∷ later) idt levels v h =
      let (level, rest) = and-cases (dpl == user_level vector) (levels_ok later) levels in
      let gate = set_gate false cpu_gdt_kcode (address e) dpl in
      set_gates-IsGate later (update idt vector gate) rest v (elim (ℕ_discrete v vector) [
        | yes same ↦ rw (==_eq v vector same) (
            subst (λ w. IsGate address w gate) (sym same)
              (set_gate-IsGate vector dpl e (inr ((==_iff dpl (user_level vector)).0 level))))
        | no other ↦ rw (==_ne v vector other) h
      ])

  user_gates :
      (idt : ℕ → GateDesc)
      → ((set_gates address gates idt 3).gd_dpl ≡ 3)
        × ((set_gates address gates idt 4).gd_dpl ≡ 3)
        × ((set_gates address gates idt 48).gd_dpl ≡ 3)
  unfolding set_gates gates set_gate
  user_gates idt = (refl, refl, refl)

  gate-level :
      (idt : ℕ → GateDesc) (v : ℕ)
      → IsGate address v (set_gates address gates idt v)
      → (set_gates address gates idt v).gd_dpl ≡ user_level v
  gate-level idt v gate =
      let (at_3, at_4, at_48) = user_gates idt in
      let Level : ℕ → Type 0 = λ w. (set_gates address gates idt w).gd_dpl ≡ user_level w in
      elim (ℕ_discrete v 3) [
        | yes e ↦ subst Level (sym e) at_3
        | no n3 ↦ elim (ℕ_discrete v 4) [
          | yes e ↦ subst Level (sym e) at_4
          | no n4 ↦ elim (ℕ_discrete v 48) [
            | yes e ↦ subst Level (sym e) at_48
            | no n48 ↦ elim gate.level [
              | inl z ↦ z ∙ rw (==_ne v 3 n3, ==_ne v 4 n4, ==_ne v 48 n48) refl
              | inr l ↦ l
            ]
          ]
        ]
      ]

  -- InterruptInitIDT leaves in each of the 256 places a present interrupt gate to an entry of the
  -- kernel's code, and the user may call the gates 3, 4 and 48 and no other.
  pub interrupt_init_idt-IsGate :
      (idt : ℕ → GateDesc) (v : ℕ)
      → v < 256
      → IsGate address v (interrupt_init_idt address idt v)
        × ((interrupt_init_idt address idt v).gd_dpl ≡ user_level v)
  unfolding interrupt_init_idt
  interrupt_init_idt-IsGate idt v small =
      let default_gate = set_gate false cpu_gdt_kcode (address default_entry) 0 in
      let gate =
        set_gates-IsGate gates (for_upto 256 (λ i f. update f i default_gate) idt) gates-levels_ok v
          (rw (for_upto-update 256 (λ i. default_gate) idt v)
            (rw (ltb-true v 256 small) (set_gate-IsGate v 0 default_entry (inl refl)))) in
      (gate, gate-level (for_upto 256 (λ i f. update f i default_gate) idt) v gate)
