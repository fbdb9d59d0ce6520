-- ===== src/MemPhysical/Containers/Tree.antt =====
-- The containers form a tree: the child `k` of `id` has index `id * MAX_CHILDREN + 1 + k`.
use storm_os.Base.{
  ◌==◌, if◌then◌else◌, ==_iff, ==_refl, ==_ne, Bool-cases, ℕ, ◌+◌, ◌-◌, ◌*◌, ◌/◌, ◌%◌, ◌^◌, ◌<◌,
  ◌≡◌, refl, sym, ap, ◌∙◌, ◌≢◌, ◌⊎◌, inl, inr, true, false, arith,
}
use mathlib.Core.Bool.{false≢true}
use native.Mathlib.Decide.{ℕ_discrete}
use storm_os.MemPhysical.State.{Memory, Container, max_children}
use storm_os.MemPhysical.Containers.{next_child, container_split}
use storm_os.Thread.State.{max_procs}

-- the parent of an index, and its place among the children
abbrev pub parent_of : ℕ → ℕ
parent_of id = (id - 1) / 8

abbrev pub place_of : ℕ → ℕ
place_of id = (id - 1) % 8

-- A container other than the root is used only if its parent is, names that parent, and has its
-- place among the children that the parent counts.
pub record IsTree (m : Memory) : Type 0 where
  pub root : (m.containers 0).used ≡ true
  pub parent_used :
      (id : ℕ) → 0 < id → (m.containers id).used ≡ true → (m.containers (parent_of id)).used ≡ true
  pub names_parent :
      (id : ℕ) → 0 < id → (m.containers id).used ≡ true → (m.containers id).parent ≡ parent_of id
  pub counted :
      (id : ℕ)
      → 0 < id
      → (m.containers id).used ≡ true
      → place_of id < (m.containers (parent_of id)).num_children

-- Container `id` is one that can be split: its index is small, it has room for a child, and the
-- index of the child lies in the array (of MAX_PROCS containers).
pub record HasRoom (id : ℕ) (m : Memory) : Type 0 where
  pub small : id < 2 ^ 20
  pub fewer : (m.containers id).num_children < max_children
  pub inside : next_child id m < max_procs

module _ (id : ℕ) (m : Memory) (h : HasRoom id m) where
  -- No step of the computation of the index wraps, and the index names its parent.
  pub next_child_index :
      (next_child id m ≡ id * 8 + 1 + (m.containers id).num_children)
      × (parent_of (next_child id m) ≡ id)
      × (place_of (next_child id m) ≡ (m.containers id).num_children)
      × (id < next_child id m)
  next_child_index = omega arith

  -- The index of the new child is not in use.
  pub next_child_fresh : IsTree m → (m.containers (next_child id m)).used ≡ false
  next_child_fresh t = elim (Bool-cases (m.containers (next_child id m)).used) [
    | inl used ↦
        let (_, is_id, place, above) = next_child_index in
        absurd (omega (arith, place, taken (next_child id m) is_id (omega arith) used))
    | inr free ↦ free
  ]
    where
      taken :
          (c : ℕ)
          → parent_of c ≡ id
          → 0 < c
          → (m.containers c).used ≡ true
          → place_of c < (m.containers id).num_children
      taken c is_id positive used = rw is_id at (t.counted c positive used)

-- The fields that a split changes.
module _ (id quota : ℕ) (m : Memory) (h : HasRoom id m) (j : ℕ) where
  abbrev split : Container
  split = (container_split id quota m).1.containers j

  used-container_split :
      (m.containers id).used ≡ true
      → split.used ≡ (if j == next_child id m then true else (m.containers j).used)
  unfolding container_split
  used-container_split used = ground (arith, next_child_index id m h)

  parent-container_split :
      split.parent ≡ (if j == next_child id m then id else (m.containers j).parent)
  unfolding container_split
  parent-container_split = ground (arith, next_child_index id m h)

  num_children-container_split : split.num_children ≡ (
      if j == id
      then (m.containers id).num_children + 1
      else if j == next_child id m
      then 0
      else (m.containers j).num_children)
  unfolding container_split
  num_children-container_split = ground (arith, next_child_index id m h, h.fewer)

module _ (id quota : ℕ) (m : Memory) (t : IsTree m) (h : HasRoom id m)
    (used : (m.containers id).used ≡ true) where
  abbrev after : Memory
  after = (container_split id quota m).1

  abbrev child : ℕ
  child = next_child id m

  used_after :
      (j : ℕ) → (after.containers j).used ≡ (if j == child then true else (m.containers j).used)
  used_after j = used-container_split id quota m h j used

  fresh : (m.containers child).used ≡ false
  fresh = next_child_fresh id m h t

  new_or_old :
      (j : ℕ)
      → (after.containers j).used ≡ true
      → (j ≡ child) ⊎ ((j ≢ child) × ((m.containers j).used ≡ true))
  new_or_old j u = elim (ℕ_discrete j child) [
    | yes e ↦ inl e
    | no ne ↦ inr (ne, rw (==_ne j child ne) at (sym (used_after j) ∙ u))
  ]

  still_used : (j : ℕ) → (m.containers j).used ≡ true → (after.containers j).used ≡ true
  still_used j u = used_after j ∙ ground arith

  child_used : (after.containers child).used ≡ true
  child_used = used_after child ∙ rw ==_refl

  parent_used_after :
      (j : ℕ)
      → 0 < j
      → (after.containers j).used ≡ true
      → (after.containers (parent_of j)).used ≡ true
  parent_used_after j positive u = still_used (parent_of j) (elim (new_or_old j u) [
    | inl e ↦ rw (e, (next_child_index id m h).1) used
    | inr (ne, old) ↦ t.parent_used j positive old
  ])

  names_parent_after :
      (j : ℕ) → 0 < j → (after.containers j).used ≡ true → (after.containers j).parent ≡ parent_of j
  names_parent_after j positive u = parent-container_split id quota m h j ∙ elim (new_or_old j u) [
    | inl e ↦ rw (e, ==_refl) (sym (next_child_index id m h).1)
    | inr (ne, old) ↦ rw (==_ne j child ne) (t.names_parent j positive old)
  ]

  counted_after :
      (j : ℕ)
      → 0 < j
      → (after.containers j).used ≡ true
      → place_of j < (after.containers (parent_of j)).num_children
  counted_after j positive u = elim (new_or_old j u) [
    | inl e ↦ omega (arith, e, place, grown (parent_of j) (ap parent_of e ∙ is_id))
    | inr (ne, old) ↦ elim (ℕ_discrete (parent_of j) id) [
      | yes p ↦ omega (
        arith,
        grown (parent_of j) p,
        ap (λ (k : ℕ). (m.containers k).num_children) p,
        t.counted j positive old,
      )
      | no np ↦
          omega
            (arith, same (parent_of j) np (t.parent_used j positive old), t.counted j positive old)
    ]
  ]
    where
      place : place_of child ≡ (m.containers id).num_children
      place = (next_child_index id m h).2

      is_id : parent_of child ≡ id
      is_id = (next_child_index id m h).1

      grown :
          (k : ℕ) → k ≡ id → (after.containers k).num_children ≡ (m.containers id).num_children + 1
      grown k e = num_children-container_split id quota m h k ∙ rw ((==_iff k id).1 e)

      same :
          (k : ℕ)
          → k ≢ id
          → (m.containers k).used ≡ true
          → (after.containers k).num_children ≡ (m.containers k).num_children
      same k ne u =
          let not_new : k ≢ child = λ e. false≢true (sym (rw e fresh) ∙ u) in
          num_children-container_split id quota m h k ∙ rw (==_ne k id ne, ==_ne k child not_new)

-- ContainerSplit keeps the tree, for a container in use with fewer than MAX_CHILDREN children whose
-- next child has an index below MAX_PROCS; the index that it returns was not in use, and is in use
-- after.
pub container_split-IsTree :
    (id quota : ℕ) (m : Memory)
    → IsTree m
    → HasRoom id m
    → (m.containers id).used ≡ true
    → let (child, m') = container_split id quota m in
      IsTree m' × ((m.containers child).used ≡ false) × ((m'.containers child).used ≡ true)
container_split-IsTree id quota m t h used = (
  record {
    root = still_used id quota m t h used 0 t.root;
    parent_used = parent_used_after id quota m t h used;
    names_parent = names_parent_after id quota m t h used;
    counted = counted_after id quota m t h used;
  },
  unfold container_split in fresh id quota m t h used,
  child_is_used,
)
  where
    child_is_used :
        ((container_split id quota m).1.containers (container_split id quota m).0).used ≡ true
    child_is_used =
        let index : (container_split id quota m).0 ≡ next_child id m =
          unfold container_split in refl in
        ap (λ (k : ℕ). ((container_split id quota m).1.containers k).used) index
        ∙ child_used id quota m t h used

-- A ninth child gets the index that the first child of the next container has or will have.
pub container_split_ninth :
    (id quota : ℕ) (m : Memory)
    → id < 2 ^ 20
    → (m.containers id).num_children ≡ max_children
    → (container_split id quota m).0 ≡ (id + 1) * 8 + 1
unfolding container_split
container_split_ninth id quota m small full = omega arith
