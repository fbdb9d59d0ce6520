-- ===== src/MemPhysical/Containers.antt =====
-- ContainerInit, ContainerSplit, ContainerAlloc and ContainerFree of src/mem_physical.c.
pub mod Grant
pub mod Quota
pub mod Reachable
pub mod Tree
use storm_os.Base.{ltb, ◌==◌, if◌then◌else◌, update, ℕ, ◌+◌, ◌-◌, ◌*◌, ◌%◌, ◌^◌, Bool, true, ◌&&◌}
use storm_os.MemPhysical.State.{Memory, Container, max_children}
use storm_os.MemPhysical.Pages.{physical_page_alloc, physical_page_free}

abbrev pub word : ℕ
word = 2 ^ 32

abbrev pub set_container : ℕ → Container → Memory → Memory
set_container id c m = record m { containers = update m.containers id c }

unfoldable pub container_init : ℕ → Memory → Memory
container_init user_pages m =
    set_container 0
      (record { quota = user_pages; usage = 0; parent = 0; num_children = 0; used = true }) m

-- The index of the next child of a container.
abbrev pub next_child : ℕ → Memory → ℕ
next_child id m = (id * max_children + 1 + (m.containers id).num_children) % word

-- Dedicates `quota` pages to a new child of `id`, and returns the child's index. The source does not
-- look whether the index lies in the array: a child of MAX_PROCS or more is none of the model.
unfoldable pub container_split : ℕ → ℕ → Memory → ℕ × Memory
container_split id quota m =
    let child_id = next_child id m in
    let born =
      set_container child_id
        (record { quota = quota; usage = 0; parent = id; num_children = 0; used = true }) m in
    let c = born.containers id in
    (
      child_id,
      set_container id
          (record c {
            usage = (c.usage + quota) % word;
            num_children = (c.num_children + 1) % word;
          })
          born,
    )

-- One more page for `id`, if its usage has not reached its quota; 0 on failure.
unfoldable pub container_alloc : ℕ → Memory → ℕ × Memory
container_alloc id m =
    let c = m.containers id in
    if c.usage == c.quota
    then (0, m)
    else physical_page_alloc (set_container id (record c { usage = (c.usage + 1) % word }) m)

-- `usage > 0`, of an `int`
abbrev pub is_positive : ℕ → Bool
is_positive usage = ltb 0 usage && ltb usage (2 ^ 31)

unfoldable pub container_free : ℕ → ℕ → Memory → Memory
container_free id page_index m =
    let freed = physical_page_free page_index m in
    let c = freed.containers id in
    if (m.pages page_index).allocated
    then (if is_positive c.usage
        then set_container id (record c { usage = c.usage - 1 }) freed
        else freed)
    else m

-- The state in which ContainerAlloc asks for a page: the page is counted already.
abbrev pub charged : ℕ → Memory → Memory
charged id m =
    set_container id (record (m.containers id) { usage = ((m.containers id).usage + 1) % word }) m
