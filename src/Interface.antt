-- ===== src/Interface.antt =====
-- The functions of the interface of libs_src/vcmalloc.h: hyper-containers are reserved and given
-- back, and the other functions work on the context that the manager finds for an address.
pub mod Managed
pub mod Entries
pub mod Lookup
pub mod Contexts
pub mod Release
pub mod Reserve
pub mod Addition
pub mod Reserved
pub mod Steps
pub mod Refines
pub mod Size
use vcmalloc_bench.Base.{
  ℕ, zero, suc, ◌+◌, ◌-◌, ◌/◌, ◌%◌, true, Option, none, some, List, [], ◌∷◌, ◌++◌, ◌==◌,
  if◌then◌else◌, get_elem?, take, drop, add64, mul64,
}
use vcmalloc_bench.Machine.Os.{Os}
use vcmalloc_bench.Machine.Run.{
  container_not_found, free_container_not_found, release_frames_failed, release_frames_incomplete,
  release_space_failed, Run, ok, throw, fault, out_of_fuel, Cmd, pure, ◌>>=◌, ◌>>◌, get, check,
}
use vcmalloc_bench.Container.{page_size}
use vcmalloc_bench.Context.{HyperContainerContext, Scene, slice}
use vcmalloc_bench.Context.Storage.{assert_pfns_storage, assert_container_storage}
use vcmalloc_bench.Alloc.{container_alloc}
use vcmalloc_bench.Realloc.{container_realloc}
use vcmalloc_bench.Realloc2.{container_realloc2}
use vcmalloc_bench.Manager.{
  HyperContainerManager, World, ask_os, known, modify_manager, find_hyper_container,
  insert_hyper_container,
}

abbrev pub set_context :
    List HyperContainerContext → ℕ → HyperContainerContext → List HyperContainerContext
set_context [] i h = []
set_context (g ∷ gs) zero h = h ∷ gs
set_context (g ∷ gs) (suc i) h = g ∷ set_context gs i h

-- The address behind the last hyper-container, or NULL if there is none.
unfoldable pub requested_address : HyperContainerManager → Option ℕ
requested_address m =
    if m.hypercontainers_num == 0
    then some 0
    else elim (get_elem? m.pointers_storage (m.hypercontainers_num - 1)) [
      | none ↦ none
      | some a ↦ elim (get_elem? m.hyper_containers_storage (m.hypercontainers_num - 1)) [
        | none ↦ none
        | some h ↦ some (add64 a h.hypercontainer_size)
      ]
    ]

-- The size rounded up to the allocation granularity.
unfoldable pub rounded_size : (granularity size : ℕ) → ℕ
rounded_size granularity size =
    let units = size / granularity in
    mul64 (if size % granularity == 0 then units else units + 1) granularity

module _ {o : Os} where
  abbrev pub scene_of : World o → HyperContainerContext → Scene o
  scene_of w h = record { os = w.os; memory = w.memory; vars = w.vars; context = h }

  abbrev pub world_of : World o → ℕ → Scene o → World o
  world_of w i c = record {
    os = c.os;
    memory = c.memory;
    vars = c.vars;
    hcm = record w.hcm {
      hyper_containers_storage = set_context w.hcm.hyper_containers_storage i c.context;
    };
  }

  -- A function that works on the hyper-container with an index, in the whole world. What it has
  -- changed before it throws stays changed.
  unfoldable pub on_context : {A : Type 0} → ℕ → Cmd (Scene o) A → Cmd (World o) A
  on_context i command w = elim (get_elem? w.hcm.hyper_containers_storage i) [
    | none ↦ fault
    | some h ↦ elim (command (scene_of w h)) [
      | ok a c ↦ ok a (world_of w i c)
      | throw e c ↦ throw e (world_of w i c)
      | Run.fault ↦ fault
      | Run.out_of_fuel ↦ out_of_fuel
    ]
  ]

  -- The shape of the functions of the interface: look the address up, then work on its context.
  unfoldable pub with_context : {A : Type 0} → ℕ → Cmd (Scene o) A → Cmd (World o) A
  unfolding find_hyper_container on_context
  with_context address command = do
    position ← find_hyper_container address
    elim position [ none ↦ throw container_not_found | some i ↦ on_context i command ]

  -- `ExtendCcStorage(address, containers_num)`
  unfoldable pub extend_cc_storage : (address containers_num : ℕ) → Cmd (World o) (Unit {0})
  extend_cc_storage address containers_num =
      with_context address (assert_container_storage containers_num)

  -- `ExtendPfnsStorage(address, size)`
  unfoldable pub extend_pfns_storage : (address size : ℕ) → Cmd (World o) (Unit {0})
  extend_pfns_storage address size =
      with_context address (assert_pfns_storage (size / page_size o.page_shift))

  -- `vcmalloc(address, user_pointer, elements_num)`
  unfoldable pub vcmalloc :
      (address user_pointer type_size elements_num : ℕ) → Cmd (World o) (Unit {0})
  vcmalloc address user_pointer type_size elements_num =
      with_context address (container_alloc address user_pointer type_size elements_num)

  -- `vcrealloc(address, user_pointer, elements_new_num)`
  unfoldable pub vcrealloc :
      (address user_pointer type_size elements_new_num : ℕ) → Cmd (World o) (Unit {0})
  vcrealloc address user_pointer type_size elements_new_num =
      with_context address (container_realloc user_pointer type_size elements_new_num)

  -- `vcrealloc2(address, user_pointer, elements_num_array, array_size)`
  unfoldable pub vcrealloc2 : (address user_pointer type_size : ℕ) → List ℕ → Cmd (World o) (List ℕ)
  vcrealloc2 address user_pointer type_size sizes =
      with_context address (container_realloc2 user_pointer type_size sizes)

  -- `HyperContainerFree`, behind the search for the address. The arrays close over the entry.
  unfoldable pub free_at : (address index : ℕ) → Cmd (World o) (Unit {0})
  free_at address i = do
    w ← get
    h ← known (get_elem? w.hcm.hyper_containers_storage i)
    frames ← known (slice h.pfns_storage 0 h.pfns_num)
    (done, count) ←
        (if h.pfns_num == 0
          then pure (true, 0)
          else ask_os (λ s. let (d, n, s') = o.free_frames frames s in ((d, n), s')))
    check done release_frames_failed
    check (count == h.pfns_num) release_frames_incomplete
    released ← ask_os (o.virtual_free address)
    check released release_space_failed
    containers_freed ← ask_os o.heap_free
    pfns_freed ← ask_os o.heap_free
    modify_manager (λ c. record c {
      hyper_containers_storage =
          take i c.hyper_containers_storage ++ drop (suc i) c.hyper_containers_storage;
      pointers_storage = take i c.pointers_storage ++ drop (suc i) c.pointers_storage;
      hypercontainers_num = c.hypercontainers_num - 1;
    })

  -- `vccfree(address)`
  unfoldable pub vccfree : ℕ → Cmd (World o) (Unit {0})
  unfolding free_at find_hyper_container
  vccfree address = do
    position ← find_hyper_container address
    elim position [ none ↦ throw free_container_not_found | some i ↦ free_at address i ]

  -- `while (!lpMemReserved) { requestedAddress += aG; ... VirtualAlloc(requestedAddress, ...) }`
  unfoldable pub reserve : (fuel requested size : ℕ) → Cmd (World o) ℕ
  reserve zero requested size w = out_of_fuel
  reserve (suc fuel) requested size w =
      let (got, s) = o.virtual_alloc requested size w.os in
      elim got [
        | some address ↦ ok address (record w { os = s })
        | none ↦ reserve fuel (add64 requested o.granularity) size (record w { os = s })
      ]

  -- `vccalloc(dwSize)`, with a number of calls of VirtualAlloc as fuel.
  unfoldable pub vccalloc : (fuel size : ℕ) → Cmd (World o) ℕ
  unfolding reserve
  vccalloc fuel size = do
    w ← get
    requested ← known (requested_address w.hcm)
    address ← reserve fuel requested size
    insert_hyper_container address (rounded_size o.granularity size)
    pure address
