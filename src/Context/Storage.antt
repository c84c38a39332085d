-- ===== src/Context/Storage.antt =====
-- The members of HyperContainerContext: room in its arrays, a new container, the search for a
-- user's pointer, and the position of a container's frames.
use vcmalloc_bench.Base.{
  ℕ, suc, ◌+◌, ◌/◌, true, false, Option, none, some, List, [], ◌∷◌, ◌++◌, map, ltb, ◌==◌,
  if◌then◌else◌, length, replicate, add64, mul64, ◌-◌,
}
use vcmalloc_bench.Machine.Os.{Os}
use vcmalloc_bench.Machine.Run.{
  pfns_array_space, containers_space, ok, throw, fault, out_of_fuel, Cmd, pure, ◌>>=◌, ◌>>◌, get,
  failed,
}
use vcmalloc_bench.Container.{ContainerContext, page_size, nbr_of_pages}
use vcmalloc_bench.Context.{
  HyperContainerContext, Scene, sizeof_container, sizeof_word, modify, ended, ask, doubling,
  extending,
}
use vcmalloc_bench.Search.{Answer, found, missing, binary_search}

-- The constructor, with `page_size` bytes for each array. The source does not look at the
-- pointers that it gets; here a NULL is `none`.
unfoldable pub new_context : (o : Os) → ℕ → o.State → Option HyperContainerContext × o.State
new_context o size s =
    let pfns_max = page_size o.page_shift / sizeof_word in
    let containers_max = page_size o.page_shift / sizeof_container in
    let (got_pfns, s1) = o.heap_alloc (mul64 pfns_max sizeof_word) s in
    let (got_containers, s2) = o.heap_alloc (mul64 containers_max sizeof_container) s1 in
    let made : HyperContainerContext = record {
      containercontext_storage = [];
      pfns_storage = replicate pfns_max 0;
      containers_num = 0;
      containers_max = containers_max;
      pfns_num = 0;
      pfns_max = pfns_max;
      hypercontainer_size = size;
    } in
    (
      elim got_pfns [
        | true ↦ elim got_containers [ true ↦ some made | false ↦ none ]
        | false ↦ none
      ],
      s2,
    )

-- The value of `reference_`, the user's pointer.
abbrev pub start_of : (ℕ → ℕ) → ContainerContext → ℕ
start_of vars c = vars c.reference

-- `getPFNsPosition(first(), c)`: the pages of the containers before `c`.
unfoldable pub pfns_position : (s : ℕ) → (ℕ → ℕ) → List ContainerContext → ℕ
pfns_position s vars [] = 0
pfns_position s vars (c ∷ cs) =
    add64 (nbr_of_pages s (start_of vars c) c.type_size c.elements_num) (pfns_position s vars cs)

module _ {o : Os} where
  -- Room for `additional` frames: the array is doubled until it suffices.
  unfoldable pub assert_pfns_storage : ℕ → Cmd (Scene o) (Unit {0})
  assert_pfns_storage additional = do
    w ← get
    let h = w.context
    let needed = add64 h.pfns_num additional
    if ltb h.pfns_max needed
        then (do
          new_pfns_max ← ended (doubling 64 h.pfns_max needed)
          got ← ask (o.heap_alloc (mul64 new_pfns_max sizeof_word))
          if got
              then modify (λ c. record c {
                pfns_storage = c.pfns_storage ++ replicate (new_pfns_max - h.pfns_max) 0;
                pfns_max = new_pfns_max;
              })
              else (do modify (λ c. record c { pfns_storage = [] }); throw pfns_array_space))
        else pure tt

  -- Room for `additional` containers: the array grows by pages until it suffices.
  unfoldable pub assert_container_storage : ℕ → Cmd (Scene o) (Unit {0})
  assert_container_storage additional = do
    w ← get
    let h = w.context
    let needed = add64 h.containers_num additional
    if ltb h.containers_max needed
        then (do
          new_max ← ended (
              extending (suc needed) (page_size o.page_shift / sizeof_container) h.containers_max
                needed)
          got ← ask (o.heap_alloc (mul64 new_max sizeof_container))
          if got then modify (λ c. record c { containers_max = new_max }) else (do
            modify (λ c. record c { containercontext_storage = [] })
            throw containers_space))
        else pure tt

  -- The placement `new` writes the first cell behind the containers; behind a storage that is
  -- NULL it faults.
  unfoldable pub insert : (reference type_size elements_num : ℕ) → Cmd (Scene o) (Unit {0})
  unfolding assert_container_storage
  insert reference type_size elements_num = do
    assert_container_storage 1
    w ← get
    let h = w.context
    if length h.containercontext_storage == h.containers_num
        then modify (λ c. record c {
          containercontext_storage =
              c.containercontext_storage
              ++ (record {
                reference = reference;
                type_size = type_size;
                elements_num = elements_num;
              }
                  ∷ []);
          containers_num = h.containers_num + 1;
        })
        else failed

  -- `operator[]`: the index of the container at the address in a user's pointer, where there is
  -- one.
  unfoldable pub find_container : ℕ → Cmd (Scene o) (Option ℕ)
  find_container user_pointer w =
      elim (binary_search w.context.containers_num
        (map (start_of w.vars) w.context.containercontext_storage) user_pointer) [
          | found i ↦ ok (some i) w
          | missing ↦ ok none w
          | Answer.fault ↦ fault
          | Answer.out_of_fuel ↦ out_of_fuel
        ]
