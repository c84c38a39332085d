-- ===== src/Manager.antt =====
-- struct HyperContainerManager of libs_src/vcmalloc.h: the
-- hyper-containers of the process, with the addresses that they start at.
use vcmalloc_bench.Base.{
  ℕ, ◌+◌, ◌-◌, ◌/◌, get_elem?, Option, none, some, List, [], ◌∷◌, ◌++◌, leb, ◌==◌, ◌&&◌,
  if◌then◌else◌, length, mul64,
}
use vcmalloc_bench.Machine.Os.{Os}
use vcmalloc_bench.Machine.Run.{
  manager_space, privileges, Run, ok, throw, fault, out_of_fuel, Cmd, pure, ◌>>=◌, ◌>>◌, get,
  failed,
}
use vcmalloc_bench.Machine.Memory.{Memory}
use vcmalloc_bench.Container.{page_size}
use vcmalloc_bench.Context.{HyperContainerContext}
use vcmalloc_bench.Context.Storage.{new_context}
use vcmalloc_bench.Search.{Answer, found, missing, binary_search}

-- The two arrays hold the entries written so far; a storage pointer that is NULL is an empty list.
pub record HyperContainerManager : Type 0 where
  pub hyper_containers_storage : List HyperContainerContext
  pub pointers_storage : List ℕ
  pub hypercontainers_num : ℕ
  pub hypercontainers_max : ℕ
  -- the index of the default container, which nothing reads
  pub default_container : Option ℕ

pub record World (o : Os) : Type 0 where
  pub os : o.State
  pub memory : Memory
  pub vars : ℕ → ℕ
  pub hcm : HyperContainerManager

-- sizeof(HyperContainerContext) on x64
abbrev pub sizeof_context : ℕ
sizeof_context = 56

-- The constructor, before which there is no manager. The source does not look at the pointers
-- that malloc returns; here a NULL is a fault.
unfoldable pub new_manager : (o : Os) → o.State → Run o.State HyperContainerManager
new_manager o s =
    let (privileged, s1) = o.lock_privilege s in
    let max = page_size o.page_shift / sizeof_context in
    let (got_contexts, s2) = o.heap_alloc (mul64 max sizeof_context) s1 in
    let (got_pointers, s3) = o.heap_alloc (mul64 max 8) s2 in
    if privileged
    then (if got_contexts && got_pointers
        then ok
            (record {
              hyper_containers_storage = [];
              pointers_storage = [];
              hypercontainers_num = 0;
              hypercontainers_max = max;
              default_container = none;
            })
            s3
        else fault)
    else throw privileges s1

module _ {o : Os} where
  abbrev pub ask_os : {A : Type 0} → (o.State → A × o.State) → Cmd (World o) A
  ask_os f w = let (a, os') = f w.os in ok a (record w { os = os' })

  abbrev pub known : {A : Type 0} → Option A → Cmd (World o) A
  known none w = fault
  known (some a) w = ok a w

  abbrev pub modify_manager :
      (HyperContainerManager → HyperContainerManager) → Cmd (World o) (Unit {0})
  modify_manager f w = ok tt (record w { hcm = f w.hcm })

  -- `operator()`: the index of the hyper-container at an address, where there is one.
  unfoldable pub find_hyper_container : ℕ → Cmd (World o) (Option ℕ)
  find_hyper_container address w =
      elim (binary_search w.hcm.hypercontainers_num w.hcm.pointers_storage address) [
        | found i ↦ ok (some i) w
        | missing ↦ ok none w
        | Answer.fault ↦ fault
        | Answer.out_of_fuel ↦ out_of_fuel
      ]

  -- `operator[]`: an entry that is there; the source reads before the array if it is not.
  unfoldable pub hyper_container_at : ℕ → Cmd (World o) HyperContainerContext
  unfolding find_hyper_container
  hyper_container_at address = do
    position ← find_hyper_container address
    w ← get
    elim position [ none ↦ failed | some i ↦ known (get_elem? w.hcm.hyper_containers_storage i) ]

  -- `end`: the last entry; the source reads before the array if there is none.
  unfoldable pub last_hyper_container : Cmd (World o) HyperContainerContext
  last_hyper_container = do
    w ← get
    if w.hcm.hypercontainers_num == 0
        then failed
        else known (get_elem? w.hcm.hyper_containers_storage (w.hcm.hypercontainers_num - 1))

  -- `insert`: the arrays are enlarged by a page's worth of entries if the new entry is the last
  -- that fits.
  unfoldable pub enlarge : Cmd (World o) (Unit {0})
  enlarge = do
    w ← get
    let m = w.hcm
    if leb m.hypercontainers_max (m.hypercontainers_num + 1)
        then (do
          let max = m.hypercontainers_max + page_size o.page_shift / sizeof_context
          got_contexts ← ask_os (o.heap_alloc (mul64 max sizeof_context))
          got_pointers ← ask_os (o.heap_alloc (mul64 max 8))
          if got_contexts && got_pointers
              then modify_manager (λ c. record c { hypercontainers_max = max })
              else (do
                modify_manager (λ c. record c {
                  hyper_containers_storage =
                      if got_contexts then c.hyper_containers_storage else [];
                  pointers_storage = if got_pointers then c.pointers_storage else [];
                })
                throw manager_space))
        else pure tt

  unfoldable pub insert_hyper_container : (pointer size : ℕ) → Cmd (World o) (Unit {0})
  unfolding enlarge
  insert_hyper_container pointer size = do
    enlarge
    made ← ask_os (new_context o size)
    context ← known made
    w ← get
    if (length w.hcm.pointers_storage == w.hcm.hypercontainers_num)
          && (length w.hcm.hyper_containers_storage == w.hcm.hypercontainers_num)
        then modify_manager (λ c. record c {
          hyper_containers_storage = c.hyper_containers_storage ++ context ∷ [];
          pointers_storage = c.pointers_storage ++ pointer ∷ [];
          hypercontainers_num = c.hypercontainers_num + 1;
          default_container = some c.hypercontainers_num;
        })
        else failed
