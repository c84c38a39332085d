-- ===== src/Context.antt =====
-- struct HyperContainerContext of libs_src/vcmalloc.h: the containers of one hyper-container, and
-- the numbers of the physical frames behind its pages.
pub mod Storage
pub mod Gap
pub mod Room
pub mod Insert
pub mod Consistent
pub mod Ends
use vcmalloc_bench.Base.{
  ℕ, zero, suc, ◌+◌, ◌-◌, ◌*◌, ◌/◌, ◌≤◌, Bool, true, false, Option, none, some, List, [], ◌∷◌, ◌++◌,
  map, ltb, leb, ◌==◌, if◌then◌else◌, length, get_elem?, take, drop, replicate, add64, mul64, sub64,
}
use vcmalloc_bench.Machine.Os.{Os}
use vcmalloc_bench.Machine.Run.{
  Error, pfns_array_space, containers_space, Run, ok, throw, fault, out_of_fuel, Cmd, pure, ◌>>=◌,
  ◌>>◌, get, put, check, failed,
}
use vcmalloc_bench.Machine.Memory.{Memory, memmove}
use vcmalloc_bench.Container.{
  ContainerContext, page_size, mapping_address, next_address, next_mapping_address, nbr_of_pages,
  guest_bytes, prior_free_bytes,
}
use vcmalloc_bench.Search.{Answer, binary_search}

-- `containercontext_storage` holds the contexts written so far, `pfns_storage` all `pfns_max`
-- cells of the array, with 0 in a cell that was never written. A storage pointer that is NULL
-- is an empty list.
pub record HyperContainerContext : Type 0 where
  pub containercontext_storage : List ContainerContext
  pub pfns_storage : List ℕ
  pub containers_num : ℕ
  pub containers_max : ℕ
  pub pfns_num : ℕ
  pub pfns_max : ℕ
  pub hypercontainer_size : ℕ

-- What a function sees that works on one hyper-container: the operating system, the contents of
-- the physical frames, the user's pointer variables, and the context. The pointer variables are a
-- store of their own, by number, and can be read and assigned at any time. What holds of `memory`
-- holds of a program whose pointer variables lie outside the pages of its hyper-containers;
-- Alloc/Backed says how ContainerAlloc acts where some of them lie in those pages.
pub record Scene (o : Os) : Type 0 where
  pub os : o.State
  pub memory : Memory
  pub vars : ℕ → ℕ
  pub context : HyperContainerContext

-- sizeof(ContainerContext) and sizeof(ULONG_PTR) on x64
abbrev pub sizeof_container : ℕ
sizeof_container = 24

abbrev pub sizeof_word : ℕ
sizeof_word = 8

-- The assignment to a pointer variable.
abbrev pub assign : (ℕ → ℕ) → ℕ → ℕ → ℕ → ℕ
assign vars x a y = if y == x then a else vars y

-- `n` cells of an array from `i` on; `none` outside the array.
unfoldable pub slice : List ℕ → (i n : ℕ) → Option (List ℕ)
slice xs i n = if leb (i + n) (length xs) then some (take n (drop i xs)) else none

-- The array with cells written from `i` on; `none` outside the array.
unfoldable pub write_at : List ℕ → ℕ → List ℕ → Option (List ℕ)
write_at xs i ys =
    if leb (i + length ys) (length xs)
    then some (take i xs ++ ys ++ drop (i + length ys) xs)
    else none

-- `memmove(&pfns[dst], &pfns[src], n * sizeof(ULONG_PTR))`
unfoldable pub move_cells : List ℕ → (dst src n : ℕ) → Option (List ℕ)
unfolding slice write_at
move_cells xs dst src n = elim (slice xs src n) [ none ↦ none | some ys ↦ write_at xs dst ys ]

-- `while (new_max < needed) new_max *= 2;`
unfoldable pub doubling : ℕ → ℕ → ℕ → Option ℕ
doubling zero new_max needed = none
doubling (suc fuel) new_max needed =
    let rest = doubling fuel (mul64 new_max 2) needed in
    if ltb new_max needed then rest else some new_max

-- `while (new_max < needed) new_max += container_per_page;`
unfoldable pub extending : ℕ → ℕ → ℕ → ℕ → Option ℕ
extending zero per_page new_max needed = none
extending (suc fuel) per_page new_max needed =
    let rest = extending fuel per_page (add64 new_max per_page) needed in
    if ltb new_max needed then rest else some new_max

module _ {o : Os} where
  abbrev pub modify : (HyperContainerContext → HyperContainerContext) → Cmd (Scene o) (Unit {0})
  modify f w = ok tt (record w { context = f w.context })

  -- A value that `none` shows to be undefined behaviour.
  abbrev pub defined : {A : Type 0} → Option A → Cmd (Scene o) A
  defined none w = fault
  defined (some a) w = ok a w

  -- A loop's result, where `none` means that 64 rounds were not enough.
  abbrev pub ended : {A : Type 0} → Option A → Cmd (Scene o) A
  ended none w = out_of_fuel
  ended (some a) w = ok a w

  -- An answer of the operating system.
  abbrev pub ask : {A : Type 0} → (o.State → A × o.State) → Cmd (Scene o) A
  ask f w = let (a, os') = f w.os in ok a (record w { os = os' })
