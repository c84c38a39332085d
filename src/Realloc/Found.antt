-- ===== src/Realloc/Found.antt =====
-- operator[] of HyperContainerContext: the container that starts at a user's pointer.
use vcmalloc_bench.Base.{
  ℕ, zero, suc, ◌*◌, ◌≤◌, ◌<◌, ◌≡◌, refl, sym, ap, ◌∙◌, arith, some, List, [], ◌∷◌, ◌++◌, map,
  sign64, length, length-map,
}
use vcmalloc_bench.Machine.Os.{Os}
use vcmalloc_bench.Machine.Run.{ok}
use vcmalloc_bench.Container.{ContainerContext, next_address}
use vcmalloc_bench.Container.Layout.{Fits-Layout}
use vcmalloc_bench.Search.{found, binary_search}
use vcmalloc_bench.Search.Down.{◌!◌, IsTable}
use vcmalloc_bench.Search.Linear.{linear_search-found, binary_search-linear_search}
use vcmalloc_bench.Context.{Scene}
use vcmalloc_bench.Context.Storage.{start_of, find_container}
use vcmalloc_bench.Context.Consistent.{Chain, chain_end}
use vcmalloc_bench.Realloc.Split.{chain_end_above}

-- No container is empty.
abbrev pub Filled : List ContainerContext → Type 0
Filled [] = Unit
Filled (c ∷ cs) = (0 < c.type_size * c.elements_num) × Filled cs

first_least : (xs : List ℕ) → IsTable xs → (p : ℕ) → p < length xs → xs ! 0 ≤ xs ! p
first_least xs table zero lt = omega arith
first_least xs table (suc p) lt = omega (arith, table.ascending 0 (suc p) (omega arith) lt)

module _ (s : ℕ) (vars : ℕ → ℕ) where
  abbrev starts : List ContainerContext → List ℕ
  starts cs = map (start_of vars) cs

  starts_bounds :
      (at i : ℕ) (cs : List ContainerContext)
      → Chain s vars at cs
      → i < length (starts cs)
      → (at ≤ starts cs ! i) × (starts cs ! i ≤ chain_end at cs)
  starts_bounds at i [] chain lt = absurd (omega arith)
  starts_bounds at zero (c ∷ cs) (e, f, behind) lt =
      let end_above =
        chain_end_above s vars (next_address at c.type_size c.elements_num) cs behind in
      (omega (arith, e), omega (arith, e, (Fits-Layout f).next))
  starts_bounds at (suc i) (c ∷ cs) (e, f, behind) lt =
      let (lo, hi) =
        starts_bounds (next_address at c.type_size c.elements_num) i cs behind (omega arith) in
      (omega (arith, (Fits-Layout f).next), hi)

  starts_ascending :
      (at i j : ℕ) (cs : List ContainerContext)
      → Chain s vars at cs
      → Filled cs
      → i < j
      → j < length (starts cs)
      → starts cs ! i < starts cs ! j
  starts_ascending at i j [] chain filled lt in_range = absurd (omega arith)
  starts_ascending at i zero (c ∷ cs) chain filled lt in_range = absurd (omega arith)
  starts_ascending at zero (suc j) (c ∷ cs) (e, f, behind) filled lt in_range =
      let (lo, hi) =
        starts_bounds (next_address at c.type_size c.elements_num) j cs behind (omega arith) in
      omega (arith, e, filled.0, (Fits-Layout f).next)
  starts_ascending at (suc i) (suc j) (c ∷ cs) (e, f, behind) filled lt in_range =
      starts_ascending (next_address at c.type_size c.elements_num) i j cs behind filled.1
        (omega arith) (omega arith)

  starts_at :
      (pre : List ContainerContext) (c : ContainerContext) (post : List ContainerContext)
      → (starts (pre ++ c ∷ post) ! length pre ≡ start_of vars c)
        × (length pre < length (starts (pre ++ c ∷ post)))
  starts_at [] c post = (refl, omega arith)
  starts_at (d ∷ pre) c post = let (e, lt) = starts_at pre c post in (e, omega arith)

  -- What the search needs of a chain: full containers in the lower half of the address space.
  pub record IsSearchable (at : ℕ) (cs : List ContainerContext) : Type 0 where
    pub chain : Chain s vars at cs
    pub filled : Filled cs
    pub low : chain_end at cs < sign64
    pub few : length cs < sign64

  module _ (at : ℕ) (cs : List ContainerContext) (is : IsSearchable at cs) where
    starts-IsTable : IsTable (starts cs)
    starts-IsTable = record {
      ascending = λ i j. starts_ascending at i j cs is.chain is.filled;
      low = λ i lt. omega (arith, starts_bounds at i cs is.chain lt, is.low);
      short = omega (arith, length-map (start_of vars) cs, is.few);
    }

  pub search_starts :
      (at : ℕ) (pre : List ContainerContext) (c : ContainerContext) (post : List ContainerContext)
      → IsSearchable at (pre ++ c ∷ post)
      → binary_search (length (pre ++ c ∷ post)) (starts (pre ++ c ∷ post)) (start_of vars c)
        ≡ found (length pre)
  search_starts at pre c post is =
      let cs = pre ++ c ∷ post in
      let (here, lt) = starts_at pre c post in
      let table = starts-IsTable at cs is in
      let bounds = starts_bounds at (length pre) cs is.chain lt in
      ap (λ (n : ℕ). binary_search n (starts cs) (start_of vars c))
        (sym (length-map (start_of vars) cs))
      ∙ binary_search-linear_search (starts cs) (start_of vars c) table
          (omega (arith, here, is.low)) (omega arith)
          (omega (arith, first_least (starts cs) table (length pre) lt, here))
      ∙ linear_search-found 0 (starts cs) (start_of vars c) (length pre) lt here
          (λ q less e. omega (arith, table.ascending q (length pre) less lt, here))
      ∙ ap found (omega arith)

-- In a chain of containers that are not empty, fewer than 2 ^ 63 and below 2 ^ 63, where as many
-- are counted as there are, operator[] of HyperContainerContext finds the index of the container
-- that starts at an address, and changes nothing.
pub find_container-found :
    {o : Os} (w : Scene o) (at : ℕ) (pre : List ContainerContext) (c : ContainerContext)
    (post : List ContainerContext)
    → w.context.containercontext_storage ≡ pre ++ c ∷ post
    → w.context.containers_num ≡ length w.context.containercontext_storage
    → IsSearchable o.page_shift w.vars at (pre ++ c ∷ post)
    → find_container (start_of w.vars c) w ≡ ok (some (length pre)) w
unfolding find_container
find_container-found {o} w at pre c post split counted is =
    let a = start_of w.vars c in
    let found_it =
      ap (λ (n : ℕ). binary_search n (map (start_of w.vars) w.context.containercontext_storage) a)
        counted
      ∙ ap (λ (cs : List ContainerContext). binary_search (length cs) (map (start_of w.vars) cs) a)
          split
      ∙ search_starts o.page_shift w.vars at pre c post is in
    rw (found_it, find_container)
