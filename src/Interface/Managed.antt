-- ===== src/Interface/Managed.antt =====
-- When the hyper-containers of a process are well formed, and the search for one by its address.
use vcmalloc_bench.Base.{
  ℕ, zero, suc, ◌+◌, ◌≤◌, ◌<◌, ◌≡◌, ◌≢◌, ◌%◌, refl, ap, ◌∙◌, arith, none, some, List, [], ◌∷◌,
  sign64, length, get_elem?,
}
use vcmalloc_bench.Machine.Os.{Os}
use vcmalloc_bench.Machine.Run.{ok}
use vcmalloc_bench.Search.{found, binary_search}
use vcmalloc_bench.Search.Down.{◌!◌, IsTable}
use vcmalloc_bench.Search.Linear.{
  linear_search-found, linear_search-missing, binary_search-linear_search,
}
use vcmalloc_bench.Context.{HyperContainerContext}
use vcmalloc_bench.Context.Consistent.{IsConsistent}
use vcmalloc_bench.Manager.{World, find_hyper_container}

-- A hyper-container at an address that is not below `lo`, where the system allocates addresses
-- in units of `u` bytes.
pub record IsEntry (u s : ℕ) (vars : ℕ → ℕ) (lo p : ℕ) (h : HyperContainerContext) : Type 0 where
  pub above : lo ≤ p
  pub sized : 0 < h.hypercontainer_size
  pub low : p + h.hypercontainer_size < sign64
  pub consistent : IsConsistent s vars p h
  pub unit : p % u ≡ 0
  pub units : h.hypercontainer_size % u ≡ 0

-- Well-formed hyper-containers, each behind the reserved addresses of those before it.
abbrev pub Entries : (u s : ℕ) → (ℕ → ℕ) → ℕ → List ℕ → List HyperContainerContext → Type 0
Entries u s vars lo [] [] = Unit
Entries u s vars lo [] (h ∷ hs) = ⊥
Entries u s vars lo (p ∷ ps) [] = ⊥
Entries u s vars lo (p ∷ ps) (h ∷ hs) =
    IsEntry u s vars lo p h × Entries u s vars (p + h.hypercontainer_size) ps hs

pub record IsManaged {o : Os} (w : World o) : Type 0 where
  pub entries :
      Entries o.granularity o.page_shift w.vars 1 w.hcm.pointers_storage
        w.hcm.hyper_containers_storage
  pub counted : w.hcm.hypercontainers_num ≡ length w.hcm.pointers_storage
  pub fits : w.hcm.hypercontainers_num < w.hcm.hypercontainers_max

-- The entry of index `i` is the address `a` with the context `h`.
abbrev pub At : ℕ → ℕ → HyperContainerContext → List ℕ → List HyperContainerContext → Type 0
At i a h [] hs = ⊥
At i a h (p ∷ ps) [] = ⊥
At zero a h (p ∷ ps) (g ∷ hs) = (p ≡ a) × (g ≡ h)
At (suc i) a h (p ∷ ps) (g ∷ hs) = At i a h ps hs

pub At-context :
    (i a : ℕ) (h : HyperContainerContext) (ps : List ℕ) (hs : List HyperContainerContext)
    → At i a h ps hs
    → get_elem? hs i ≡ some h
At-context i a h [] hs at = absurd at
At-context i a h (p ∷ ps) [] at = absurd at
At-context zero a h (p ∷ ps) (g ∷ hs) at = ap some at.1
At-context (suc i) a h (p ∷ ps) (g ∷ hs) at = At-context i a h ps hs at

pub At-pointer :
    (i a : ℕ) (h : HyperContainerContext) (ps : List ℕ) (hs : List HyperContainerContext)
    → At i a h ps hs
    → (i < length ps) × (ps ! i ≡ a)
At-pointer i a h [] hs at = absurd at
At-pointer i a h (p ∷ ps) [] at = absurd at
At-pointer zero a h (p ∷ ps) (g ∷ hs) at = (omega arith, at.0)
At-pointer (suc i) a h (p ∷ ps) (g ∷ hs) at =
    let (lt, e) = At-pointer i a h ps hs at in (omega arith, e)

module _ (u s : ℕ) (vars : ℕ → ℕ) where
  -- As many hyper-containers as contexts, and no more than there are addresses.
  pub Entries-length :
      (lo : ℕ) (ps : List ℕ) (hs : List HyperContainerContext)
      → lo < sign64
      → Entries u s vars lo ps hs
      → (length ps ≡ length hs) × (lo + length ps < sign64)
  Entries-length lo [] [] low is = (refl, omega arith)
  Entries-length lo [] (h ∷ hs) low is = absurd is
  Entries-length lo (p ∷ ps) [] low is = absurd is
  Entries-length lo (p ∷ ps) (h ∷ hs) low (e, behind) =
      let (same, less) = Entries-length (p + h.hypercontainer_size) ps hs e.low behind in
      (omega arith, omega (arith, e.above, e.sized))

  Entries-bounds :
      (lo i : ℕ) (ps : List ℕ) (hs : List HyperContainerContext)
      → Entries u s vars lo ps hs
      → i < length ps
      → (lo ≤ ps ! i) × (ps ! i < sign64)
  Entries-bounds lo i [] hs is lt = absurd (omega arith)
  Entries-bounds lo i (p ∷ ps) [] is lt = absurd is
  Entries-bounds lo zero (p ∷ ps) (h ∷ hs) (e, behind) lt = (e.above, omega (arith, e.low))
  Entries-bounds lo (suc i) (p ∷ ps) (h ∷ hs) (e, behind) lt =
      let (least, most) = Entries-bounds (p + h.hypercontainer_size) i ps hs behind (omega arith) in
      (omega (arith, e.above), most)

  Entries-ascending :
      (lo i j : ℕ) (ps : List ℕ) (hs : List HyperContainerContext)
      → Entries u s vars lo ps hs
      → i < j
      → j < length ps
      → ps ! i < ps ! j
  Entries-ascending lo i j [] hs is lt in_range = absurd (omega arith)
  Entries-ascending lo i j (p ∷ ps) [] is lt in_range = absurd is
  Entries-ascending lo i zero (p ∷ ps) (h ∷ hs) is lt in_range = absurd (omega arith)
  Entries-ascending lo zero (suc j) (p ∷ ps) (h ∷ hs) (e, behind) lt in_range =
      let (least, most) = Entries-bounds (p + h.hypercontainer_size) j ps hs behind (omega arith) in
      omega (arith, e.sized)
  Entries-ascending lo (suc i) (suc j) (p ∷ ps) (h ∷ hs) (e, behind) lt in_range =
      Entries-ascending (p + h.hypercontainer_size) i j ps hs behind (omega arith) (omega arith)

  pub Entries-IsTable :
      (ps : List ℕ) (hs : List HyperContainerContext) → Entries u s vars 1 ps hs → IsTable ps
  Entries-IsTable ps hs is = record {
    ascending = λ i j. Entries-ascending 1 i j ps hs is;
    low = λ i lt. (Entries-bounds 1 i ps hs is lt).1;
    short = omega (arith, (Entries-length 1 ps hs (omega arith) is).1);
  }

module _ {o : Os} (w : World o) (is : IsManaged w) where
  table : IsTable w.hcm.pointers_storage
  table =
      Entries-IsTable o.granularity o.page_shift w.vars w.hcm.pointers_storage
        w.hcm.hyper_containers_storage is.entries

  first_least :
      (i : ℕ)
      → i < length w.hcm.pointers_storage
      → w.hcm.pointers_storage ! 0 ≤ w.hcm.pointers_storage ! i
  first_least zero lt = omega arith
  first_least (suc i) lt = omega (arith, table.ascending 0 (suc i) (omega arith) lt)

  -- The search finds the entry with an address.
  pub find_hyper_container-found :
      (i a : ℕ) (h : HyperContainerContext)
      → At i a h w.hcm.pointers_storage w.hcm.hyper_containers_storage
      → find_hyper_container a w ≡ ok (some i) w
  unfolding find_hyper_container
  find_hyper_container-found i a h at =
      let ps = w.hcm.pointers_storage in
      let (lt, here) = At-pointer i a h ps w.hcm.hyper_containers_storage at in
      let hit : binary_search w.hcm.hypercontainers_num ps a ≡ found i =
        ap (λ (n : ℕ). binary_search n ps a) is.counted
        ∙ binary_search-linear_search ps a table (omega (arith, here, table.low i lt)) (omega arith)
            (omega (arith, first_least i lt, here))
        ∙ linear_search-found 0 ps a i lt here
            (λ q less e. omega (arith, table.ascending q i less lt, here))
        ∙ ap found (omega arith) in
      rw (hit, find_hyper_container)

  -- Between the entries it finds nothing.
  pub find_hyper_container-missing :
      (a : ℕ)
      → 0 < length w.hcm.pointers_storage
      → w.hcm.pointers_storage ! 0 ≤ a
      → a < sign64
      → ((i : ℕ) → i < length w.hcm.pointers_storage → w.hcm.pointers_storage ! i ≢ a)
      → find_hyper_container a w ≡ ok none w
  unfolding find_hyper_container
  find_hyper_container-missing a some_entry above low no_entry =
      let ps = w.hcm.pointers_storage in
      let hit =
        ap (λ (n : ℕ). binary_search n ps a) is.counted
        ∙ binary_search-linear_search ps a table low some_entry above
        ∙ linear_search-missing 0 ps a no_entry in
      rw (hit, find_hyper_container)
