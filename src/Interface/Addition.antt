-- ===== src/Interface/Addition.antt =====
-- A new hyper-container behind those of the manager.
use native.Mathlib.Nat.{zero-mod}
use vcmalloc_bench.Base.{
  ℕ, ◌+◌, ◌-◌, ◌/◌, ◌%◌, ◌^◌, ◌≤◌, ◌<◌, ◌≡◌, refl, ap, arith, true, false, some, List, [], ◌∷◌,
  ◌++◌, length, length-replicate, get_elem?, sign64, add64-exact, mul64, ◌==◌, inl, inr, Bool-cases,
  leb, Option, replicate,
}
use vcmalloc_bench.Machine.Os.{Os}
use vcmalloc_bench.Machine.Returns.{Returns, returns}
use vcmalloc_bench.Context.{HyperContainerContext}
use vcmalloc_bench.Context.Storage.{new_context}
use vcmalloc_bench.Context.Room.{GrantsHeap}
use vcmalloc_bench.Context.Consistent.{IsConsistent}
use vcmalloc_bench.Manager.{World, enlarge}
use vcmalloc_bench.Interface.{requested_address}
use vcmalloc_bench.Interface.Managed.{IsEntry, Entries}
use vcmalloc_bench.Interface.Contexts.{regions_end}
use vcmalloc_bench.Interface.Reserve.{mod-sum}

module _ (u s : ℕ) (vars : ℕ → ℕ) where
  pub Entries-append :
      (lo a : ℕ) (h : HyperContainerContext) (ps : List ℕ) (hs : List HyperContainerContext)
      → Entries u s vars lo ps hs
      → regions_end lo ps hs ≤ a
      → IsEntry u s vars a a h
      → Entries u s vars lo (ps ++ a ∷ []) (hs ++ h ∷ [])
  Entries-append lo a h [] [] is above e = (
    record {
      above = above;
      sized = e.sized;
      low = e.low;
      consistent = e.consistent;
      unit = e.unit;
      units = e.units;
    },
    tt,
  )
  Entries-append lo a h [] (k ∷ hs) is above e = absurd is
  Entries-append lo a h (p ∷ ps) [] is above e = absurd is
  Entries-append lo a h (p ∷ ps) (k ∷ hs) (entry, behind) above e =
      (entry, Entries-append (p + k.hypercontainer_size) a h ps hs behind above e)

  -- The last entry, where the reserved addresses end.
  last-IsEntry :
      (lo p : ℕ) (ps : List ℕ) (h : HyperContainerContext) (hs : List HyperContainerContext)
      → Entries u s vars lo (p ∷ ps) (h ∷ hs)
      → (q : ℕ) × (k : HyperContainerContext) × (get_elem? (p ∷ ps) (length ps) ≡ some q)
        × (get_elem? (h ∷ hs) (length ps) ≡ some k)
        × (q + k.hypercontainer_size ≡ regions_end lo (p ∷ ps) (h ∷ hs))
        × IsEntry u s vars q q k
  last-IsEntry lo p [] h [] (e, behind) = (
    p,
    h,
    refl,
    refl,
    refl,
    record {
      above = omega arith;
      sized = e.sized;
      low = e.low;
      consistent = e.consistent;
      unit = e.unit;
      units = e.units;
    },
  )
  last-IsEntry lo p [] h (k ∷ hs) (e, behind) = absurd behind
  last-IsEntry lo p (q ∷ ps) h [] (e, behind) = absurd behind
  last-IsEntry lo p (q ∷ ps) h (k ∷ hs) (e, behind) =
      last-IsEntry (p + h.hypercontainer_size) q ps k hs behind

  -- What vccalloc asks for first: the end of the reserved addresses, or NULL before there are any.
  pub requested_lem :
      (ps : List ℕ) (hs : List HyperContainerContext) (num max : ℕ) (default_container : Option ℕ)
      → num ≡ length ps
      → Entries u s vars 1 ps hs
      → (r : ℕ) × (requested_address (record {
        hyper_containers_storage = hs;
        pointers_storage = ps;
        hypercontainers_num = num;
        hypercontainers_max = max;
        default_container = default_container;
      })
          ≡ some r)
        × (r % u ≡ 0)
        × (r < sign64)
        × ((a : ℕ) → 0 < a → r ≤ a → regions_end 1 ps hs ≤ a)
  unfolding requested_address
  requested_lem [] [] num max d e is =
      let empty : (num == 0) ≡ true = ground arith in
      (0, rw empty refl, zero-mod u, omega arith, λ a pos le. omega arith)
  requested_lem [] (h ∷ hs) num max d e is = absurd is
  requested_lem (p ∷ ps) [] num max d e is = absurd is
  requested_lem (p ∷ ps) (h ∷ hs) num max d e is =
      let (q, k, eq, ek, end, entry) = last-IsEntry 1 p ps h hs is in
      let some_entry : (num == 0) ≡ false = ground arith in
      let last : num - 1 ≡ length ps = omega arith in
      (
        q + k.hypercontainer_size,
        rw (some_entry, last, eq, last, ek)
            (ap some (add64-exact q k.hypercontainer_size (omega (arith, entry.low)))),
        mod-sum q k.hypercontainer_size u entry.unit entry.units,
        entry.low,
        λ a pos le. omega (arith, end),
      )

-- What vccalloc puts there: a context without containers and frames.
abbrev pub made : Os → ℕ → HyperContainerContext
made o size = record {
  containercontext_storage = [];
  pfns_storage = replicate (2 ^ o.page_shift / 8) 0;
  containers_num = 0;
  containers_max = 2 ^ o.page_shift / 24;
  pfns_num = 0;
  pfns_max = 2 ^ o.page_shift / 8;
  hypercontainer_size = size;
}

module _ (o : Os) (heap : GrantsHeap o) (page : 56 ≤ 2 ^ o.page_shift)
    (low_page : 2 ^ o.page_shift ≤ sign64) where
  pub new_context_lem :
      (size : ℕ) (s : o.State) → (s' : o.State) × (new_context o size s ≡ (some (made o size), s'))
  unfolding new_context
  new_context_lem size s =
      let first = mul64 (2 ^ o.page_shift / 8) 8 in
      let second = mul64 (2 ^ o.page_shift / 24) 24 in
      (
        (o.heap_alloc second (o.heap_alloc first s).1).1,
        rw (heap first s, heap second (o.heap_alloc first s).1) refl,
      )

  pub made-IsConsistent :
      (size a : ℕ) (vars : ℕ → ℕ)
      → a % 2 ^ o.page_shift ≡ 0
      → IsConsistent o.page_shift vars a (made o size)
  made-IsConsistent size a vars aligned = record {
    aligned = aligned;
    chain = tt;
    backed = refl;
    counted = record { counted = refl; fits = omega arith };
    stored = record {
      cells = length-replicate {A = ℕ} (2 ^ o.page_shift / 8) 0;
      fits = omega arith;
      some_cell = omega arith;
      bounded = omega arith;
    };
  }

  -- Room for one entry more; nothing else of the manager changes.
  pub record Enlarged (w w' : World o) : Type 0 where
    pub room : w.hcm.hypercontainers_num + 1 < w'.hcm.hypercontainers_max
    pub num : w'.hcm.hypercontainers_num ≡ w.hcm.hypercontainers_num
    pub pointers : w'.hcm.pointers_storage ≡ w.hcm.pointers_storage
    pub storage : w'.hcm.hyper_containers_storage ≡ w.hcm.hyper_containers_storage
    pub vars : w'.vars ≡ w.vars
    pub memory : w'.memory ≡ w.memory

  pub enlarge-Enlarged :
      (w : World o)
      → w.hcm.hypercontainers_num < w.hcm.hypercontainers_max
      → Returns (λ _ w'. Enlarged w w') (enlarge w)
  unfolding enlarge
  enlarge-Enlarged w fits =
      elim (Bool-cases (leb w.hcm.hypercontainers_max (w.hcm.hypercontainers_num + 1))) [
        | inl full ↦ rw full (
            rw (heap _ _) (
              rw (heap _ _) (
                returns (record {
                  room = omega arith;
                  num = refl;
                  pointers = refl;
                  storage = refl;
                  vars = refl;
                  memory = refl;
                }))))
        | inr enough ↦ rw enough (
            returns (record {
              room = ground arith;
              num = refl;
              pointers = refl;
              storage = refl;
              vars = refl;
              memory = refl;
            }))
      ]
