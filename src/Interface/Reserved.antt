-- ===== src/Interface/Reserved.antt =====
-- vccalloc as a whole: it ends with a new hyper-container behind the others.
use native.Mathlib.Nat.{mul-mod_left}
use mathlib.Core.Option.{some-injective}
use vcmalloc_bench.Base.{
  ℕ, ◌+◌, ◌*◌, ◌%◌, ◌^◌, ◌≤◌, ◌<◌, ◌≡◌, refl, sym, ap, ◌∙◌, arith, true, some, ◌∷◌, ◌++◌, [],
  length, length-append, w64, sign64, ◌==◌,
}
use vcmalloc_bench.Machine.Os.{Os}
use vcmalloc_bench.Machine.Returns.{Returns, returns, bind}
use vcmalloc_bench.Context.Room.{GrantsHeap}
use vcmalloc_bench.Manager.{World, insert_hyper_container}
use vcmalloc_bench.Interface.{requested_address, rounded_size, vccalloc}
use vcmalloc_bench.Interface.Size.{rounded_size-IsCeiling}
use vcmalloc_bench.Interface.Managed.{IsEntry, Entries-length, IsManaged}
use vcmalloc_bench.Interface.Contexts.{contexts, update, regions_end, context_of-append}
use vcmalloc_bench.Interface.Reserve.{IsGranted, IsReserving, reserve_lem, granted_at, page_aligned}
use vcmalloc_bench.Interface.Addition.{
  made, requested_lem, Entries-append, Enlarged, enlarge-Enlarged, new_context_lem,
  made-IsConsistent,
}

-- What is asked of the machine: memory for the arrays, pages that hold a context and are not
-- larger than half of the address space.
pub record IsAmple (o : Os) : Type 0 where
  pub heap : GrantsHeap o
  pub page : 56 ≤ 2 ^ o.page_shift
  pub low_page : 2 ^ o.page_shift ≤ sign64

module _ {o : Os} (size a : ℕ) (w : World o) where
  abbrev pub region : ℕ
  region = rounded_size o.granularity size

  -- The state after the call: an empty hyper-container at an address behind all the others.
  pub record Reserved (w' : World o) : Type 0 where
    pub managed : IsManaged w'
    pub behind : regions_end 1 w.hcm.pointers_storage w.hcm.hyper_containers_storage ≤ a
    pub added : (b : ℕ) → contexts w' b ≡ update (contexts w) a (some (made o region)) b
    pub num : w'.hcm.hypercontainers_num ≡ w.hcm.hypercontainers_num + 1
    pub vars : w'.vars ≡ w.vars
    pub memory : w'.memory ≡ w.memory

  module _ (is : IsManaged w) (ample : IsAmple o)
      (above : regions_end 1 w.hcm.pointers_storage w.hcm.hyper_containers_storage ≤ a)
      (entry : IsEntry o.granularity o.page_shift w.vars a a (made o region)) where
    lengths :
        (length w.hcm.pointers_storage ≡ length w.hcm.hyper_containers_storage)
        × (1 + length w.hcm.pointers_storage < sign64)
    lengths =
        Entries-length o.granularity o.page_shift w.vars 1 w.hcm.pointers_storage
          w.hcm.hyper_containers_storage (omega arith) is.entries

    -- Behind the enlargement of the arrays.
    finish :
        (s s' : o.State) (v : World o)
        → Enlarged o ample.heap ample.page ample.low_page (record w { os = s }) v
        → Reserved (record v {
          os = s';
          hcm = record v.hcm {
            hyper_containers_storage = v.hcm.hyper_containers_storage ++ made o region ∷ [];
            pointers_storage = v.hcm.pointers_storage ++ a ∷ [];
            hypercontainers_num = v.hcm.hypercontainers_num + 1;
            default_container = some v.hcm.hypercontainers_num;
          };
        })
    finish s s' v g =
        let ps = w.hcm.pointers_storage in
        let hs = w.hcm.hyper_containers_storage in
        record {
          managed = record {
            entries =
                rw (g.vars, g.pointers, g.storage)
                  (Entries-append o.granularity o.page_shift w.vars 1 a (made o region) ps hs
                    is.entries above entry);
            counted = rw g.pointers (omega (arith, g.num, is.counted, length-append ps (a ∷ [])));
            fits = omega (arith, g.room, g.num);
          };
          behind = above;
          added =
              rw (g.pointers, g.storage)
                (context_of-append o.granularity o.page_shift w.vars 1 a (made o region) ps hs
                  is.entries above);
          num = ap (λ (n : ℕ). n + 1) g.num;
          vars = g.vars;
          memory = g.memory;
        }

    entered :
        (s : o.State)
        → Returns (λ _ w'. Reserved w') (insert_hyper_container a region (record w { os = s }))
    unfolding insert_hyper_container
    entered s =
        bind (enlarge-Enlarged o ample.heap ample.page ample.low_page (record w { os = s }) is.fits)
          λ _ v g.
            let (s', e) = new_context_lem o ample.heap ample.page ample.low_page region v.os in
            let pointers : (length v.hcm.pointers_storage == v.hcm.hypercontainers_num) ≡ true =
              rw (g.pointers, g.num) (ground (arith, is.counted)) in
            let storage : (length v.hcm.hyper_containers_storage == v.hcm.hypercontainers_num)
                ≡ true =
              rw (g.storage, g.num) (ground (arith, is.counted, lengths.0)) in
            rw e (rw (pointers, storage) (returns (finish s s' v g)))

  -- On a well-formed manager, with memory for the arrays and pages of 56 bytes to 2 ^ 63, for a
  -- size other than 0, where VirtualAlloc acts as documented, granting the address asked for
  -- rounded down to a multiple of the granularity, or without one a multiple that it chooses, in
  -- the lower half of the address space, if it refuses some addresses one granularity apart from
  -- the end of the last hyper-container on and grants the next, before the addresses wrap and
  -- within the rounds, vccalloc ends with the granted address: there is an empty hyper-container of
  -- the rounded size at it, behind all the others, which are as before, and the manager is well
  -- formed.
  pub vccalloc-Reserved :
      (fuel k r : ℕ)
      → IsManaged w
      → IsAmple o
      → (law : IsReserving o) → 0 < size
      → requested_address w.hcm ≡ some r
      → r + k * o.granularity < w64
      → k < fuel
      → IsGranted o k r size a w.os
      → Returns (λ b w'. (b ≡ a) × Reserved w') (vccalloc fuel size w)
  unfolding vccalloc
  vccalloc-Reserved fuel k r is ample law some_bytes request low lt granted =
      let h = w.hcm in
      let (r', e, unit, small, above) =
        requested_lem o.granularity o.page_shift w.vars h.pointers_storage
          h.hyper_containers_storage h.hypercontainers_num h.hypercontainers_max h.default_container
          is.counted is.entries in
      let same : r' ≡ r = some-injective r' r (sym e ∙ request) in
      let (pos, le, aligned, top) =
        granted_at law k r size a w.os (rw (sym same) unit) low granted in
      let ceiling = rounded_size-IsCeiling o.granularity size law.some_unit (omega (arith, top)) in
      let entry : IsEntry o.granularity o.page_shift w.vars a a (made o region) = record {
        above = omega arith;
        sized = omega (arith, ceiling.above);
        low = omega (arith, ceiling.near);
        consistent =
            made-IsConsistent o ample.heap ample.page ample.low_page region a w.vars
              (page_aligned law a aligned);
        unit = aligned;
        units =
            ap (λ (b : ℕ). b % o.granularity) ceiling.exact
            ∙ mul-mod_left ceiling.multiple o.granularity;
      } in
      rw request (
        rw (reserve_lem k fuel r size a w lt granted) (
          bind (entered is ample (above a pos (omega (arith, same))) entry _)
            λ _ w' done. returns (refl, done)))
