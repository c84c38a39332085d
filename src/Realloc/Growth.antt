-- ===== src/Realloc/Growth.antt =====
-- What the branch of ContainerRealloc that adds pages is asked for, and what it leaves.
use native.Mathlib.Nat.{one-le-pow}
use vcmalloc_bench.Base.{
  ℕ, suc, ◌+◌, ◌-◌, ◌*◌, ◌^◌, ◌≢◌, get_elem?, get_or, length-take, mul64-exact, w64, ◌≤◌, ◌<◌, ◌≡◌,
  arith, some, List, ◌++◌, length, take, drop, sign64, add64, add64-exact, mul64, sub64,
  sub64-exact,
}
use vcmalloc_bench.Machine.Os.{Os}
use vcmalloc_bench.Context.{Scene}
use vcmalloc_bench.Context.Room.{live, IsStored, HasRoom}
use vcmalloc_bench.Realloc.{Plan, new_elements_num, set_elements, move_pointers}
use vcmalloc_bench.Realloc.Moves.{IsObliging, guest_memory}
use vcmalloc_bench.Machine.Mmu.{IsMapped}

module _ {o : Os} (obliging : IsObliging o) (first_page : ℕ) (p : Plan) (w : Scene o) where
  abbrev steps : ℕ
  steps = p.requested - p.pages

  abbrev bytes : ℕ
  bytes = mul64 steps (2 ^ o.page_shift)

  -- The state after pages were added: the new frames stand behind those of the container, the
  -- containers behind it have moved, and the count is right.
  pub record Grown (w' : Scene o) : Type 0 where
    pub frames : List ℕ
    pub asked : length frames ≡ steps
    pub spliced :
        live w'.context
        ≡ take (p.start_pfn + p.pages) (live w.context)
          ++ frames
          ++ drop (p.start_pfn + p.pages) (live w.context)
    pub num : w'.context.pfns_num ≡ w.context.pfns_num + steps
    pub stored : IsStored w'.context
    pub containers_num : w'.context.containers_num ≡ w.context.containers_num
    pub containers_max : w'.context.containers_max ≡ w.context.containers_max
    pub size : w'.context.hypercontainer_size ≡ w.context.hypercontainer_size
    pub containers :
        w'.context.containercontext_storage
        ≡ set_elements w.context.containercontext_storage p.index (new_elements_num o.page_shift p)
    pub pointers :
        w'.vars
        ≡ move_pointers
            (λ a. add64 a bytes)
            w.vars
            (drop (suc p.index) w.context.containercontext_storage)
    pub mapped : IsMapped obliging.mmu first_page (live w'.context) w'.os
    pub fresh : (i j f : ℕ) → get_elem? frames i ≡ some f → get_elem? (live w.context) j ≢ some f
    pub memory :
        w'.memory
        ≡ guest_memory o w.memory
            (get_or (live w'.context) (p.start_pfn + p.requested - 1) 0)
            (get_or (live w.context) (p.start_pfn + p.pages - 1) 0)
            p.guest

  -- What is asked of a call: a plan with more pages than the container has, the container's
  -- frames among those that are counted, a number of frames far below 2 ^ 63, the frames mapped
  -- from the first page on, and the guest at the end of the container's last page.
  pub record IsGrowth : Type 0 where
    pub more : p.pages < p.requested
    pub inside : p.start_pfn + p.pages ≤ w.context.pfns_num
    pub few : w.context.pfns_num + steps ≤ sign64
    pub mapped : IsMapped obliging.mmu first_page (live w.context) w.os
    pub placed : p.mapping ≡ (first_page + p.start_pfn) * 2 ^ o.page_shift
    pub guest_at : p.next + p.guest ≡ (first_page + (p.start_pfn + p.pages)) * 2 ^ o.page_shift
    pub above : first_page * 2 ^ o.page_shift ≤ p.next
    pub small : p.guest < 2 ^ o.page_shift
    pub high : p.next + steps * 2 ^ o.page_shift < w64
    pub some_address : 0 < p.next

  module _ (is : IsStored w.context) (g : IsGrowth) where
    pub some_byte : 0 < 2 ^ o.page_shift
    some_byte = one-le-pow o.page_shift 2 (omega arith)

    pub within : p.start_pfn + p.pages ≤ length (live w.context)
    within =
        omega (
          arith,
          g.inside,
          is.cells,
          is.fits,
          length-take w.context.pfns_num w.context.pfns_storage,
        )

    pub lands_at : add64 p.next bytes ≡ p.next + steps * 2 ^ o.page_shift
    lands_at =
        let exact = mul64-exact steps (2 ^ o.page_shift) (omega (arith, g.high)) in
        rw exact (add64-exact p.next (steps * 2 ^ o.page_shift) g.high)

    pub pages_lem :
        (first_page + (p.start_pfn + p.requested)) * 2 ^ o.page_shift
        ≡ (first_page + (p.start_pfn + p.pages)) * 2 ^ o.page_shift + steps * 2 ^ o.page_shift
    pages_lem =
        let count : first_page + (p.start_pfn + p.requested)
            ≡ first_page + (p.start_pfn + p.pages) + steps =
          omega (arith, g.more) in
        rw count (omega arith)

    module _ (v : Scene o) (room : HasRoom steps w v) where
      pub behind_lem :
          sub64 (sub64 v.context.pfns_num p.start_pfn) p.pages
          ≡ v.context.pfns_num - (p.start_pfn + p.pages)
      behind_lem =
          let first =
            sub64-exact v.context.pfns_num p.start_pfn (omega (arith, g.inside, room.num))
              (omega (arith, g.few, room.num)) in
          let second =
            sub64-exact (v.context.pfns_num - p.start_pfn) p.pages
              (omega (arith, g.inside, room.num)) (omega (arith, g.few, room.num)) in
          rw first (rw second (omega arith))

      pub target_lem : p.start_pfn + p.requested ≡ p.start_pfn + p.pages + steps
      target_lem = omega (arith, g.more)

      pub next_num : add64 v.context.pfns_num steps ≡ v.context.pfns_num + steps
      next_num = add64-exact v.context.pfns_num steps (omega (arith, g.few, room.num))

      pub remapped :
          add64 (sub64 v.context.pfns_num p.start_pfn) steps
          ≡ v.context.pfns_num - p.start_pfn + steps
      remapped =
          let first =
            sub64-exact v.context.pfns_num p.start_pfn (omega (arith, g.inside, room.num))
              (omega (arith, g.few, room.num)) in
          rw first
            (add64-exact (v.context.pfns_num - p.start_pfn) steps (omega (arith, g.few, room.num)))

      pub fit :
          (us : List ℕ)
          → length us ≡ length v.context.pfns_storage
          → p.start_pfn + (v.context.pfns_num - p.start_pfn + steps) ≤ length us
      fit us lu = omega (arith, g.inside, room.num, room.room, room.stored.cells)
