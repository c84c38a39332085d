-- ===== src/Realloc/Reduction.antt =====
-- What the branch of ContainerRealloc that gives pages back is asked for, and what it leaves.
use native.Mathlib.Nat.{one-le-pow}
use vcmalloc_bench.Base.{
  ◌*◌, get_or, w64, mul64-exact, ℕ, suc, ◌+◌, ◌-◌, ◌^◌, ◌≤◌, ◌<◌, ◌≡◌, arith, ◌++◌, length,
  length-take, take, drop, mul64, sub64, sub64-exact,
}
use vcmalloc_bench.Machine.Os.{Os}
use vcmalloc_bench.Context.{Scene}
use vcmalloc_bench.Context.Room.{live, IsStored}
use vcmalloc_bench.Realloc.{Plan, new_elements_num, set_elements, move_pointers}
use vcmalloc_bench.Realloc.Moves.{IsObliging, guest_memory, Ends, Lower-Ends}
use vcmalloc_bench.Machine.Mmu.{IsMapped}

module _ {o : Os} (obliging : IsObliging o) (first_page : ℕ) (p : Plan) (w : Scene o) where
  abbrev steps : ℕ
  steps = p.pages - p.requested

  abbrev bytes : ℕ
  bytes = mul64 steps (2 ^ o.page_shift)

  -- The state after pages were given back: the frames of the container beyond the planned ones
  -- are gone, the containers behind it have moved, and the count is right.
  pub record Shrunk (w' : Scene o) : Type 0 where
    pub spliced :
        live w'.context
        ≡ take (p.start_pfn + p.requested) (live w.context)
          ++ drop (p.start_pfn + p.pages) (live w.context)
    pub num : w'.context.pfns_num ≡ w.context.pfns_num - steps
    pub stored : IsStored w'.context
    pub containers_num : w'.context.containers_num ≡ w.context.containers_num
    pub containers_max : w'.context.containers_max ≡ w.context.containers_max
    pub size : w'.context.hypercontainer_size ≡ w.context.hypercontainer_size
    pub containers :
        w'.context.containercontext_storage
        ≡ set_elements w.context.containercontext_storage p.index (new_elements_num o.page_shift p)
    pub pointers :
        w'.vars
        ≡ move_pointers
            (λ a. sub64 a bytes)
            w.vars
            (drop (suc p.index) w.context.containercontext_storage)
    pub mapped : IsMapped obliging.mmu first_page (live w'.context) w'.os
    pub memory :
        w'.memory
        ≡ guest_memory o w.memory
            (get_or (live w.context) (p.start_pfn + p.requested - 1) 0)
            (get_or (live w.context) (p.start_pfn + p.pages - 1) 0)
            p.guest

  -- What is asked of a call: a plan with fewer pages than the container has, the container's
  -- frames among those that are counted and mapped from the first page on, and the guest at the
  -- end of the container's last page.
  pub record IsReduction : Type 0 where
    pub less : p.requested < p.pages
    pub inside : p.start_pfn + p.pages ≤ w.context.pfns_num
    pub mapped : IsMapped obliging.mmu first_page (live w.context) w.os
    pub placed : p.mapping ≡ (first_page + p.start_pfn) * 2 ^ o.page_shift
    pub guest_at : p.next + p.guest ≡ (first_page + (p.start_pfn + p.pages)) * 2 ^ o.page_shift
    pub above : first_page * 2 ^ o.page_shift + steps * 2 ^ o.page_shift ≤ p.next
    pub small : p.guest < 2 ^ o.page_shift
    pub high : p.next < w64
    pub some_address : steps * 2 ^ o.page_shift < p.next

  module _ (is : IsStored w.context) (g : IsReduction) where
    pub some_byte : 0 < 2 ^ o.page_shift
    some_byte = one-le-pow o.page_shift 2 (omega arith)

    pub within : p.start_pfn + p.pages ≤ length (live w.context)
    within =
        omega (
          arith,
          g.inside,
          is.cells,
          is.fits,
          length-take w.context.pfns_num w.context.pfns_storage,
        )

    -- The guest's bytes before and after, at the ends of two pages.
    pub lands_at : sub64 p.next bytes ≡ p.next - steps * 2 ^ o.page_shift
    lands_at =
        let exact = mul64-exact steps (2 ^ o.page_shift) (omega (arith, g.high, g.some_address)) in
        rw exact
          (sub64-exact p.next (steps * 2 ^ o.page_shift) (omega (arith, g.some_address)) g.high)

    pages_lem :
        (first_page + (p.start_pfn + p.pages)) * 2 ^ o.page_shift
        ≡ (first_page + (p.start_pfn + p.requested)) * 2 ^ o.page_shift + steps * 2 ^ o.page_shift
    pages_lem =
        let count : first_page + (p.start_pfn + p.pages)
            ≡ first_page + (p.start_pfn + p.requested) + steps =
          omega (arith, g.less) in
        rw count (omega arith)

    pub to_end :
        Ends o p.guest
          (sub64 p.next bytes)
          (first_page + (p.start_pfn + p.requested - 1))
          (get_or (live w.context) (p.start_pfn + p.requested - 1) 0)
          w.os
    to_end =
        Lower-Ends obliging.mmu first_page (p.start_pfn + p.requested) (live w.context) w.os
          (sub64 p.next bytes) p.guest (λ i f lt e. g.mapped.pages i f e)
          (omega (arith, within, g.less))
          (omega (arith, lands_at, g.guest_at, pages_lem, g.some_address))
          (omega (arith, lands_at, g.above))

    pub from_end :
        Ends o p.guest p.next
          (first_page + (p.start_pfn + p.pages - 1))
          (get_or (live w.context) (p.start_pfn + p.pages - 1) 0)
          w.os
    from_end =
        Lower-Ends obliging.mmu first_page (p.start_pfn + p.pages) (live w.context) w.os p.next
          p.guest (λ i f lt e. g.mapped.pages i f e) within g.guest_at (omega (arith, g.above))
