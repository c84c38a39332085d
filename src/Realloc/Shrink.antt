-- ===== src/Realloc/Shrink.antt =====
-- The branch of ContainerRealloc that gives pages back.
use vcmalloc_bench.Base.{
  ap, sym, get_or, take-take, drop-take, ℕ, ◌+◌, ◌-◌, ◌^◌, ◌≤◌, ◌≡◌, refl, ◌∙◌, arith, true, false,
  some, List, ◌++◌, length, length-take, length-drop, take, drop, ◌==◌, mul64, sub64, sub64-exact,
}
use vcmalloc_bench.Machine.Os.{Os}
use vcmalloc_bench.Machine.Returns.{Returns, returns, bind}
use vcmalloc_bench.Context.{Scene, move_cells}
use vcmalloc_bench.Context.Gap.{slice-some, closed}
use vcmalloc_bench.Context.Room.{live, IsStored}
use vcmalloc_bench.Realloc.{Plan, copy_guest, shrink, give_back, commit}
use vcmalloc_bench.Realloc.Moves.{IsObliging, guest_memory, copy_guest_lem}
use vcmalloc_bench.Machine.Mmu.{IsMapped}
use vcmalloc_bench.Machine.Remap.{Lower-unmap}
use vcmalloc_bench.Machine.Frames.{spare, closed-Lower, IsMapped-closed}
use vcmalloc_bench.Realloc.Reduction.{
  Shrunk, IsReduction, some_byte, within, lands_at, to_end, from_end,
}

module _ {o : Os} (obliging : IsObliging o) (first_page : ℕ) (p : Plan) (w : Scene o)
    (is : IsStored w.context) (g : IsReduction obliging first_page p w) where
  abbrev steps : ℕ
  steps = p.pages - p.requested

  abbrev bytes : ℕ
  bytes = mul64 steps (2 ^ o.page_shift)

  abbrev copied : Scene o
  copied = record w {
    memory =
        guest_memory o w.memory (get_or (live w.context) (p.start_pfn + p.requested - 1) 0)
          (get_or (live w.context) (p.start_pfn + p.pages - 1) 0) p.guest;
  }

  guest_lem : Returns (λ _ u. u ≡ copied) (copy_guest (sub64 p.next bytes) p.next p.guest w)
  guest_lem =
      let lands : (sub64 p.next bytes == 0) ≡ false =
        ground (arith, (lands_at obliging first_page p w is g), g.some_address) in
      rw
        (copy_guest_lem (sub64 p.next bytes) p.next p.guest w _ _ _ _ (omega (arith, g.small))
          (to_end obliging first_page p w is g) (from_end obliging first_page p w is g) lands)
        (returns refl)

  behind_lem :
      sub64 (sub64 w.context.pfns_num p.start_pfn) p.pages
      ≡ w.context.pfns_num - (p.start_pfn + p.pages)
  behind_lem =
      let first =
        sub64-exact w.context.pfns_num p.start_pfn (omega (arith, g.inside))
          (omega (arith, is.fits, is.bounded)) in
      let second =
        sub64-exact (w.context.pfns_num - p.start_pfn) p.pages (omega (arith, g.inside))
          (omega (arith, is.fits, is.bounded)) in
      rw first (rw second (omega arith))

  source_lem : p.start_pfn + p.pages ≡ p.start_pfn + p.requested + steps
  source_lem = omega (arith, g.less)

  next_num : sub64 w.context.pfns_num steps ≡ w.context.pfns_num - steps
  next_num =
      sub64-exact w.context.pfns_num steps (omega (arith, g.inside))
        (omega (arith, is.fits, is.bounded))

  remapped :
      sub64 (sub64 w.context.pfns_num p.start_pfn) steps ≡ w.context.pfns_num - p.start_pfn - steps
  remapped =
      let first =
        sub64-exact w.context.pfns_num p.start_pfn (omega (arith, g.inside))
          (omega (arith, is.fits, is.bounded)) in
      rw first (
        sub64-exact (w.context.pfns_num - p.start_pfn) steps (omega (arith, g.inside))
          (omega (arith, is.fits, is.bounded)))

  abbrev Closed : Type 0
  Closed =
      (zs : List ℕ) × (move_cells w.context.pfns_storage (p.start_pfn + p.requested)
          (p.start_pfn + p.requested + steps)
          (w.context.pfns_num - (p.start_pfn + p.requested + steps))
        ≡ some zs)
      × (length zs ≡ length w.context.pfns_storage)
      × (take (w.context.pfns_num - steps) zs
          ≡ take (p.start_pfn + p.requested) (live w.context)
            ++ drop (p.start_pfn + p.requested + steps) (live w.context))

  -- The frames that are given back.
  abbrev freed : List ℕ
  freed = take steps (drop (p.start_pfn + p.requested) w.context.pfns_storage)

  spare_lem :
      freed
      ≡ spare obliging.mmu first_page
          (live w.context)
          w.os
          g.mapped
          (p.start_pfn + p.requested)
          (p.start_pfn + p.pages)
          (omega (arith, g.less))
          (within obliging first_page p w is g)
  spare_lem =
      let below : steps ≤ w.context.pfns_num - (p.start_pfn + p.requested) =
        omega (arith, g.inside, g.less) in
      let count : p.start_pfn + p.pages - (p.start_pfn + p.requested) ≡ steps =
        omega (arith, g.less) in
      sym (
        take-take steps (w.context.pfns_num - (p.start_pfn + p.requested))
          (drop (p.start_pfn + p.requested) w.context.pfns_storage) below)
      ∙ ap (take steps) (
          sym (
            drop-take (p.start_pfn + p.requested) (w.context.pfns_num - (p.start_pfn + p.requested))
              w.context.pfns_num w.context.pfns_storage (omega (arith, g.inside, g.less))))
      ∙ ap (λ (n : ℕ). take n (drop (p.start_pfn + p.requested) (live w.context))) (sym count)

  abbrev target : List ℕ
  target =
      take (p.start_pfn + p.requested) (live w.context)
      ++ drop (p.start_pfn + p.pages) (live w.context)

  -- Taken away and mapped again, the frames are those that are left.
  remap_lem :
      (zs : List ℕ) (n : ℕ)
      → take (w.context.pfns_num - steps) zs ≡ target
      → IsMapped obliging.mmu first_page target
          (o.map_frames p.mapping
            (take (w.context.pfns_num - p.start_pfn - steps) (drop p.start_pfn zs))
            (o.unmap_pages p.mapping n (o.free_frames freed w.os).2).1).1
  remap_lem zs n fin = rw spare_lem (
      IsMapped-closed obliging.mmu first_page (live w.context) w.os g.mapped
        (p.start_pfn + p.requested) (p.start_pfn + p.pages) (omega (arith, g.less))
        (within obliging first_page p w is g) p.start_pfn p.mapping _ _ g.placed
        (some_byte obliging first_page p w is g)
        (Lower-unmap obliging.mmu first_page p.start_pfn target p.mapping g.placed
          (some_byte obliging first_page p w is g) n _ (obliging.unmapped p.mapping n _)
          (closed-Lower obliging.mmu first_page (live w.context) w.os g.mapped
            (p.start_pfn + p.requested) (p.start_pfn + p.pages) (omega (arith, g.less))
            (within obliging first_page p w is g) p.start_pfn (omega arith)))
        (λ f owned. obliging.mmu.unmap_owns p.mapping n _ f owned)
        (obliging.willing.mapped p.mapping _ _)
        (sym (
            drop-take p.start_pfn (w.context.pfns_num - p.start_pfn - steps)
              (w.context.pfns_num - steps) zs (omega (arith, g.inside, g.less)))
          ∙ ap (drop p.start_pfn) fin))

  inner :
      (v : Scene o)
      → v ≡ copied
      → Closed
      → Returns (λ _ w'. Shrunk obliging first_page p w w') (give_back p v)
  unfolding give_back commit
  inner v c (zs, moved, lz, fin) =
      let size : length freed ≡ steps = omega (
        arith,
        g.inside,
        is.fits,
        is.cells,
        length-take steps (drop (p.start_pfn + p.requested) w.context.pfns_storage),
        length-drop (p.start_pfn + p.requested) w.context.pfns_storage,
      ) in
      let counts : ((o.free_frames freed w.os).1 == steps) ≡ true =
        ground (arith, size, obliging.returned freed w.os) in
      let given =
        slice-some w.context.pfns_storage (p.start_pfn + p.requested) steps
          (omega (arith, g.inside, g.less, is.fits, is.cells)) in
      let moved_all : move_cells w.context.pfns_storage (p.start_pfn + p.requested)
            (p.start_pfn + p.pages) (w.context.pfns_num - (p.start_pfn + p.pages))
          ≡ some zs =
        rw source_lem moved in
      let left : take (w.context.pfns_num - steps) zs ≡ target = rw source_lem fin in
      let on = remap_lem zs (sub64 w.context.pfns_num p.start_pfn) left in
      let kept =
        slice-some zs p.start_pfn (w.context.pfns_num - p.start_pfn - steps)
          (omega (arith, g.inside, g.less, is.fits, is.cells)) in
      rw c (
        rw (behind_lem, moved_all)
          (rw given (
            rw (obliging.freed freed w.os) (
              rw counts (
                rw (obliging.unmapped p.mapping _ _) (
                  rw (remapped, kept)
                    (rw (obliging.willing.mapped p.mapping _ _) (
                      returns (record {
                        spliced = rw next_num left;
                        num = next_num;
                        stored = record {
                          cells = lz ∙ is.cells;
                          fits = omega (arith, next_num, is.fits);
                          some_cell = is.some_cell;
                          bounded = is.bounded;
                        };
                        containers_num = refl;
                        containers_max = refl;
                        size = refl;
                        containers = refl;
                        pointers = refl;
                        mapped = rw (next_num, left) on;
                        memory = refl;
                      })))))))))

  -- With an operating system that takes back what it is given and page tables as Windows documents
  -- them, for a plan that takes pages from a container whose frames are counted, the frames mapped
  -- at the pages from the first one on, the guest at the end of the container's last page and
  -- addresses below 2 ^ 64, with the user's pointer variables outside the managed pages, as Scene
  -- has them, the branch of ContainerRealloc that gives pages back ends: the frames beyond the
  -- planned ones are no longer counted, those before and behind them stay in order, all are mapped
  -- at their pages, the guest's bytes are copied from the end of the container's last frame to the
  -- end of the last one that it keeps and no other byte of memory changes, the container has its
  -- new element count, and the pointers behind it have moved by the pages.
  pub shrink-Shrunk : Returns (λ _ w'. Shrunk obliging first_page p w w') (shrink p w)
  unfolding shrink
  shrink-Shrunk = bind guest_lem λ _ v c. inner v c (
      closed w.context.pfns_storage (p.start_pfn + p.requested) steps w.context.pfns_num
        (omega (arith, g.inside, g.less)) (omega (arith, is.fits, is.cells)))
