-- ===== src/Realloc/Grow.antt =====
-- The branch of ContainerRealloc that adds pages.
use vcmalloc_bench.Base.{
  ℕ, ◌+◌, ◌-◌, ◌^◌, sym, get_or, drop-take, length-take, length-drop, length-append, ◌≡◌, ap, ◌∙◌,
  refl, arith, true, false, some, inl, inr, Bool-cases, List, ◌++◌, length, take, drop, ◌==◌, add64,
  mul64, sub64,
}
use vcmalloc_bench.Machine.Os.{Os}
use vcmalloc_bench.Machine.Returns.{Returns, returns, bind}
use vcmalloc_bench.Context.{Scene, move_cells, write_at}
use vcmalloc_bench.Context.Gap.{slice-some, opened}
use vcmalloc_bench.Context.Room.{live, IsStored, HasRoom, assert_pfns_storage-HasRoom}
use vcmalloc_bench.Realloc.{Plan, copy_guest, grow, take_in, commit}
use vcmalloc_bench.Realloc.Moves.{IsObliging, guest_memory, Ends, Lower-Ends, copy_guest_lem}
use vcmalloc_bench.Machine.Mmu.{IsMapped}
use vcmalloc_bench.Machine.Remap.{Lower, Lower-unmap, heap_lem}
use vcmalloc_bench.Machine.Frames.{
  opened_frames, opened_front, opened-Lower, fresh, IsMapped-opened,
}
use vcmalloc_bench.Realloc.Growth.{
  Grown, IsGrowth, some_byte, within, lands_at, pages_lem, behind_lem, target_lem, next_num,
  remapped, fit,
}

module _ {o : Os} (obliging : IsObliging o) (first_page : ℕ) (p : Plan) (w : Scene o)
    (is : IsStored w.context) (g : IsGrowth obliging first_page p w) where
  abbrev steps : ℕ
  steps = p.requested - p.pages

  abbrev bytes : ℕ
  bytes = mul64 steps (2 ^ o.page_shift)

  abbrev granted : o.State → List ℕ
  granted s = (o.allocate_frames steps s).1

  abbrev Opened : Scene o → Type 0
  Opened v =
      (zs : List ℕ) × (move_cells v.context.pfns_storage (p.start_pfn + p.pages + steps)
          (p.start_pfn + p.pages) (v.context.pfns_num - (p.start_pfn + p.pages))
        ≡ some zs)
      × (length zs ≡ length v.context.pfns_storage)
      × (us : List ℕ) × (write_at zs (p.start_pfn + p.pages) (granted v.os) ≡ some us)
      × (length us ≡ length v.context.pfns_storage)
      × (take (v.context.pfns_num + steps) us
          ≡ take (p.start_pfn + p.pages) (live v.context)
            ++ granted v.os
            ++ drop (p.start_pfn + p.pages) (live v.context))

  module _ (v : Scene o) (room : HasRoom steps w v) where
    backing_lem : IsMapped obliging.mmu first_page (live w.context) v.os
    backing_lem = heap_lem obliging.mmu first_page (live w.context) w.os v.os room.machine g.mapped

    abbrev target : List ℕ
    target =
        opened_frames obliging.mmu first_page (live w.context) v.os backing_lem
          (p.start_pfn + p.pages) steps (within obliging first_page p w is g)

    -- Mapped again, the frames are those of the new list.
    remap_lem :
        (us : List ℕ) (t : o.State)
        → take (v.context.pfns_num + steps) us ≡ target
        → Lower obliging.mmu first_page p.start_pfn target t
        → ((f : ℕ)
            → obliging.mmu.owned (o.allocate_frames steps v.os).2 f ≡ true
            → obliging.mmu.owned t f ≡ true)
        → IsMapped obliging.mmu first_page target
            (o.map_frames p.mapping
              (take (v.context.pfns_num - p.start_pfn + steps) (drop p.start_pfn us))
              t).1
    remap_lem us t fin lower owns =
        IsMapped-opened obliging.mmu first_page (live w.context) v.os backing_lem
          (p.start_pfn + p.pages) steps (within obliging first_page p w is g) p.start_pfn p.mapping
          _ t g.placed (some_byte obliging first_page p w is g) lower owns
          (obliging.willing.mapped p.mapping _ t)
          (sym (
              drop-take p.start_pfn (v.context.pfns_num - p.start_pfn + steps)
                (v.context.pfns_num + steps) us (omega (arith, g.inside, room.num)))
            ∙ ap (drop p.start_pfn) fin)

    -- The guest's bytes before and after, at the ends of two pages.
    target_size : length target ≡ length (live w.context) + steps
    target_size =
        let size = length-take (p.start_pfn + p.pages) (live w.context) in
        let both = length-append (take (p.start_pfn + p.pages) (live w.context)) (granted v.os) in
        let all =
          length-append (take (p.start_pfn + p.pages) (live w.context) ++ granted v.os)
            (drop (p.start_pfn + p.pages) (live w.context)) in
        let rest = length-drop (p.start_pfn + p.pages) (live w.context) in
        omega (
          arith,
          size,
          both,
          all,
          rest,
          (within obliging first_page p w is g),
          obliging.willing.complete steps v.os,
        )

    module _ (t : o.State) (on : IsMapped obliging.mmu first_page target t) where
      to_end :
          Ends o p.guest
            (add64 p.next bytes)
            (first_page + (p.start_pfn + p.requested - 1))
            (get_or target (p.start_pfn + p.requested - 1) 0)
            t
      to_end =
          Lower-Ends obliging.mmu first_page (p.start_pfn + p.requested) target t
            (add64 p.next bytes) p.guest (λ i f lt e. on.pages i f e)
            (omega (arith, target_size, (within obliging first_page p w is g), g.more))
            (omega (
              arith,
              (lands_at obliging first_page p w is g),
              g.guest_at,
              (pages_lem obliging first_page p w is g),
            ))
            (omega (arith, (lands_at obliging first_page p w is g), g.above))

      from_end :
          Ends o p.guest p.next
            (first_page + (p.start_pfn + p.pages - 1))
            (get_or (live w.context) (p.start_pfn + p.pages - 1) 0)
            t
      from_end =
          Lower-Ends obliging.mmu first_page (p.start_pfn + p.pages) (live w.context) t p.next
            p.guest
            (λ i f lt e. on.pages i f (
              opened_front obliging.mmu first_page (live w.context) v.os backing_lem
                (p.start_pfn + p.pages) steps (within obliging first_page p w is g) i lt
              ∙ e))
            (within obliging first_page p w is g) g.guest_at g.above

      -- The state before the guest's bytes are copied, and behind it.
      abbrev laid : List ℕ → Scene o
      laid us = record v { os = t; context = record v.context { pfns_storage = us } }

      abbrev copied : List ℕ → Scene o
      copied us = record (laid us) {
        memory =
            guest_memory o v.memory (get_or target (p.start_pfn + p.requested - 1) 0)
              (get_or (live w.context) (p.start_pfn + p.pages - 1) 0) p.guest;
      }

      guest_lem :
          (us : List ℕ)
          → Returns
              (λ _ u. u ≡ copied us)
              (copy_guest (add64 p.next bytes) p.next p.guest (laid us))
      guest_lem us =
          let lands : (add64 p.next bytes == 0) ≡ false =
            ground (arith, (lands_at obliging first_page p w is g), g.some_address) in
          rw
            (copy_guest_lem (add64 p.next bytes) p.next p.guest (laid us) _ _ _ _
              (omega (arith, g.small)) to_end from_end lands)
            (returns refl)

      finish :
          (us : List ℕ)
          → length us ≡ length v.context.pfns_storage
          → take (v.context.pfns_num + steps) us ≡ target
          → (u : Scene o) → u ≡ copied us
          → Returns
              (λ _ w'. Grown obliging first_page p w w')
              (commit p (λ a. add64 a bytes) (add64 v.context.pfns_num steps) u)
      unfolding commit
      finish us lu fin u same =
          let spliced : take (add64 v.context.pfns_num steps) us ≡ target =
            rw (next_num obliging first_page p w is g v room) fin in
          rw same (
            returns (record {
              frames = granted v.os;
              asked = obliging.willing.complete steps v.os;
              spliced = spliced;
              num = omega (arith, (next_num obliging first_page p w is g v room), room.num);
              stored = record {
                cells = lu ∙ room.stored.cells;
                fits =
                    omega
                      (arith, (next_num obliging first_page p w is g v room), room.num, room.room);
                some_cell = room.stored.some_cell;
                bounded = room.stored.bounded;
              };
              containers_num = room.containers_num;
              containers_max = room.containers_max;
              size = room.size;
              containers = rw room.containers;
              pointers = rw (room.containers, room.vars);
              mapped = rw spliced on;
              fresh =
                  fresh obliging.mmu first_page (live w.context) v.os backing_lem
                    (p.start_pfn + p.pages) steps (within obliging first_page p w is g);
              memory = rw (spliced, room.memory) refl;
            }))

  inner :
      (v : Scene o)
      → HasRoom steps w v
      → Opened v
      → Returns (λ _ w'. Grown obliging first_page p w w') (take_in p v)
  unfolding take_in
  inner v room (zs, moved, lz, us, wrote, lu, fin) =
      let counts : (length (granted v.os) == steps) ≡ true =
        ground (arith, obliging.willing.complete steps v.os) in
      let now : take (v.context.pfns_num + steps) us ≡ target v room =
        fin
        ∙ ap
            (λ (l : List ℕ).
              take (p.start_pfn + p.pages) l ++ granted v.os ++ drop (p.start_pfn + p.pages) l)
            room.kept in
      let lower =
        opened-Lower obliging.mmu first_page (live w.context) v.os (backing_lem v room)
          (p.start_pfn + p.pages) steps (within obliging first_page p w is g) p.start_pfn
          (omega arith) in
      rw
        (
          (behind_lem obliging first_page p w is g v room),
          (target_lem obliging first_page p w is g v room),
          moved,
        )
        (rw (obliging.willing.granted steps v.os) (
          rw wrote (
            rw counts (elim (Bool-cases (v.context.pfns_num == p.start_pfn)) [
              | inl idle ↦
                  let on = remap_lem v room us _ now lower (λ f owned. owned) in
                  rw idle (
                    rw
                      (
                        (remapped obliging first_page p w is g v room),
                        slice-some us p.start_pfn _
                            ((fit obliging first_page p w is g v room) us lu),
                      )
                      (rw (obliging.willing.mapped p.mapping _ _) (
                        bind (guest_lem v room _ on us)
                          λ _ u same. finish v room _ on us lu now u same)))
              | inr busy ↦
                  let gone =
                    obliging.unmapped p.mapping (sub64 v.context.pfns_num p.start_pfn)
                      (o.allocate_frames steps v.os).2 in
                  let on =
                    remap_lem v room us _ now
                      (Lower-unmap obliging.mmu first_page p.start_pfn (target v room) p.mapping
                        g.placed (some_byte obliging first_page p w is g) _ _ gone lower)
                      (λ f owned. obliging.mmu.unmap_owns p.mapping _ _ f owned) in
                  rw busy (
                    rw gone (
                      rw
                        (
                          (remapped obliging first_page p w is g v room),
                          slice-some us p.start_pfn _
                              ((fit obliging first_page p w is g v room) us lu),
                        )
                        (rw (obliging.willing.mapped p.mapping _ _) (
                          bind (guest_lem v room _ on us)
                            λ _ u same. finish v room _ on us lu now u same))))
            ]))))

  -- With an operating system that grants what it is asked for and page tables as Windows documents
  -- them, for a plan that adds pages to a container whose frames are counted, the frames mapped at
  -- the pages from the first one on, the guest at the end of the container's last page, and at most
  -- 2 ^ 63 frames and addresses below 2 ^ 64 in the end, with the user's pointer variables outside
  -- the managed pages, as Scene has them, the branch of ContainerRealloc that adds pages ends: the
  -- new frames, none of them one from before, stand between those up to the container's last and
  -- those behind, they are counted, all are mapped at their pages, the guest's bytes are copied
  -- from the end of the container's last frame to the end of its new last one and no other byte of
  -- memory changes, the container has its new element count, and the pointers behind it have moved
  -- by the new pages.
  pub grow-Grown : Returns (λ _ w'. Grown obliging first_page p w w') (grow p w)
  unfolding grow
  grow-Grown = bind (assert_pfns_storage-HasRoom steps w is obliging.willing.heap g.few) λ _ v room.
      inner v room (
        opened v.context.pfns_storage (p.start_pfn + p.pages) steps v.context.pfns_num
          (granted v.os) (omega (arith, g.inside, room.num))
          (omega (arith, room.num, room.room, room.stored.cells))
          (obliging.willing.complete steps v.os))
