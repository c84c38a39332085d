-- ===== src/Realloc/Refused.antt =====
-- ContainerRealloc where the operating system has no more frames.
use vcmalloc_bench.Base.{
  ℕ, ◌+◌, ◌-◌, ◌/◌, ◌^◌, ◌≤◌, ◌<◌, ◌≡◌, ap, ◌∙◌, subst, arith, true, false, List, ltb, get_elem?,
  if◌then◌else◌, sign64, sub64, sub64-exact,
}
use vcmalloc_bench.Machine.Os.{Os}
use vcmalloc_bench.Machine.Mmu.{IsMmu, IsMapped}
use vcmalloc_bench.Machine.Remap.{heap_lem, IsMapped-kept}
use vcmalloc_bench.Machine.Run.{extra_frames_failed}
use vcmalloc_bench.Container.{ContainerContext}
use vcmalloc_bench.Context.{Scene}
use vcmalloc_bench.Context.Gap.{shifted_cells}
use vcmalloc_bench.Context.Room.{live, IsStored, HasRoom, assert_pfns_storage-HasRoom}
use vcmalloc_bench.Context.Consistent.{IsConsistent, Chain}
use vcmalloc_bench.Alloc.Refused.{Throws, throws, bind-Throws, IsExhausted}
use vcmalloc_bench.Realloc.{Plan, grow, take_in, carry_out, container_realloc}
use vcmalloc_bench.Realloc.Found.{find_container-found}
use vcmalloc_bench.Realloc.Request.{IsResizable, plan}
use vcmalloc_bench.Realloc.Shifts.{found_at, inside}

module _ {o : Os} (mmu : IsMmu o) (page : ℕ) (p : Plan) (w : Scene o) where
  abbrev steps : ℕ
  steps = p.requested - p.pages

  abbrev behind : ℕ
  behind = p.start_pfn + p.pages

  -- The state in which the call leaves the hyper-container: the frames behind the container are
  -- moved up in the array by the frames that are missing, as far as the count goes, and stay mapped
  -- where they were; nothing else has changed.
  pub record Shifted (w' : Scene o) : Type 0 where
    pub num : w'.context.pfns_num ≡ w.context.pfns_num
    pub shifted :
        (j : ℕ)
        → j < w.context.pfns_num
        → get_elem? (live w'.context) j ≡ (
            if ltb j (behind + steps)
            then get_elem? (live w.context) j
            else get_elem? (live w.context) (j - steps))
    pub mapped : IsMapped mmu page (live w.context) w'.os
    pub containers : w'.context.containercontext_storage ≡ w.context.containercontext_storage
    pub vars : w'.vars ≡ w.vars
    pub memory : w'.memory ≡ w.memory

  module _ (is : IsStored w.context) (more : p.pages < p.requested)
      (within : behind ≤ w.context.pfns_num) (few : w.context.pfns_num + steps ≤ sign64)
      (backing : IsMapped mmu page (live w.context) w.os) (exhausted : IsExhausted o) where
    behind_lem :
        (num : ℕ) → num ≡ w.context.pfns_num → sub64 (sub64 num p.start_pfn) p.pages ≡ num - behind
    behind_lem num e =
        rw (sub64-exact num p.start_pfn (omega arith) (omega arith))
          (rw (sub64-exact (num - p.start_pfn) p.pages (omega arith) (omega arith)) (omega arith))

    refused : (v : Scene o) → HasRoom steps w v → Throws extra_frames_failed Shifted (take_in p v)
    unfolding take_in
    refused v room =
        let (zs, moved, cells) =
          shifted_cells v.context.pfns_storage behind steps v.context.pfns_num
            (omega (arith, room.num)) (omega (arith, room.num, room.room, room.stored.cells)) in
        let target : p.start_pfn + p.requested ≡ behind + steps = omega arith in
        rw (behind_lem v.context.pfns_num room.num, target, moved)
          (rw (exhausted.refused steps v.os) (
            throws (record {
              num = room.num;
              shifted = λ j lt.
                  cells j (omega (arith, room.num))
                  ∙ ap
                      (λ (l : List ℕ).
                        if ltb j (behind + steps) then get_elem? l j else get_elem? l (j - steps))
                      room.kept;
              mapped =
                  IsMapped-kept mmu page (live w.context) v.os (o.allocate_frames steps v.os).2
                    (λ q f e. mmu.allocate_kept steps v.os q ∙ e) (mmu.allocate_owns steps v.os)
                    (heap_lem mmu page (live w.context) w.os v.os room.machine backing);
              containers = room.containers;
              vars = room.vars;
              memory = room.memory;
            })))

    grow-Shifted : Throws extra_frames_failed Shifted (grow p w)
    unfolding grow
    grow-Shifted =
        bind-Throws (assert_pfns_storage-HasRoom steps w is exhausted.heap few)
          λ _ v room. refused v room

module _ {o : Os} (mmu : IsMmu o) (base new_size : ℕ) (w : Scene o) (pre : List ContainerContext)
    (c : ContainerContext) (post : List ContainerContext)
    (is : IsConsistent o.page_shift w.vars base w.context)
    (r : IsResizable base new_size w pre c post) where
  abbrev p : Plan
  p = plan base new_size w pre c post

  -- Under the conditions of ContainerRealloc, for a new size that needs more pages, with an
  -- operating system that has memory for the arrays but no frames, ContainerRealloc throws, and
  -- leaves the array of frames shifted: below the count, the cells up to the end of the gap hold
  -- what they held and those behind it hold what stood as many cells before as frames are missing,
  -- while the pages are still mapped to the frames from before in their order, and the count, the
  -- containers, the pointers and the memory are those from before.
  pub container_realloc-Shifted :
      p.pages < p.requested
      → IsMapped mmu (base / 2 ^ o.page_shift) (live w.context) w.os
      → IsExhausted o
      → Throws extra_frames_failed
          (λ w'. Shifted mmu (base / 2 ^ o.page_shift) p w w')
          (container_realloc c.reference c.type_size new_size w)
  unfolding container_realloc carry_out
  container_realloc-Shifted more backing exhausted =
      let hit = find_container-found w base pre c post r.split is.counted.counted (record {
        chain =
            subst (λ (cs : List ContainerContext). Chain o.page_shift w.vars base cs) r.split
              is.chain;
        filled = r.filled;
        low = omega (arith, r.high);
        few = r.few;
      }) in
      let not_less : ltb p.requested p.pages ≡ false = ground arith in
      let greater : ltb p.pages p.requested ≡ true = ground arith in
      rw hit (
        rw (found_at base new_size w pre c post is r) (
          rw not_less (
            rw greater (
              grow-Shifted mmu (base / 2 ^ o.page_shift) p w is.stored more
                (inside base new_size w pre c post is r) (omega (arith, r.frames)) backing
                exhausted))))
