-- ===== src/Realloc/Correct.antt =====
-- ContainerRealloc as a whole, on a well-formed hyper-container.
use vcmalloc_bench.Base.{ℕ, ◌<◌, ◌≡◌, subst, arith, List, inl, inr, Bool-cases, ltb}
use vcmalloc_bench.Machine.Os.{Os}
use vcmalloc_bench.Machine.Returns.{Returns, returns, mono}
use vcmalloc_bench.Container.{ContainerContext}
use vcmalloc_bench.Context.{Scene}
use vcmalloc_bench.Context.Consistent.{IsConsistent, Chain}
use vcmalloc_bench.Realloc.{Plan, carry_out, container_realloc}
use vcmalloc_bench.Realloc.Moves.{IsObliging}
use vcmalloc_bench.Realloc.Growth.{IsGrowth}
use vcmalloc_bench.Realloc.Grow.{grow-Grown}
use vcmalloc_bench.Realloc.Reduction.{IsReduction}
use vcmalloc_bench.Realloc.Shrink.{shrink-Shrunk}
use vcmalloc_bench.Realloc.Found.{find_container-found}
use vcmalloc_bench.Realloc.Request.{IsResizable}
use vcmalloc_bench.Machine.Mmu.{IsMapped}
use vcmalloc_bench.Context.Room.{live}
use vcmalloc_bench.Realloc.Shifts.{p, found_at, inside}
use vcmalloc_bench.Realloc.Outcome.{Resized, grown, shrunk, settled}
use vcmalloc_bench.Realloc.Placed.{
  first_page, placed, guest_at, small, above, below_above, high_up, high_now, positive,
}

module _ {o : Os} (obliging : IsObliging o) (base new_size : ℕ) (w : Scene o)
    (pre : List ContainerContext) (c : ContainerContext) (post : List ContainerContext)
    (is : IsConsistent o.page_shift w.vars base w.context)
    (r : IsResizable base new_size w pre c post) where
  abbrev plan_here : Plan
  plan_here = p base new_size w pre c post is r

  abbrev page : ℕ
  page = first_page base new_size w pre c post is r

  abbrev Backed : Type 0
  Backed = IsMapped obliging.mmu page (live w.context) w.os

  growth : Backed → plan_here.pages < plan_here.requested → IsGrowth obliging page plan_here w
  growth mapped more = record {
    more = more;
    inside = inside base new_size w pre c post is r;
    few = omega (arith, r.frames);
    mapped = mapped;
    placed = placed base new_size w pre c post is r;
    guest_at = guest_at base new_size w pre c post is r;
    above = above base new_size w pre c post is r;
    small = small base new_size w pre c post is r;
    high = high_up base new_size w pre c post is r more;
    some_address =
        omega
          (arith, above base new_size w pre c post is r, positive base new_size w pre c post is r);
  }

  reduction : Backed → plan_here.requested < plan_here.pages → IsReduction obliging page plan_here w
  reduction mapped less = record {
    less = less;
    inside = inside base new_size w pre c post is r;
    mapped = mapped;
    placed = placed base new_size w pre c post is r;
    guest_at = guest_at base new_size w pre c post is r;
    above = below_above base new_size w pre c post is r less;
    small = small base new_size w pre c post is r;
    high = high_now base new_size w pre c post is r;
    some_address = omega (
      arith,
      below_above base new_size w pre c post is r less,
      positive base new_size w pre c post is r,
    );
  }

  carried :
      Backed
      → Returns
          (λ _ w'. Resized obliging base new_size w pre c post is r w')
          (carry_out plan_here w)
  unfolding carry_out
  carried mapped = elim (Bool-cases (ltb plan_here.requested plan_here.pages)) [
    | inl less ↦
        let lt : plan_here.requested < plan_here.pages = ground arith in
        rw less (
          mono (shrink-Shrunk obliging page plan_here w is.stored (reduction mapped lt))
            λ _ w' g. shrunk obliging base new_size w pre c post is r w' (reduction mapped lt) g)
    | inr not_less ↦ elim (Bool-cases (ltb plan_here.pages plan_here.requested)) [
      | inl more ↦
          let lt : plan_here.pages < plan_here.requested = ground arith in
          rw not_less (
            rw more (
              mono (grow-Grown obliging page plan_here w is.stored (growth mapped lt))
                λ _ w' g. grown obliging base new_size w pre c post is r w' (growth mapped lt) g))
      | inr not_more ↦
          let same : plan_here.requested ≡ plan_here.pages = ground arith in
          rw not_less
            (rw not_more (returns (settled obliging base new_size w pre c post is r mapped same)))
    ]
  ]

  -- On a well-formed hyper-container of containers that are not empty and do not share a pointer
  -- variable, whose frames are different, allocated to the process and mapped in order at its
  -- pages, on a machine that grants what it is asked for and takes back what it is given, with page
  -- tables as Windows documents them, for a container whose element size divides the page size and
  -- sizes within the bounds of the arithmetic, with the user's pointer variables outside the
  -- managed pages, as Scene has them, ContainerRealloc ends: the container holds at least the new
  -- size, at the address where it was, the other containers keep their sizes, every byte up to the
  -- shorter of the container's ends is where it was, every byte of the containers behind it has
  -- moved with the container's end, the frames before the container and behind it are those from
  -- before in order, all frames are mapped at their pages, no pointer variable is assigned but
  -- those of the containers behind, and the hyper-container is well formed.
  pub container_realloc-Resized :
      IsMapped obliging.mmu page (live w.context) w.os
      → Returns
          (λ _ w'. Resized obliging base new_size w pre c post is r w')
          (container_realloc c.reference c.type_size new_size w)
  unfolding container_realloc
  container_realloc-Resized mapped =
      let hit = find_container-found w base pre c post r.split is.counted.counted (record {
        chain =
            subst (λ (cs : List ContainerContext). Chain o.page_shift w.vars base cs) r.split
              is.chain;
        filled = r.filled;
        low = omega (arith, r.high);
        few = r.few;
      }) in
      rw hit (rw (found_at base new_size w pre c post is r) (carried mapped))
