-- ===== src/Realloc/Shifts.antt =====
-- How far the containers behind a resized one move, and the frames of the plan.
use vcmalloc_bench.Base.{
  ℕ, ◌+◌, ◌-◌, ◌*◌, ◌^◌, ◌≤◌, ◌<◌, ◌≡◌, ap, ◌∙◌, arith, true, false, List, ◌∷◌, ◌++◌, length,
  length-take, add64, add64-exact, sub64, sub64-exact, mul64, mul64-exact, some, get_elem?,
}
use vcmalloc_bench.Machine.Os.{Os}
use vcmalloc_bench.Container.{ContainerContext}
use vcmalloc_bench.Container.Layout.{Fits-Layout, multiple-gap}
use vcmalloc_bench.Context.{Scene}
use vcmalloc_bench.Context.Room.{live}
use vcmalloc_bench.Context.Consistent.{IsConsistent, chain_end}
use vcmalloc_bench.Realloc.{Plan}
use vcmalloc_bench.Realloc.Resized.{IsMove}
use vcmalloc_bench.Realloc.Inside.{plan_of-inside}
use vcmalloc_bench.Realloc.Request.{
  IsResizable, plan, count, fits, bytes_then, bytes_now, below, old, end_above,
}
use vcmalloc_bench.Realloc.Preserved.{get_elem?-at}

module _ {o : Os} (base new_size : ℕ) (w : Scene o) (pre : List ContainerContext)
    (c : ContainerContext) (post : List ContainerContext)
    (is : IsConsistent o.page_shift w.vars base w.context)
    (r : IsResizable base new_size w pre c post) where
  abbrev pub p : Plan
  p = plan base new_size w pre c post

  abbrev n : ℕ
  n = count base new_size w pre c post

  abbrev pub high_end : ℕ
  high_end = chain_end base (pre ++ c ∷ post)

  -- Up by the pages that are added.
  pub grow_move :
      p.pages < p.requested
      → IsMove o.page_shift
          (p.requested - p.pages)
          true
          w.vars
          (λ a. add64 a (mul64 (p.requested - p.pages) (2 ^ o.page_shift)))
          base
          pre
          c
          post
          n
  grow_move more =
      let gap = multiple-gap p.pages p.requested (2 ^ o.page_shift) (omega arith) in
      let moved = mul64-exact (p.requested - p.pages) (2 ^ o.page_shift) (omega (arith, r.high)) in
      let ends_at = below base new_size w pre c post is r in
      record {
        exact = λ a lo hi. rw moved (
            add64-exact a ((p.requested - p.pages) * 2 ^ o.page_shift)
              (omega (arith, r.high, ends_at)));
        fits = fits base new_size w pre c post is r;
        ends = omega (
          arith,
          gap,
          (old base new_size w pre c post is r).next,
          (Fits-Layout (fits base new_size w pre c post is r)).next,
          bytes_then base new_size w pre c post is r,
          bytes_now base new_size w pre c post is r,
        );
        high = omega (arith, r.high, ends_at, gap);
      }

  -- Down by the pages that are given back.
  pub shrink_move :
      p.requested < p.pages
      → IsMove o.page_shift
          (p.pages - p.requested)
          false
          w.vars
          (λ a. sub64 a (mul64 (p.pages - p.requested) (2 ^ o.page_shift)))
          base
          pre
          c
          post
          n
  shrink_move less =
      let gap = multiple-gap p.requested p.pages (2 ^ o.page_shift) (omega arith) in
      let ends_at = below base new_size w pre c post is r in
      let before = old base new_size w pre c post is r in
      let after = Fits-Layout (fits base new_size w pre c post is r) in
      let then_ = bytes_then base new_size w pre c post is r in
      let now = bytes_now base new_size w pre c post is r in
      let above = end_above base new_size w pre c post is r in
      let moved =
        mul64-exact (p.pages - p.requested) (2 ^ o.page_shift)
          (omega (arith, gap, then_, now, above, before.next, r.high)) in
      record {
        exact = λ a lo hi. rw moved (
            let whole =
              sub64-exact a ((p.pages - p.requested) * 2 ^ o.page_shift)
                (omega (arith, gap, then_, now, before.next)) (omega (arith, r.high, ends_at)) in
            omega (arith, whole, gap, then_, now, before.next));
        fits = fits base new_size w pre c post is r;
        ends = omega (arith, gap, before.next, after.next, then_, now);
        high = tt;
      }

  pub found_at : get_elem? w.context.containercontext_storage (length pre) ≡ some c
  found_at =
      ap (λ (cs : List ContainerContext). get_elem? cs (length pre)) r.split
      ∙ get_elem?-at pre c post

  pub inside : p.start_pfn + p.pages ≤ w.context.pfns_num
  inside =
      plan_of-inside o.page_shift w.vars base w.context (length pre) c c.type_size new_size is
        found_at

  pub size_live : length (live w.context) ≡ w.context.pfns_num
  size_live = omega (
    arith,
    length-take w.context.pfns_num w.context.pfns_storage,
    is.stored.cells,
    is.stored.fits,
  )
