-- ===== src/Realloc/Outcome.antt =====
-- What the branches of ContainerRealloc leave, on a well-formed hyper-container.
use vcmalloc_bench.Base.{
  ℕ, ◌+◌, ◌-◌, ◌*◌, ◌^◌, ◌≤◌, ◌≡◌, refl, ap, ◌∙◌, arith, true, false, List, ◌∷◌, ◌++◌,
  length-append, length-take, take, drop, take-take, take-append_left, drop-append,
}
use vcmalloc_bench.Machine.Os.{Os}
use vcmalloc_bench.Container.{ContainerContext}
use vcmalloc_bench.Container.Layout.{multiple-le}
use vcmalloc_bench.Context.{Scene}
use vcmalloc_bench.Context.Storage.{start_of}
use vcmalloc_bench.Context.Room.{live}
use vcmalloc_bench.Context.Consistent.{IsConsistent, IsFresh}
use vcmalloc_bench.Realloc.{Plan}
use vcmalloc_bench.Realloc.Moves.{IsObliging}
use vcmalloc_bench.Realloc.Growth.{Grown, IsGrowth}
use vcmalloc_bench.Realloc.Reduction.{Shrunk, IsReduction}
use vcmalloc_bench.Realloc.Request.{IsResizable, count, typed, capacity, bytes_then, bytes_now}
use vcmalloc_bench.Realloc.Preserved.{storage_lem, pointer_kept, elsewhere_kept, preserved}
use vcmalloc_bench.Realloc.Shifts.{p, inside, size_live, grow_move, shrink_move}
use vcmalloc_bench.Realloc.Placed.{first_page}
use vcmalloc_bench.Realloc.Repaged.{Grown-IsRepaged, Shrunk-IsRepaged}
use vcmalloc_bench.Realloc.Bytes.{Kept, Moved, Kept-lem, Moved-lem}
use vcmalloc_bench.Machine.Mmu.{IsMapped}

module _ {o : Os} (obliging : IsObliging o) (base new_size : ℕ) (w : Scene o)
    (pre : List ContainerContext) (c : ContainerContext) (post : List ContainerContext)
    (is : IsConsistent o.page_shift w.vars base w.context)
    (r : IsResizable base new_size w pre c post) where
  abbrev plan_here : Plan
  plan_here = p base new_size w pre c post is r

  abbrev n : ℕ
  n = count base new_size w pre c post

  abbrev pub page : ℕ
  page = first_page base new_size w pre c post is r

  -- The state after the call: the container has room for the new size, at the address where it
  -- was; the containers around it have their sizes; the hyper-container is well formed; the frames
  -- before
  -- the container and behind it are those from before, in order, and mapped at their pages; and the
  -- bytes of the containers are where the containers are.
  pub record Resized (w' : Scene o) : Type 0 where
    pub num : ℕ
    pub enough : new_size ≤ num
    pub storage :
        w'.context.containercontext_storage ≡ pre ++ (record c { elements_num = num }) ∷ post
    pub consistent : IsConsistent o.page_shift w'.vars base w'.context
    pub pointer : start_of w'.vars c ≡ start_of w.vars c
    pub size : w'.context.hypercontainer_size ≡ w.context.hypercontainer_size
    pub elsewhere : (x : ℕ) → IsFresh x post → w'.vars x ≡ w.vars x
    pub before :
        take plan_here.start_pfn (live w'.context) ≡ take plan_here.start_pfn (live w.context)
    pub behind :
        drop (plan_here.start_pfn + plan_here.requested) (live w'.context)
        ≡ drop (plan_here.start_pfn + plan_here.pages) (live w.context)
    pub mapped : IsMapped obliging.mmu page (live w'.context) w'.os
    pub kept : Kept obliging.mmu base new_size w pre c post is r num w'
    pub moved : Moved obliging.mmu base new_size w pre c post is r num w'

  pub grown :
      (w' : Scene o)
      → IsGrowth obliging page plan_here w
      → Grown obliging page plan_here w w'
      → Resized w'
  grown w' growth g =
      let more = growth.more in
      let pages = Grown-IsRepaged obliging page plan_here w w' is.stored growth g in
      let m = grow_move base new_size w pre c post is r more in
      let enough = (capacity base new_size w pre c post is r).0 in
      let consistent =
        preserved base new_size w pre c post is r (plan_here.requested - plan_here.pages) true _ w'
          m g.containers g.pointers (omega (arith, g.num)) g.containers_num g.containers_max
          g.stored in
      let size = length-take (plan_here.start_pfn + plan_here.pages) (live w.context) in
      record {
        num = n;
        enough = enough;
        storage = g.containers ∙ storage_lem base new_size w pre c post is r;
        consistent = consistent;
        pointer =
            pointer_kept base new_size w pre c post is r (plan_here.requested - plan_here.pages)
              true _ w' m g.pointers;
        size = g.size;
        elsewhere = elsewhere_kept base new_size w pre c post is r _ w' g.pointers;
        before =
            ap (take plan_here.start_pfn) g.spliced
            ∙ take-append_left plan_here.start_pfn
                (take (plan_here.start_pfn + plan_here.pages) (live w.context) ++ g.frames) _
                (omega (
                  arith,
                  size,
                  size_live base new_size w pre c post is r,
                  inside base new_size w pre c post is r,
                  length-append (take (plan_here.start_pfn + plan_here.pages) (live w.context))
                      g.frames,
                ))
            ∙ take-append_left plan_here.start_pfn
                (take (plan_here.start_pfn + plan_here.pages) (live w.context)) _
                (omega (
                  arith,
                  size,
                  size_live base new_size w pre c post is r,
                  inside base new_size w pre c post is r,
                ))
            ∙ take-take plan_here.start_pfn (plan_here.start_pfn + plan_here.pages) (live w.context)
                (omega arith);
        behind =
            ap (drop (plan_here.start_pfn + plan_here.requested)) g.spliced
            ∙ drop-append (plan_here.start_pfn + plan_here.requested)
                (take (plan_here.start_pfn + plan_here.pages) (live w.context) ++ g.frames) _
                (omega (
                  arith,
                  size,
                  size_live base new_size w pre c post is r,
                  inside base new_size w pre c post is r,
                  g.asked,
                  length-append (take (plan_here.start_pfn + plan_here.pages) (live w.context))
                      g.frames,
                ));
        mapped = g.mapped;
        kept =
            Kept-lem obliging.mmu base new_size w pre c post is r w' (live w'.context) _ _ pages
              g.memory;
        moved =
            Moved-lem obliging.mmu base new_size w pre c post is r w' (live w'.context) _ _ pages
              g.memory;
      }

  pub shrunk :
      (w' : Scene o)
      → IsReduction obliging page plan_here w
      → Shrunk obliging page plan_here w w'
      → Resized w'
  shrunk w' reduction g =
      let less = reduction.less in
      let pages = Shrunk-IsRepaged obliging page plan_here w w' is.stored reduction g in
      let m = shrink_move base new_size w pre c post is r less in
      let size = length-take (plan_here.start_pfn + plan_here.requested) (live w.context) in
      record {
        num = n;
        enough = (capacity base new_size w pre c post is r).0;
        storage = g.containers ∙ storage_lem base new_size w pre c post is r;
        consistent =
            preserved base new_size w pre c post is r (plan_here.pages - plan_here.requested) false
              _ w' m g.containers g.pointers
              (omega (arith, g.num, inside base new_size w pre c post is r)) g.containers_num
              g.containers_max g.stored;
        pointer =
            pointer_kept base new_size w pre c post is r (plan_here.pages - plan_here.requested)
              false _ w' m g.pointers;
        size = g.size;
        elsewhere = elsewhere_kept base new_size w pre c post is r _ w' g.pointers;
        before =
            ap (take plan_here.start_pfn) g.spliced
            ∙ take-append_left plan_here.start_pfn
                (take (plan_here.start_pfn + plan_here.requested) (live w.context)) _
                (omega (
                  arith,
                  size,
                  size_live base new_size w pre c post is r,
                  inside base new_size w pre c post is r,
                ))
            ∙ take-take plan_here.start_pfn (plan_here.start_pfn + plan_here.requested)
                (live w.context) (omega arith);
        behind =
            ap (drop (plan_here.start_pfn + plan_here.requested)) g.spliced
            ∙ drop-append (plan_here.start_pfn + plan_here.requested)
                (take (plan_here.start_pfn + plan_here.requested) (live w.context)) _
                (omega (
                  arith,
                  size,
                  size_live base new_size w pre c post is r,
                  inside base new_size w pre c post is r,
                ));
        mapped = g.mapped;
        kept =
            Kept-lem obliging.mmu base new_size w pre c post is r w' (live w'.context) _ _ pages
              g.memory;
        moved =
            Moved-lem obliging.mmu base new_size w pre c post is r w' (live w'.context) _ _ pages
              g.memory;
      }

  -- With as many pages as before nothing changes.
  pub settled :
      IsMapped obliging.mmu page (live w.context) w.os
      → plan_here.requested ≡ plan_here.pages
      → Resized w
  settled mapped e =
      let then_ = bytes_then base new_size w pre c post is r in
      let now = bytes_now base new_size w pre c post is r in
      record {
        num = c.elements_num;
        enough =
            let same = multiple-le n c.elements_num c.type_size (
              omega (
                arith,
                then_,
                now,
                typed base new_size w pre c post is r,
                ap (λ (q : ℕ). q * 2 ^ o.page_shift) e,
              )) in
            omega (arith, (capacity base new_size w pre c post is r).0);
        storage = r.split;
        consistent = is;
        pointer = refl;
        size = refl;
        elsewhere = λ x fresh. refl;
        before = refl;
        behind = ap (λ (q : ℕ). drop (plan_here.start_pfn + q) (live w.context)) e;
        mapped = mapped;
        kept = λ a above below below'. refl;
        moved = λ i below. refl;
      }
