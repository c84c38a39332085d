-- ===== src/Realloc/Preserved.antt =====
-- ContainerRealloc moves the containers behind by what the container has gained or lost, and the
-- hyper-container is well formed then.
use vcmalloc_bench.Base.{
  ℕ, suc, ◌+◌, ◌≡◌, refl, sym, ap, ◌∙◌, arith, Bool, List, [], ◌∷◌, ◌++◌, length, drop, some,
  get_elem?,
}
use vcmalloc_bench.Machine.Os.{Os}
use vcmalloc_bench.Container.{ContainerContext, nbr_of_pages}
use vcmalloc_bench.Context.{Scene}
use vcmalloc_bench.Context.Storage.{start_of}
use vcmalloc_bench.Context.Room.{IsStored}
use vcmalloc_bench.Context.Consistent.{IsConsistent, IsFresh, pages_of, pages_of-append}
use vcmalloc_bench.Realloc.{Plan, plan_of, set_elements, move_pointers}
use vcmalloc_bench.Realloc.Moved.{move_pointers_ne}
use vcmalloc_bench.Realloc.Split.{set_elements-append, drop-behind, Around-Chain}
use vcmalloc_bench.Realloc.Resized.{IsMove, start_kept, resized-Around, pages_of-resized}
use vcmalloc_bench.Realloc.Request.{IsResizable, plan, count, around, resized_pages, plan_pages}

pub get_elem?-at :
    (pre : List ContainerContext) (c : ContainerContext) (post : List ContainerContext)
    → get_elem? (pre ++ c ∷ post) (length pre) ≡ some c
get_elem?-at [] c post = refl
get_elem?-at (d ∷ pre) c post = get_elem?-at pre c post

length-resized :
    (pre : List ContainerContext) (c d : ContainerContext) (post : List ContainerContext)
    → length (pre ++ c ∷ post) ≡ length (pre ++ d ∷ post)
length-resized [] c d post = refl
length-resized (e ∷ pre) c d post = ap suc (length-resized pre c d post)

module _ {o : Os} (base new_size : ℕ) (w : Scene o) (pre : List ContainerContext)
    (c : ContainerContext) (post : List ContainerContext)
    (is : IsConsistent o.page_shift w.vars base w.context)
    (r : IsResizable base new_size w pre c post) where
  abbrev p : Plan
  p = plan base new_size w pre c post

  abbrev n : ℕ
  n = count base new_size w pre c post

  abbrev pub resized : ContainerContext
  resized = record c { elements_num = n }

  plan_index : p.index ≡ length pre
  unfolding plan_of
  plan_index = refl

  pub storage_lem :
      set_elements w.context.containercontext_storage p.index n ≡ pre ++ resized ∷ post
  storage_lem =
      ap (λ (i : ℕ). set_elements w.context.containercontext_storage i n) plan_index
      ∙ ap (λ (cs : List ContainerContext). set_elements cs (length pre) n) r.split
      ∙ set_elements-append pre c post n

  pointers_lem :
      (move : ℕ → ℕ)
      → move_pointers move w.vars (drop (suc p.index) w.context.containercontext_storage)
        ≡ move_pointers move w.vars post
  pointers_lem move =
      ap (λ (i : ℕ). move_pointers move w.vars (drop (suc i) w.context.containercontext_storage))
        plan_index
      ∙ ap (λ (cs : List ContainerContext). move_pointers move w.vars (drop (suc (length pre)) cs))
          r.split
      ∙ ap (move_pointers move w.vars) (drop-behind pre c post)

  backed_lem :
      w.context.pfns_num
      ≡ pages_of o.page_shift w.vars pre + (p.pages + pages_of o.page_shift w.vars post)
  backed_lem =
      let start = (around base new_size w pre c post is r).start in
      let now = plan_pages base new_size w pre c post is r in
      is.backed
      ∙ ap (pages_of o.page_shift w.vars) r.split
      ∙ pages_of-append o.page_shift w.vars pre (c ∷ post)
      ∙ omega
          (arith, now, ap (λ (a : ℕ). nbr_of_pages o.page_shift a c.type_size c.elements_num) start)

  -- A state that differs by the move, the element count and the frames.
  pub preserved :
      (k : ℕ) (up : Bool) (move : ℕ → ℕ) (w' : Scene o)
      → IsMove o.page_shift k up w.vars move base pre c post n
      → w'.context.containercontext_storage
        ≡ set_elements w.context.containercontext_storage p.index n
      → w'.vars ≡ move_pointers move w.vars (drop (suc p.index) w.context.containercontext_storage)
      → w'.context.pfns_num + p.pages ≡ w.context.pfns_num + p.requested
      → w'.context.containers_num ≡ w.context.containers_num
      → w'.context.containers_max ≡ w.context.containers_max
      → IsStored w'.context
      → IsConsistent o.page_shift w'.vars base w'.context
  preserved k up move w' m es ev ep en ex st =
      let a = around base new_size w pre c post is r in
      let storage = es ∙ storage_lem in
      let vars = ev ∙ pointers_lem move in
      let total = pages_of-resized o.page_shift k up w.vars move base pre c post n a r.apart m in
      let pages = (resized_pages base new_size w pre c post is r).0 in
      let chain =
        Around-Chain o.page_shift (move_pointers move w.vars post) base pre resized post
          (resized-Around o.page_shift k up w.vars move base pre c post n a r.apart m) in
      record {
        aligned = is.aligned;
        chain = rw (vars, storage) chain;
        backed =
            let all : w'.context.pfns_num
                ≡ pages_of o.page_shift (move_pointers move w.vars post) (pre ++ resized ∷ post) =
              omega (arith, ep, backed_lem, total, pages) in
            all
            ∙ sym (
                ap (λ (v : ℕ → ℕ). pages_of o.page_shift v w'.context.containercontext_storage) vars
                ∙ ap (pages_of o.page_shift (move_pointers move w.vars post)) storage);
        counted = record {
          counted =
              en
              ∙ is.counted.counted
              ∙ ap length r.split
              ∙ length-resized pre c resized post
              ∙ sym (ap length storage);
          fits = omega (arith, en, ex, is.counted.fits);
        };
        stored = st;
      }

  -- The container stays where it is.
  -- A pointer variable of no container behind is not assigned.
  pub elsewhere_kept :
      (move : ℕ → ℕ) (w' : Scene o)
      → w'.vars ≡ move_pointers move w.vars (drop (suc p.index) w.context.containercontext_storage)
      → (x : ℕ) → IsFresh x post
      → w'.vars x ≡ w.vars x
  elsewhere_kept move w' ev x fresh =
      ap (λ (v : ℕ → ℕ). v x) (ev ∙ pointers_lem move) ∙ move_pointers_ne move w.vars x post fresh

  pub pointer_kept :
      (k : ℕ) (up : Bool) (move : ℕ → ℕ) (w' : Scene o)
      → IsMove o.page_shift k up w.vars move base pre c post n
      → w'.vars ≡ move_pointers move w.vars (drop (suc p.index) w.context.containercontext_storage)
      → start_of w'.vars c ≡ start_of w.vars c
  pointer_kept k up move w' m ev =
      let a = around base new_size w pre c post is r in
      ap (λ (v : ℕ → ℕ). v c.reference) (ev ∙ pointers_lem move)
      ∙ start_kept o.page_shift k up w.vars move base pre c post n a r.apart m
      ∙ sym a.start
