-- ===== src/Realloc.antt =====
-- ContainerRealloc of libs_src/vcmalloc.h: a container gets or gives back whole pages, and the
-- containers behind it move by as many.
pub mod Moved
pub mod Split
pub mod Request
pub mod Preserved
pub mod Outcome
pub mod Correct
pub mod Found
pub mod Resized
pub mod Capacity
pub mod Inside
pub mod Moves
pub mod Placed
pub mod Repaged
pub mod Shifts
pub mod Bytes
pub mod Refused
pub mod Growth
pub mod Reduction
pub mod Grow
pub mod Shrink
use vcmalloc_bench.Base.{
  ℕ, zero, suc, ◌+◌, ◌-◌, ◌/◌, true, none, some, List, [], ◌∷◌, not, ltb, ◌==◌, if◌then◌else◌,
  length, get_elem?, take, drop, add64, mul64, sub64, is_negative,
}
use vcmalloc_bench.Machine.Os.{Os}
use vcmalloc_bench.Machine.Run.{
  structure_not_found, copy_failed, free_failed, free_incomplete, unmap_failed, remap_failed,
  extra_frames_failed, extra_frames_incomplete, throw, Cmd, pure, ◌>>=◌, ◌>>◌, get, put, check,
}
use vcmalloc_bench.Machine.Memory.{memmove}
use vcmalloc_bench.Container.{
  ContainerContext, page_size, mapping_address, next_address, nbr_of_pages, guest_bytes,
  prior_free_bytes,
}
use vcmalloc_bench.Pages.{ceil_pages}
use vcmalloc_bench.Context.{Scene, assign, write_at, slice, move_cells, modify, defined, ask}
use vcmalloc_bench.Context.Storage.{start_of, pfns_position, assert_pfns_storage, find_container}

-- What ContainerRealloc computes about the container before it changes anything.
pub record Plan : Type 0 where
  pub index : ℕ
  pub type_size : ℕ
  pub mapping : ℕ
  pub next : ℕ
  pub prior : ℕ
  pub guest : ℕ
  pub pages : ℕ
  pub start_pfn : ℕ
  pub requested : ℕ

-- The bytes behind the container's first own page, for the new size with the guest behind it;
-- a negative INT64 counts as 0.
unfoldable pub requested_bytes : (type_size prior guest new_size : ℕ) → ℕ
requested_bytes type_size prior guest new_size =
    let bytes = add64 (sub64 (mul64 new_size type_size) prior) guest in
    if is_negative bytes then 0 else bytes

-- `sizeof(DataType)` is `size`; the container has its own `type_size_`.
unfoldable pub plan_of :
    (s : ℕ)
    → (ℕ → ℕ)
    → List ContainerContext
    → (index : ℕ) → ContainerContext
    → (size new_size : ℕ) → Plan
plan_of s vars containers index c size new_size =
    let start = start_of vars c in
    let prior = prior_free_bytes s start in
    let guest = guest_bytes s start c.type_size c.elements_num in
    record {
      index = index;
      type_size = size;
      mapping = mapping_address s start;
      next = next_address start c.type_size c.elements_num;
      prior = prior;
      guest = guest;
      pages = nbr_of_pages s start c.type_size c.elements_num;
      start_pfn = pfns_position s vars (take index containers);
      requested = ceil_pages s (requested_bytes size prior guest new_size);
    }

-- `elements_num_` after the change: what fits before the guest's bytes.
unfoldable pub new_elements_num : (s : ℕ) → Plan → ℕ
new_elements_num s p = sub64 (add64 (mul64 p.requested (page_size s)) p.prior) p.guest / p.type_size

abbrev pub set_elements : List ContainerContext → ℕ → ℕ → List ContainerContext
set_elements [] i n = []
set_elements (c ∷ cs) zero n = record c { elements_num = n } ∷ cs
set_elements (c ∷ cs) (suc i) n = c ∷ set_elements cs i n

-- The user's pointers of the containers, moved by `move` one after the other.
unfoldable pub move_pointers : (ℕ → ℕ) → (ℕ → ℕ) → List ContainerContext → ℕ → ℕ
move_pointers move vars [] = vars
move_pointers move vars (c ∷ cs) =
    move_pointers move (assign vars c.reference (move (vars c.reference))) cs

module _ {o : Os} where
  -- `memmove` of the bytes behind the container, and the test of its result.
  unfoldable pub copy_guest : (dst src n : ℕ) → Cmd (Scene o) (Unit {0})
  copy_guest dst src n = do
    w ← get
    memory ← defined (memmove o w.os w.memory dst src n)
    put (record w { memory = memory })
    check (not (dst == 0)) copy_failed

  -- The end of both branches: the new element count, the pointers behind, the number of frames.
  unfoldable pub commit : Plan → (move : ℕ → ℕ) → (pfns_num : ℕ) → Cmd (Scene o) (Unit {0})
  commit p move pfns_num = do
    w ← get
    let h = w.context
    put (record w {
      vars = move_pointers move w.vars (drop (suc p.index) h.containercontext_storage);
      context = record h {
        containercontext_storage =
            set_elements h.containercontext_storage p.index (new_elements_num o.page_shift p);
        pfns_num = pfns_num;
      };
    })

  -- The spare frames freed and taken out from between the others, and the new mapping.
  unfoldable pub give_back : Plan → Cmd (Scene o) (Unit {0})
  unfolding commit
  give_back p = do
    let steps = p.pages - p.requested
    w ← get
    let h = w.context
    let free_index = p.start_pfn + p.requested
    freed ← defined (slice h.pfns_storage free_index steps)
    (done, count) ← ask (λ s. let (d, n, s') = o.free_frames freed s in ((d, n), s'))
    check done free_failed
    check (count == steps) free_incomplete
    let behind = sub64 (sub64 h.pfns_num p.start_pfn) p.pages
    pfns ← defined (move_cells h.pfns_storage free_index (p.start_pfn + p.pages) behind)
    modify (λ c. record c { pfns_storage = pfns })
    unmapped ← ask (o.unmap_pages p.mapping (sub64 h.pfns_num p.start_pfn))
    check unmapped unmap_failed
    frames ← defined (slice pfns p.start_pfn (sub64 (sub64 h.pfns_num p.start_pfn) steps))
    mapped ← ask (o.map_frames p.mapping frames)
    check mapped remap_failed
    commit p (λ a. sub64 a (mul64 steps (page_size o.page_shift))) (sub64 h.pfns_num steps)

  -- `requestedPages < concerned_container_pages`
  unfoldable pub shrink : Plan → Cmd (Scene o) (Unit {0})
  unfolding copy_guest give_back
  shrink p = do
    let moved = mul64 (p.pages - p.requested) (page_size o.page_shift)
    copy_guest (sub64 p.next moved) p.next p.guest
    give_back p

  -- The new frames between the others, the new mapping, and the guest's bytes.
  unfoldable pub take_in : Plan → Cmd (Scene o) (Unit {0})
  unfolding copy_guest commit
  take_in p = do
    let steps = p.requested - p.pages
    let moved = mul64 steps (page_size o.page_shift)
    w ← get
    let h = w.context
    let source = p.start_pfn + p.pages
    let behind = sub64 (sub64 h.pfns_num p.start_pfn) p.pages
    pfns ← defined (move_cells h.pfns_storage (p.start_pfn + p.requested) source behind)
    modify (λ c. record c { pfns_storage = pfns })
    (done, frames) ← ask (λ s. let (d, f, s') = o.allocate_frames steps s in ((d, f), s'))
    check done extra_frames_failed
    pfns' ← defined (write_at pfns source frames)
    modify (λ c. record c { pfns_storage = pfns' })
    check (length frames == steps) extra_frames_incomplete
    unmapped ←
        (if h.pfns_num == p.start_pfn
          then pure true
          else ask (o.unmap_pages p.mapping (sub64 h.pfns_num p.start_pfn)))
    check unmapped unmap_failed
    all ← defined (slice pfns' p.start_pfn (add64 (sub64 h.pfns_num p.start_pfn) steps))
    mapped ← ask (o.map_frames p.mapping all)
    check mapped remap_failed
    copy_guest (add64 p.next moved) p.next p.guest
    commit p (λ a. add64 a moved) (add64 h.pfns_num steps)

  -- `requestedPages > concerned_container_pages`
  unfoldable pub grow : Plan → Cmd (Scene o) (Unit {0})
  unfolding take_in
  grow p = do assert_pfns_storage (p.requested - p.pages); take_in p

  -- The branch that the page counts select; with equal counts nothing happens.
  unfoldable pub carry_out : Plan → Cmd (Scene o) (Unit {0})
  carry_out p =
      if ltb p.requested p.pages
      then shrink p
      else if ltb p.pages p.requested
      then grow p
      else pure tt

  -- `ContainerRealloc<DataType>(context, user_pointer, newSize)`
  unfoldable pub container_realloc :
      (user_pointer type_size new_size : ℕ) → Cmd (Scene o) (Unit {0})
  unfolding carry_out
  container_realloc user_pointer type_size new_size = do
    w ← get
    found ← find_container (w.vars user_pointer)
    elim found [
      | none ↦ throw structure_not_found
      | some i ↦ (do
        c ← defined (get_elem? w.context.containercontext_storage i)
        carry_out
            (plan_of o.page_shift w.vars w.context.containercontext_storage i c type_size new_size))
    ]
