-- ===== src/Alloc.antt =====
-- ContainerAlloc of libs_src/vcmalloc.h: a new container behind the last one, and the physical
-- frames that it needs beyond the rest of the last page.
pub mod Frames
pub mod Position
pub mod Correct
pub mod Backed
pub mod Refused
use vcmalloc_bench.Base.{
  ℕ, ◌-◌, true, Option, none, some, ltb, leb, ◌==◌, if◌then◌else◌, length, get_elem?, add64, mul64,
  sub64,
}
use vcmalloc_bench.Machine.Os.{Os}
use vcmalloc_bench.Machine.Run.{
  frames_unavailable, frames_incomplete, map_failed, Cmd, pure, ◌>>=◌, ◌>>◌, get, put, check,
}
use vcmalloc_bench.Container.{ContainerContext, next_address, next_mapping_address, guest_bytes}
use vcmalloc_bench.Pages.{ceil_pages}
use vcmalloc_bench.Context.{HyperContainerContext, Scene, assign, write_at, modify, defined, ask}
use vcmalloc_bench.Context.Storage.{start_of, assert_pfns_storage, insert}

-- Where the new container begins, where its own pages begin, and the bytes that the last page of
-- the containers so far has left.
pub record Place : Type 0 where
  pub mapping : ℕ
  pub next : ℕ
  pub left : ℕ

unfoldable pub place_after : (s : ℕ) → (ℕ → ℕ) → ContainerContext → Place
place_after s vars c = record {
  mapping = next_mapping_address s (start_of vars c) c.type_size c.elements_num;
  next = next_address (start_of vars c) c.type_size c.elements_num;
  left = guest_bytes s (start_of vars c) c.type_size c.elements_num;
}

-- `end()` is the cell before `containers_num`.
unfoldable pub place_of :
    (s : ℕ) → (ℕ → ℕ) → HyperContainerContext → (hypercontainer_address : ℕ) → Option Place
unfolding place_after
place_of s vars h address =
    if h.containers_num == 0
    then some (record { mapping = address; next = address; left = 0 })
    else elim (get_elem? h.containercontext_storage (h.containers_num - 1)) [
      | none ↦ none
      | some c ↦ some (place_after s vars c)
    ]

-- `(int)ceil(...)`: out of the range of int the conversion is undefined.
abbrev pub to_int : ℕ → Option ℕ
to_int n = if ltb n 0x8000_0000 then some n else none

module _ {o : Os} where
  -- The frames for `requested` more pages: allocated, entered behind the frames so far and mapped
  -- from `mapping` on.
  unfoldable pub add_frames : (mapping requested : ℕ) → Cmd (Scene o) (Unit {0})
  add_frames mapping requested = do
    assert_pfns_storage requested
    w ← get
    let h = w.context
    (done, frames) ← ask (λ s. let (d, f, s') = o.allocate_frames requested s in ((d, f), s'))
    check done frames_unavailable
    pfns ← defined (write_at h.pfns_storage h.pfns_num frames)
    modify (λ c. record c { pfns_storage = pfns })
    check (length frames == requested) frames_incomplete
    mapped ← (if requested == 0 then pure true else ask (o.map_frames mapping frames))
    check mapped map_failed
    modify (λ c. record c { pfns_num = add64 c.pfns_num requested })

  -- `ContainerAlloc<DataType>(context, address, user_pointer, elements_num)`, where `user_pointer`
  -- is the number of the pointer variable and `type_size` is sizeof(DataType).
  unfoldable pub container_alloc :
      (address user_pointer type_size elements_num : ℕ) → Cmd (Scene o) (Unit {0})
  unfolding add_frames
  container_alloc address user_pointer type_size elements_num = do
    w ← get
    let requested_bytes = mul64 type_size elements_num
    place ← defined (place_of o.page_shift w.vars w.context address)
    insert user_pointer type_size elements_num
    w' ← get
    put (record w' { vars = assign w'.vars user_pointer place.next })
    if leb requested_bytes place.left then pure tt else (do
      requested ← defined (to_int (ceil_pages o.page_shift (sub64 requested_bytes place.left)))
      add_frames place.mapping requested)
