-- ===== src/Realloc2.antt =====
-- ContainerRealloc2 of libs_src/vcmalloc.h: new sizes for a run of containers. A first pass takes
-- pages from the containers that shrink, a second pass gives pages to those that grow.
pub mod Passes
use vcmalloc_bench.Base.{
  ℕ, zero, suc, ◌+◌, ◌-◌, ◌*◌, ◌≤◌, Bool, true, false, Option, none, some, List, [], ◌∷◌, ◌++◌, ltb,
  leb, ◌==◌, ◌&&◌, if◌then◌else◌, length, get_elem?, take, drop, add64, mul64, sub64, w64,
}
use vcmalloc_bench.Machine.Os.{Os}
use vcmalloc_bench.Machine.Run.{
  structure_not_found, free_failed, free_incomplete, unmap_failed, remap_failed,
  extra_frames_failed, extra_frames_incomplete, array_free_failed, release_failed, Run, ok, throw,
  fault, Cmd, pure, ◌>>=◌, ◌>>◌, get, put, check,
}
use vcmalloc_bench.Container.{page_size, mapping_address}
use vcmalloc_bench.Context.{Scene, slice, write_at, modify, defined, ask}
use vcmalloc_bench.Context.Storage.{start_of, pfns_position, assert_pfns_storage, find_container}
use vcmalloc_bench.Realloc.{move_pointers}
use Passes.{Pass, extend, first_pass, second_pass}

-- Where the loops begin.
unfoldable pub start_pass : (index start : ℕ) → List ℕ → (requested : ℕ) → Pass
start_pass index start spare requested = record {
  index = index;
  pfn = start;
  temp = [];
  spare = spare;
  steps = 0;
  requested = requested;
  sizes = [];
}

module _ {o : Os} where
  -- The frames are written back behind the first `start` ones, unmapped and mapped again.
  unfoldable pub remap : (mapping start old_num : ℕ) → List ℕ → Cmd (Scene o) (Unit {0})
  remap mapping start old_num frames = do
    w ← get
    pfns ← defined (write_at w.context.pfns_storage start frames)
    modify (λ c. record c { pfns_storage = pfns })
    unmapped ←
        (if old_num == start then pure true else ask (o.unmap_pages mapping (sub64 old_num start)))
    check unmapped unmap_failed
    mapped ← (if length frames == 0 then pure true else ask (o.map_frames mapping frames))
    check mapped remap_failed
    freed ← ask o.heap_free
    check freed array_free_failed

  -- The pointers of the containers behind the loops' last one, moved by `move`.
  unfoldable pub move_rest : ℕ → (ℕ → ℕ) → Cmd (Scene o) (Unit {0})
  move_rest index move = do
    w ← get
    put (record w {
      vars = move_pointers move w.vars (drop index w.context.containercontext_storage);
    })

  -- The first pass and what follows it up to the new mapping: the frames behind the containers of
  -- the loop close up.
  unfoldable pub take_back : (index start type_size : ℕ) → List ℕ → Cmd (Scene o) (Pass × ℕ)
  unfolding remap start_pass move_rest
  take_back index start type_size sizes = do
    w ← get
    let num = w.context.pfns_num
    p ← first_pass num type_size sizes (start_pass index start [] 0)
    move_rest p.index (λ a. sub64 a (mul64 p.steps (page_size o.page_shift)))
    let post = sub64 num p.pfn
    v ← get
    behind ← defined (slice v.context.pfns_storage p.pfn post)
    frames ← defined (extend num p.temp behind)
    c ← defined (get_elem? v.context.containercontext_storage index)
    remap (mapping_address o.page_shift (start_of v.vars c)) start num frames
    pure (p, post)

  -- Spare frames that no container asks for are given back.
  unfoldable pub release_spare : (remaining : ℕ) → Pass → Cmd (Scene o) (Unit {0})
  release_spare remaining p = do
    frames ← defined (slice p.spare p.requested remaining)
    (done, count) ← ask (λ s. let (d, n, s') = o.free_frames frames s in ((d, n), s'))
    check done free_failed
    check (count == remaining) free_incomplete

  -- Frames that the spare ones do not cover are allocated.
  unfoldable pub more_frames : (missing : ℕ) → Pass → Cmd (Scene o) (List ℕ)
  more_frames missing p = do
    got ← ask (o.heap_alloc (mul64 (p.steps + missing) 8))
    (done, frames) ← ask (λ s. let (d, f, s') = o.allocate_frames missing s in ((d, f), s'))
    check done extra_frames_failed
    check (length frames == missing) extra_frames_incomplete
    if got then pure (p.spare ++ frames) else λ _. fault

  -- The second pass and what follows it.
  unfoldable pub hand_out :
      (index start old_num post type_size requested : ℕ)
      → (spare sizes : List ℕ) → Cmd (Scene o) (List ℕ)
  unfolding remap start_pass move_rest
  hand_out index start old_num post type_size requested spare sizes = do
    w ← get
    let room = w.context.pfns_num + requested
    got ← ask (o.heap_alloc (mul64 room 8))
    buffer ← ask (o.virtual_alloc 0 (page_size o.page_shift))
    assert_pfns_storage (add64 w.context.pfns_num requested)
    address ← defined buffer
    p ← second_pass room address type_size sizes (start_pass index start spare requested)
    move_rest p.index (λ a. add64 a (mul64 p.steps (page_size o.page_shift)))
    v ← get
    behind ← defined (slice v.context.pfns_storage p.pfn post)
    frames ← defined (extend room p.temp behind)
    c ← defined (get_elem? v.context.containercontext_storage index)
    remap (mapping_address o.page_shift (start_of v.vars c)) start old_num frames
    released ← ask (o.virtual_free address)
    check released release_failed
    if got then pure p.sizes else λ _. fault

  -- `ContainerRealloc2<DataType>(context, user_pointer, elements_num_array, array_size)`; the
  -- result is the array, in which the containers of the first pass are marked by -1.
  unfoldable pub container_realloc2 : (user_pointer type_size : ℕ) → List ℕ → Cmd (Scene o) (List ℕ)
  unfolding take_back release_spare more_frames hand_out
  container_realloc2 user_pointer type_size sizes = do
    w ← get
    let num = w.context.pfns_num
    got_spare ← ask (o.heap_alloc (mul64 num 8))
    got_temp ← ask (o.heap_alloc (mul64 num 8))
    found ← find_container (w.vars user_pointer)
    elim found [
      | none ↦ throw structure_not_found
      | some index ↦ (do
        let start =
            pfns_position o.page_shift w.vars (take index w.context.containercontext_storage)
        (p, post) ← take_back index start type_size sizes
        (if ltb p.requested p.steps then release_spare (p.steps - p.requested) p else pure tt)
        sizes' ←
            (if p.requested == 0 then pure p.sizes else (do
              spare ←
                  (if ltb p.steps p.requested
                    then more_frames (p.requested - p.steps) p
                    else pure p.spare)
              hand_out index start num post type_size p.requested spare p.sizes))
        freed ← ask o.heap_free
        check freed array_free_failed
        if got_spare && got_temp then pure sizes' else λ _. fault)
    ]
