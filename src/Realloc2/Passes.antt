-- ===== src/Realloc2/Passes.antt =====
-- The two loops of ContainerRealloc2 over the array of new sizes.
use vcmalloc_bench.Base.{
  ℕ, ◌+◌, ◌-◌, ◌/◌, Option, none, some, List, [], ◌∷◌, ◌++◌, ltb, leb, ◌==◌, ◌||◌, if◌then◌else◌,
  length, get_elem?, add64, mul64, sub64, w64,
}
use vcmalloc_bench.Machine.Os.{Os}
use vcmalloc_bench.Machine.Run.{map_failed, unmap_failed, ok, Cmd, pure, ◌>>=◌, ◌>>◌, get, check}
use vcmalloc_bench.Machine.Memory.{memmove}
use vcmalloc_bench.Container.{
  ContainerContext, page_size, next_mapping_address, last_page_offset, nbr_of_pages, guest_bytes,
  prior_free_bytes,
}
use vcmalloc_bench.Pages.{ceil_pages}
use vcmalloc_bench.Context.{Scene, assign, slice, modify, defined, ask}
use vcmalloc_bench.Context.Storage.{start_of}
use vcmalloc_bench.Realloc.{requested_bytes, set_elements}

-- The variables of a loop: `itStruct` as an index, `PFNsIdx`, the frames written to `tempPFNs`
-- and to `sparePFNs`, `steps`, `requested_pages`, and the entries of the array that are done.
pub record Pass : Type 0 where
  pub index : ℕ
  pub pfn : ℕ
  pub temp : List ℕ
  pub spare : List ℕ
  pub steps : ℕ
  pub requested : ℕ
  pub sizes : List ℕ

-- Frames written behind those in an array of `room` cells; `none` outside the array.
unfoldable pub extend : (room : ℕ) → List ℕ → List ℕ → Option (List ℕ)
extend room xs ys = if leb (length xs + length ys) room then some (xs ++ ys) else none

-- `elements_num_` for so many pages.
unfoldable pub elements_for : (s pages prior guest size : ℕ) → ℕ
elements_for s pages prior guest size = sub64 (add64 (mul64 pages (page_size s)) prior) guest / size

module _ {o : Os} where
  abbrev pub container_at : ℕ → Scene o → Option ContainerContext
  container_at i w = get_elem? w.context.containercontext_storage i

  -- `itStruct->reference_` after `(char*&)itStruct->reference_ -= bytes` and with `+=`.
  unfoldable pub lower : ContainerContext → ℕ → Cmd (Scene o) (Unit {0})
  lower c bytes w =
      ok tt (record w { vars = assign w.vars c.reference (sub64 (w.vars c.reference) bytes) })

  unfoldable pub raise : ContainerContext → ℕ → Cmd (Scene o) (Unit {0})
  raise c bytes w =
      ok tt (record w { vars = assign w.vars c.reference (add64 (w.vars c.reference) bytes) })

  unfoldable pub move_bytes : (dst src n : ℕ) → Cmd (Scene o) (Unit {0})
  move_bytes dst src n = do
    w ← get
    memory ← defined (memmove o w.os w.memory dst src n)
    λ v. ok tt (record v { memory = memory })

  -- A container that keeps its frames. Both loops lower its pointer.
  unfoldable pub keep : (room : ℕ) → ContainerContext → (pages size : ℕ) → Pass → Cmd (Scene o) Pass
  unfolding lower
  keep room c pages size p = do
    w ← get
    frames ← defined (slice w.context.pfns_storage p.pfn pages)
    temp ← defined (extend room p.temp frames)
    lower c (mul64 p.steps (page_size o.page_shift))
    pure (record p {
      index = p.index + 1;
      pfn = p.pfn + pages;
      temp = temp;
      sizes = p.sizes ++ size ∷ [];
    })

  -- A container that gives back pages.
  unfoldable pub give :
      (room : ℕ) → ContainerContext → (type_size pages requested : ℕ) → Pass → Cmd (Scene o) Pass
  unfolding lower move_bytes
  give room c type_size pages requested p = do
    w ← get
    let s = o.page_shift
    let start = start_of w.vars c
    let guest = guest_bytes s start c.type_size c.elements_num
    let prior = prior_free_bytes s start
    let it_steps = pages - requested
    let source = sub64 (next_mapping_address s start c.type_size c.elements_num) guest
    move_bytes (sub64 source (mul64 it_steps (page_size s))) source guest
    kept ← defined (slice w.context.pfns_storage p.pfn requested)
    temp ← defined (extend room p.temp kept)
    given ← defined (slice w.context.pfns_storage (p.pfn + requested) it_steps)
    spare ← defined (extend room p.spare given)
    modify (λ h. record h {
      containercontext_storage =
          set_elements h.containercontext_storage p.index
            (elements_for s requested prior guest type_size);
      pfns_num = sub64 h.pfns_num it_steps;
    })
    lower c (mul64 p.steps (page_size s))
    pure (record p {
      index = p.index + 1;
      pfn = p.pfn + pages;
      temp = temp;
      spare = spare;
      steps = p.steps + it_steps;
      sizes = p.sizes ++ (w64 - 1) ∷ [];
    })

  -- The pages that the new size asks for.
  unfoldable pub pages_for : Scene o → ContainerContext → (type_size size : ℕ) → ℕ
  pages_for w c type_size size =
      let start = start_of w.vars c in
      let s = o.page_shift in
      ceil_pages s (
        requested_bytes type_size (prior_free_bytes s start)
          (guest_bytes s start c.type_size c.elements_num) size)

  unfoldable pub pages_now : Scene o → ContainerContext → ℕ
  pages_now w c = nbr_of_pages o.page_shift (start_of w.vars c) c.type_size c.elements_num

  -- One round of the first loop; a size of -1 leaves the container as it is.
  unfoldable pub first_round : (room type_size size : ℕ) → Pass → Cmd (Scene o) Pass
  unfolding keep give pages_for pages_now
  first_round room type_size size p = do
    w ← get
    c ← defined (container_at p.index w)
    let pages = pages_now w c
    let requested = pages_for w c type_size size
    if (size == c.elements_num) || (size == w64 - 1)
        then keep room c pages size p
        else if requested == pages
        then keep room c pages size p
        else if ltb pages requested
        then keep room c pages size (record p { requested = p.requested + (requested - pages) })
        else give room c type_size pages requested p

  unfoldable pub first_pass : (room type_size : ℕ) → List ℕ → Pass → Cmd (Scene o) Pass
  unfolding first_round
  first_pass room type_size [] p = pure p
  first_pass room type_size (size ∷ sizes) p = do
    p' ← first_round room type_size size p
    first_pass room type_size sizes p'

  -- A container that gets pages. The guest's bytes are copied through `buffer`, a page that is
  -- mapped to the first of the new frames.
  unfoldable pub take_pages :
      (room buffer : ℕ)
      → ContainerContext
      → (type_size pages requested size : ℕ) → Pass
      → Cmd (Scene o) Pass
  unfolding raise move_bytes
  take_pages room buffer c type_size pages requested size p = do
    w ← get
    let s = o.page_shift
    let start = start_of w.vars c
    let guest = guest_bytes s start c.type_size c.elements_num
    let prior = prior_free_bytes s start
    let it_steps = requested - pages
    let source = sub64 (next_mapping_address s start c.type_size c.elements_num) guest
    let offset = last_page_offset s start c.type_size c.elements_num
    first ← defined (slice p.spare (sub64 p.requested it_steps) 1)
    mapped ← ask (o.map_frames buffer first)
    check mapped map_failed
    move_bytes (add64 buffer offset) source guest
    kept ← defined (slice w.context.pfns_storage p.pfn pages)
    got ← defined (slice p.spare (sub64 p.requested it_steps) it_steps)
    temp ← defined (extend room p.temp (kept ++ got))
    unmapped ← ask (o.unmap_pages buffer 1)
    check unmapped unmap_failed
    modify (λ h. record h {
      containercontext_storage =
          set_elements h.containercontext_storage p.index
            (elements_for s requested prior guest type_size);
      pfns_num = add64 h.pfns_num it_steps;
    })
    raise c (mul64 p.steps (page_size s))
    pure (record p {
      index = p.index + 1;
      pfn = p.pfn + pages;
      temp = temp;
      requested = sub64 p.requested it_steps;
      steps = p.steps + it_steps;
      sizes = p.sizes ++ size ∷ [];
    })

  -- One round of the second loop. A container that would shrink is passed over, with `itStruct`
  -- where it is.
  unfoldable pub second_round : (room buffer type_size size : ℕ) → Pass → Cmd (Scene o) Pass
  unfolding keep take_pages pages_for pages_now
  second_round room buffer type_size size p = do
    w ← get
    c ← defined (container_at p.index w)
    let pages = pages_now w c
    let requested = pages_for w c type_size size
    if (size == c.elements_num) || (size == w64 - 1)
        then keep room c pages size p
        else if requested == pages
        then keep room c pages size p
        else if ltb pages requested
        then take_pages room buffer c type_size pages requested size p
        else pure (record p { sizes = p.sizes ++ size ∷ [] })

  unfoldable pub second_pass : (room buffer type_size : ℕ) → List ℕ → Pass → Cmd (Scene o) Pass
  unfolding second_round
  second_pass room buffer type_size [] p = pure p
  second_pass room buffer type_size (size ∷ sizes) p = do
    p' ← second_round room buffer type_size size p
    second_pass room buffer type_size sizes p'
