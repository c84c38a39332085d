-- ===== src/Realloc/Placed.antt =====
-- Where the plan of ContainerRealloc stands among the pages of the hyper-container.
use native.Mathlib.Nat.{one-le-pow, div-add-mod'}
use vcmalloc_bench.Base.{
  ℕ, ◌+◌, ◌-◌, ◌*◌, ◌/◌, ◌^◌, ◌≤◌, ◌<◌, ◌≡◌, refl, sym, ap, ◌∙◌, arith, List, [], ◌∷◌, ◌++◌, length,
  subst, take, w64,
}
use vcmalloc_bench.Machine.Os.{Os}
use vcmalloc_bench.Container.{ContainerContext, mapping_address}
use vcmalloc_bench.Container.Layout.{Fits, mapping_address-IsCeiling, multiple-gap}
use vcmalloc_bench.Context.{Scene}
use vcmalloc_bench.Context.Storage.{pfns_position}
use vcmalloc_bench.Context.Consistent.{IsConsistent, Chain, chain_end, pages_of, pages_of-append}
use vcmalloc_bench.Context.Ends.{mapping_address-chain_end, mapping_address-aligned}
use vcmalloc_bench.Realloc.{Plan, plan_of}
use vcmalloc_bench.Realloc.Inside.{pfns_position-pages_of}
use vcmalloc_bench.Realloc.Split.{chain_end_above}
use vcmalloc_bench.Realloc.Request.{
  IsResizable, plan, count, around, bytes_now, bytes_then, old, plan_guest, plan_next, started,
  end_above,
}

take_front : (pre post : List ContainerContext) → take (length pre) (pre ++ post) ≡ pre
take_front [] post = refl
take_front (c ∷ pre) post = ap (◌∷◌ c) (take_front pre post)

module _ {o : Os} (base new_size : ℕ) (w : Scene o) (pre : List ContainerContext)
    (c : ContainerContext) (post : List ContainerContext)
    (is : IsConsistent o.page_shift w.vars base w.context)
    (r : IsResizable base new_size w pre c post) where
  abbrev plan_here : Plan
  plan_here = plan base new_size w pre c post

  abbrev size : ℕ
  size = 2 ^ o.page_shift

  abbrev start : ℕ
  start = chain_end base pre

  abbrev pub first_page : ℕ
  first_page = base / size

  pub base_lem : first_page * size ≡ base
  base_lem = omega (arith, div-add-mod' base size, is.aligned)

  some_byte : 0 < size
  some_byte = one-le-pow o.page_shift 2 (omega arith)

  pub start_above : base ≤ start
  start_above =
      chain_end_above o.page_shift w.vars base pre (around base new_size w pre c post is r).before

  based : mapping_address o.page_shift base ≡ base
  based =
      let end = end_above base new_size w pre c post is r in
      let next = (old base new_size w pre c post is r).next in
      mapping_address-aligned o.page_shift base is.aligned (record {
        shift = (around base new_size w pre c post is r).fits.shift;
        room = omega (arith, end, next, start_above, r.high);
      })

  start_pfn_lem : plan_here.start_pfn ≡ pages_of o.page_shift w.vars pre
  unfolding plan_of
  start_pfn_lem =
      let front : take (length pre) w.context.containercontext_storage ≡ pre =
        ap (take (length pre)) r.split ∙ take_front pre (c ∷ post) in
      let all : pages_of o.page_shift w.vars w.context.containercontext_storage
          ≡ pages_of o.page_shift w.vars pre + pages_of o.page_shift w.vars (c ∷ post) =
        ap (pages_of o.page_shift w.vars) r.split
        ∙ pages_of-append o.page_shift w.vars pre (c ∷ post) in
      ap (pfns_position o.page_shift w.vars) front
      ∙ pfns_position-pages_of o.page_shift w.vars pre
          (omega (arith, all, is.backed, is.stored.fits, is.stored.bounded))

  mapping_lem : mapping_address o.page_shift start ≡ (first_page + plan_here.start_pfn) * size
  mapping_lem =
      let chain =
        mapping_address-chain_end o.page_shift w.vars base pre
          (around base new_size w pre c post is r).before in
      rw start_pfn_lem (omega (arith, chain, based, base_lem))

  pub placed : plan_here.mapping ≡ (first_page + plan_here.start_pfn) * size
  unfolding plan_of
  placed = ap (mapping_address o.page_shift) (started base new_size w pre c post is r) ∙ mapping_lem

  pub guest_at :
      plan_here.next + plan_here.guest
      ≡ (first_page + (plan_here.start_pfn + plan_here.pages)) * size
  guest_at =
      let before = old base new_size w pre c post is r in
      let split : (first_page + (plan_here.start_pfn + plan_here.pages)) * size
          ≡ (first_page + plan_here.start_pfn) * size + plan_here.pages * size =
        omega arith in
      let now = bytes_now base new_size w pre c post is r in
      let next = plan_next base new_size w pre c post is r in
      omega (arith, split, now, next, mapping_lem, before.mapped, before.next)

  pub small : plan_here.guest < size
  small = omega (
    arith,
    (old base new_size w pre c post is r).guest_lt,
    plan_guest base new_size w pre c post is r,
  )

  pub above : first_page * size ≤ plan_here.next
  above = omega (
    arith,
    base_lem,
    start_above,
    plan_next base new_size w pre c post is r,
    (old base new_size w pre c post is r).next,
  )

  -- The end of the container after the change.
  pub below_above :
      plan_here.requested < plan_here.pages
      → first_page * size + (plan_here.pages - plan_here.requested) * size ≤ plan_here.next
  below_above less =
      let gap = multiple-gap plan_here.requested plan_here.pages size (omega arith) in
      omega (
        arith,
        gap,
        base_lem,
        start_above,
        plan_next base new_size w pre c post is r,
        (old base new_size w pre c post is r).next,
        bytes_now base new_size w pre c post is r,
        bytes_then base new_size w pre c post is r,
      )

  pub high_up :
      plan_here.pages < plan_here.requested
      → plan_here.next + (plan_here.requested - plan_here.pages) * size < w64
  high_up more =
      let gap = multiple-gap plan_here.pages plan_here.requested size (omega arith) in
      omega (
        arith,
        gap,
        plan_next base new_size w pre c post is r,
        end_above base new_size w pre c post is r,
        r.high,
      )

  pub high_now : plan_here.next < w64
  high_now = omega (
    arith,
    plan_next base new_size w pre c post is r,
    end_above base new_size w pre c post is r,
    r.high,
  )

  pub positive : 0 < first_page * size
  positive = omega (arith, base_lem, r.some_base)

  -- The container ends on the last of its pages, with the guest behind it, before and after.
  pub end_now :
      start + c.type_size * c.elements_num + plan_here.guest
      ≡ (first_page + (plan_here.start_pfn + plan_here.pages)) * size
  end_now = omega (
    arith,
    guest_at,
    plan_next base new_size w pre c post is r,
    (old base new_size w pre c post is r).next,
  )

  pub end_then :
      start + c.type_size * count base new_size w pre c post + plan_here.guest
      ≡ (first_page + (plan_here.start_pfn + plan_here.requested)) * size
  end_then =
      let split : (first_page + (plan_here.start_pfn + plan_here.requested)) * size
          ≡ (first_page + plan_here.start_pfn) * size + plan_here.requested * size =
        omega arith in
      omega (
        arith,
        split,
        mapping_lem,
        (old base new_size w pre c post is r).mapped,
        bytes_then base new_size w pre c post is r,
      )

  -- The containers end on the pages that are counted.
  pub end_mapped : chain_end base (pre ++ c ∷ post) ≤ (first_page + w.context.pfns_num) * size
  end_mapped =
      let chain : Chain o.page_shift w.vars base (pre ++ c ∷ post) =
        subst (λ (cs : List ContainerContext). Chain o.page_shift w.vars base cs) r.split
          is.chain in
      let pages : pages_of o.page_shift w.vars (pre ++ c ∷ post) ≡ w.context.pfns_num =
        ap (pages_of o.page_shift w.vars) (sym r.split) ∙ sym is.backed in
      let here : Fits o.page_shift (chain_end base (pre ++ c ∷ post)) 0 0 = record {
        shift = (around base new_size w pre c post is r).fits.shift;
        room = omega (arith, r.high);
      } in
      omega (
        arith,
        (mapping_address-IsCeiling here).above,
        based,
        base_lem,
        mapping_address-chain_end o.page_shift w.vars base (pre ++ c ∷ post) chain,
        ap (λ (q : ℕ). q * size) pages,
      )
