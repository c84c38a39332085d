-- ===== src/Realloc/Request.antt =====
-- What is asked of a call of ContainerRealloc, and what the plan for it comes to.
use native.Mathlib.Nat.{one-le-pow}
use vcmalloc_bench.Base.{
  ℕ, zero, suc, ◌+◌, ◌-◌, ◌*◌, ◌^◌, ◌≤◌, ◌<◌, ◌≡◌, sym, ap, subst, ◌∙◌, arith, List, ◌∷◌, ◌++◌,
  length, sign64,
}
use vcmalloc_bench.Machine.Os.{Os}
use vcmalloc_bench.Container.{
  ContainerContext, nbr_of_pages, guest_bytes, prior_free_bytes, next_address,
}
use vcmalloc_bench.Container.Layout.{Fits, Layout, Fits-Layout, multiple-le}
use vcmalloc_bench.Context.{Scene}
use vcmalloc_bench.Context.Storage.{start_of}
use vcmalloc_bench.Context.Consistent.{IsConsistent, Chain, chain_end}
use vcmalloc_bench.Realloc.{Plan, plan_of, new_elements_num}
use vcmalloc_bench.Realloc.Capacity.{IsResize, new_elements_num-capacity, new_elements_num-exact}
use vcmalloc_bench.Realloc.Moved.{Apart}
use vcmalloc_bench.Realloc.Split.{Around, Chain-Around, chain_end_above, chain_end-append}
use vcmalloc_bench.Realloc.Found.{Filled}

factor_positive : (q t p : ℕ) → q * t ≡ p → 0 < p → 0 < t
factor_positive q zero p e pos = absurd (omega arith)
factor_positive q (suc t) p e pos = omega arith

module _ {o : Os} (base new_size : ℕ) (w : Scene o) (pre : List ContainerContext)
    (c : ContainerContext) (post : List ContainerContext) where
  abbrev pub plan : Plan
  plan =
      plan_of o.page_shift w.vars w.context.containercontext_storage (length pre) c c.type_size
        new_size

  abbrev pub page : ℕ
  page = 2 ^ o.page_shift

  -- The container c stands in the hyper-container, between `pre` and `post`; no container is empty,
  -- no two refer to one pointer variable; the element size divides the page size; and the
  -- addresses, the bytes and the frames stay within the bounds of the arithmetic.
  pub record IsResizable : Type 0 where
    pub split : w.context.containercontext_storage ≡ pre ++ c ∷ post
    pub apart : Apart (pre ++ c ∷ post)
    pub filled : Filled (pre ++ c ∷ post)
    pub few : length (pre ++ c ∷ post) < sign64
    pub per_page : ℕ
    pub whole : per_page * c.type_size ≡ page
    pub small_page : page ≤ 0x4_0000_0000_0000
    pub bytes : new_size * c.type_size < 0x10_0000_0000_0000
    pub some_base : 0 < base
    pub high : chain_end base (pre ++ c ∷ post) + plan.requested * page + page < sign64
    pub frames : w.context.pfns_num + plan.requested ≤ sign64

  abbrev pub start : ℕ
  start = chain_end base pre

  abbrev pub count : ℕ
  count = new_elements_num o.page_shift plan

  module _ (is : IsConsistent o.page_shift w.vars base w.context) (r : IsResizable) where
    pub around : Around o.page_shift w.vars base pre c post
    around =
        Chain-Around o.page_shift w.vars base pre c post (
          subst (λ (cs : List ContainerContext). Chain o.page_shift w.vars base cs) r.split
            is.chain)

    pub typed : 0 < c.type_size
    typed =
        factor_positive r.per_page c.type_size page r.whole
          (one-le-pow o.page_shift 2 (omega arith))

    pub started : start_of w.vars c ≡ start
    started = around.start

    resize : IsResize o.page_shift w.vars w.context.containercontext_storage (length pre) new_size c
    resize = record {
      fits = rw started around.fits;
      page = r.small_page;
      typed = typed;
      bytes = r.bytes;
    }

    pub capacity :
        (new_size ≤ count) × (count * c.type_size + plan.guest ≤ plan.requested * page + plan.prior)
    capacity =
        new_elements_num-capacity o.page_shift w.vars w.context.containercontext_storage
          (length pre) new_size c resize

    pub below :
        chain_end (next_address start c.type_size c.elements_num) post
        ≡ chain_end base (pre ++ c ∷ post)
    below = sym (chain_end-append base pre c post)

    abbrev pub old : Layout o.page_shift start c.type_size c.elements_num
    old = Fits-Layout around.fits

    -- What the plan holds, by the address where the container starts.
    pub plan_prior : plan.prior ≡ prior_free_bytes o.page_shift start
    unfolding plan_of
    plan_prior = ap (prior_free_bytes o.page_shift) started

    pub plan_guest : plan.guest ≡ guest_bytes o.page_shift start c.type_size c.elements_num
    unfolding plan_of
    plan_guest = ap (λ (a : ℕ). guest_bytes o.page_shift a c.type_size c.elements_num) started

    pub plan_pages : plan.pages ≡ nbr_of_pages o.page_shift start c.type_size c.elements_num
    unfolding plan_of
    plan_pages = ap (λ (a : ℕ). nbr_of_pages o.page_shift a c.type_size c.elements_num) started

    pub plan_next : plan.next ≡ next_address start c.type_size c.elements_num
    unfolding plan_of
    plan_next = ap (λ (a : ℕ). next_address a c.type_size c.elements_num) started

    pub end_above : next_address start c.type_size c.elements_num ≤ chain_end base (pre ++ c ∷ post)
    end_above =
        let above =
          chain_end_above o.page_shift w.vars (next_address start c.type_size c.elements_num) post
            around.behind in
        omega (arith, below)

    pub fits : Fits o.page_shift start c.type_size count
    fits = record {
      shift = around.fits.shift;
      room =
          omega (
            arith, capacity.1, plan_prior, old.prior_lt, old.next, end_above, r.high, r.small_page,
          );
    }

    -- The elements that the planned pages hold besides the guest.
    whole_elements :
        (n pages requested prior guest : ℕ)
        → prior + pages * page ≡ c.type_size * n + guest
        → guest ≤ requested * page + prior
        → (k : ℕ) × (k * c.type_size + guest ≡ requested * page + prior)
    whole_elements n pages requested prior guest balance enough =
        let now = ap (λ (p : ℕ). pages * p) r.whole in
        let then_ = ap (λ (p : ℕ). requested * p) r.whole in
        let le =
          multiple-le (pages * r.per_page) (n + requested * r.per_page) c.type_size
            (omega (arith, typed, now, then_)) in
        let split : n + requested * r.per_page
            ≡ (n + requested * r.per_page - pages * r.per_page) + pages * r.per_page =
          omega arith in
        (
          n + requested * r.per_page - pages * r.per_page,
          omega (arith, now, then_, ap (λ (m : ℕ). m * c.type_size) split),
        )

    -- The container has the planned pages then, and as many bytes left on the last one as before.
    pub resized_pages :
        (nbr_of_pages o.page_shift start c.type_size count ≡ plan.requested)
        × (guest_bytes o.page_shift start c.type_size count ≡ plan.guest)
    resized_pages =
        let (k, e) =
          whole_elements c.elements_num plan.pages plan.requested plan.prior plan.guest
            (omega (
              arith,
              old.balance,
              plan_prior,
              plan_guest,
              plan_pages,
              ap (λ (m : ℕ). m * page) plan_pages,
            ))
            (omega (arith, capacity.1)) in
        let (pages, guest) =
          new_elements_num-exact o.page_shift w.vars w.context.containercontext_storage (length pre)
            new_size c resize k e (rw started fits) in
        (
          ap (λ (a : ℕ). nbr_of_pages o.page_shift a c.type_size count) (sym started) ∙ pages,
          ap (λ (a : ℕ). guest_bytes o.page_shift a c.type_size count) (sym started) ∙ guest,
        )

    -- The bytes of the elements, before and after.
    pub bytes_then :
        prior_free_bytes o.page_shift start + plan.requested * page
        ≡ c.type_size * count + plan.guest
    bytes_then = omega (
      arith,
      (Fits-Layout fits).balance,
      resized_pages.1,
      ap (λ (m : ℕ). m * page) resized_pages.0,
    )

    pub bytes_now :
        prior_free_bytes o.page_shift start + plan.pages * page
        ≡ c.type_size * c.elements_num + plan.guest
    bytes_now = omega (arith, old.balance, plan_guest, ap (λ (m : ℕ). m * page) plan_pages)
