-- ===== src/Realloc/Capacity.antt =====
-- What a plan of ContainerRealloc gives the container: room for the new size, and where the
-- element size divides the bytes an unchanged rest of the last page.
use native.Mathlib.Nat.{mul-div_left, le-div_iff_mul-le, div-mul-le_self}
use vcmalloc_bench.Base.{
  ℕ, ◌+◌, ◌-◌, ◌*◌, ◌/◌, ◌^◌, ◌≤◌, ◌<◌, ◌≡◌, ap, ◌∙◌, arith, List, add64, add64-exact, mul64-exact,
  sub64, sub64-exact, is_negative,
}
use vcmalloc_bench.Container.{ContainerContext, nbr_of_pages, guest_bytes, prior_free_bytes}
use vcmalloc_bench.Container.Layout.{Fits, Layout, Fits-Layout, multiple-le}
use vcmalloc_bench.Pages.{ceil_pages-bounds}
use vcmalloc_bench.Context.Storage.{start_of}
use vcmalloc_bench.Realloc.{Plan, requested_bytes, plan_of, new_elements_num}

-- With sizes far below 2 ^ 63 the INT64 is the difference, or negative.
requested_bytes_lem :
    (ts prior guest new_size : ℕ)
    → new_size * ts < 0x10_0000_0000_0000
    → prior < 0x4_0000_0000_0000
    → guest < 0x4_0000_0000_0000
    → requested_bytes ts prior guest new_size ≡ new_size * ts + guest - prior
unfolding requested_bytes add64 sub64 is_negative
requested_bytes_lem ts prior guest new_size h k l =
    rw (mul64-exact new_size ts (omega arith)) (ground arith)

-- Pages and guest bytes are determined by where a container ends.
Layout-unique :
    {s r ts n : ℕ}
    → Layout s r ts n
    → (pages guest : ℕ) → prior_free_bytes s r + pages * 2 ^ s ≡ ts * n + guest
    → guest < 2 ^ s
    → (nbr_of_pages s r ts n ≡ pages) × (guest_bytes s r ts n ≡ guest)
Layout-unique {s} {r} {ts} {n} l pages guest e small =
    let le =
      multiple-le (nbr_of_pages s r ts n) pages (2 ^ s) (omega (arith, l.balance, l.guest_lt)) in
    let ge = multiple-le pages (nbr_of_pages s r ts n) (2 ^ s) (omega (arith, l.balance)) in
    let same : nbr_of_pages s r ts n ≡ pages = omega arith in
    (same, omega (arith, l.balance, ap (λ (m : ℕ). m * 2 ^ s) same))

module _ (s : ℕ) (vars : ℕ → ℕ) (cs : List ContainerContext) (i new_size : ℕ)
    (c : ContainerContext) where
  abbrev plan : Plan
  plan = plan_of s vars cs i c c.type_size new_size

  -- What is asked of a call: a container below the last page of the address space, pages of at
  -- most 2 ^ 50 bytes, elements of some size, fewer than 2 ^ 52 bytes of them.
  pub record IsResize : Type 0 where
    pub fits : Fits s (start_of vars c) c.type_size c.elements_num
    pub page : 2 ^ s ≤ 0x4_0000_0000_0000
    pub typed : 0 < c.type_size
    pub bytes : new_size * c.type_size < 0x10_0000_0000_0000

  module _ (r : IsResize) where
    abbrev layout : Layout s (start_of vars c) c.type_size c.elements_num
    layout = Fits-Layout r.fits

    -- The bytes from the container's start to the end of its planned pages hold the new size
    -- and the guest.
    planned :
        (new_size * c.type_size + plan.guest ≤ plan.requested * 2 ^ s + plan.prior)
        × (plan.requested * 2 ^ s < 0x20_0000_0000_0000)
    unfolding plan_of
    planned =
        let l = layout in
        let exact =
          requested_bytes_lem c.type_size (prior_free_bytes s (start_of vars c))
            (guest_bytes s (start_of vars c) c.type_size c.elements_num) new_size r.bytes
            (omega (arith, l.prior_lt, r.page)) (omega (arith, l.guest_lt, r.page)) in
        let b =
          ceil_pages-bounds s
            (requested_bytes c.type_size (prior_free_bytes s (start_of vars c))
              (guest_bytes s (start_of vars c) c.type_size c.elements_num) new_size)
            (omega (arith, exact, r.bytes, l.guest_lt, r.page)) in
        (omega (arith, exact, b), omega (arith, exact, b, r.bytes, l.guest_lt, r.page))

    room : ℕ
    room = plan.requested * 2 ^ s + plan.prior - plan.guest

    new_elements_num_lem : new_elements_num s plan ≡ room / c.type_size
    unfolding new_elements_num plan_of room
    new_elements_num_lem =
        let l = layout in
        let (holds, small) = planned in
        let prior = prior_free_bytes s (start_of vars c) in
        rw (
          mul64-exact plan.requested (2 ^ s) (omega arith),
          add64-exact (plan.requested * 2 ^ s) prior (omega (arith, l.prior_lt, r.page)),
          sub64-exact (plan.requested * 2 ^ s + prior)
              (guest_bytes s (start_of vars c) c.type_size c.elements_num) (omega (arith, holds))
              (omega (arith, l.prior_lt, r.page)),
        )

    -- For a container below the last page of the address space, with pages of at most 2 ^ 50 bytes,
    -- elements of some size and fewer than 2 ^ 52 bytes asked for, the new element count of
    -- ContainerRealloc is at least the size that was asked for, and its elements end before the
    -- guest's bytes on the last planned page.
    pub new_elements_num-capacity :
        (new_size ≤ new_elements_num s plan)
        × (new_elements_num s plan * c.type_size + plan.guest ≤ plan.requested * 2 ^ s + plan.prior)
    unfolding room
    new_elements_num-capacity =
        let (holds, small) = planned in
        let enough : new_size * c.type_size ≤ room = omega arith in
        let under = div-mul-le_self room c.type_size in
        rw new_elements_num_lem ((le-div_iff_mul-le r.typed).1 enough, omega arith)

    -- For a container below the last page of the address space, before and after, with pages of at
    -- most 2 ^ 50 bytes, elements of some size and fewer than 2 ^ 52 bytes asked for, where the
    -- element size divides the bytes before the guest, the container with the new element count has
    -- exactly the planned pages and leaves as many bytes of its last page as before.
    pub new_elements_num-exact :
        (k : ℕ)
        → k * c.type_size + plan.guest ≡ plan.requested * 2 ^ s + plan.prior
        → Fits s (start_of vars c) c.type_size (new_elements_num s plan)
        → (nbr_of_pages s (start_of vars c) c.type_size (new_elements_num s plan) ≡ plan.requested)
          × (guest_bytes s (start_of vars c) c.type_size (new_elements_num s plan) ≡ plan.guest)
    unfolding room plan_of
    new_elements_num-exact k e fits =
        let l = layout in
        let whole : room ≡ k * c.type_size = omega arith in
        let count : new_elements_num s plan ≡ k =
          new_elements_num_lem ∙ ap (λ (b : ℕ). b / c.type_size) whole ∙ mul-div_left k r.typed in
        let bytes : c.type_size * new_elements_num s plan ≡ k * c.type_size =
          omega (arith, ap (λ (m : ℕ). c.type_size * m) count) in
        Layout-unique (Fits-Layout fits) plan.requested plan.guest (omega (arith, bytes, e))
          l.guest_lt
