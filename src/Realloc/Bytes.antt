-- ===== src/Realloc/Bytes.antt =====
-- The bytes of the containers, when the pages are changed as ContainerRealloc changes them.
use vcmalloc_bench.Base.{
  ℕ, ◌+◌, ◌*◌, ◌^◌, ◌≤◌, ◌<◌, ◌≡◌, ap, ◌∙◌, arith, List, ◌∷◌, ◌++◌, length, length-take,
}
use vcmalloc_bench.Machine.Os.{Os}
use vcmalloc_bench.Machine.Memory.{Memory, read_byte}
use vcmalloc_bench.Machine.Mmu.{IsMmu}
use vcmalloc_bench.Machine.Content.{IsRepaged, kept_at, moved_at}
use vcmalloc_bench.Container.{ContainerContext}
use vcmalloc_bench.Context.{Scene}
use vcmalloc_bench.Context.Room.{live}
use vcmalloc_bench.Context.Consistent.{IsConsistent, chain_end}
use vcmalloc_bench.Realloc.{Plan}
use vcmalloc_bench.Realloc.Moves.{guest_memory}
use vcmalloc_bench.Realloc.Request.{IsResizable, plan, count}
use vcmalloc_bench.Realloc.Placed.{first_page, start_above, end_now, end_then, end_mapped, base_lem}

module _ {o : Os} (mmu : IsMmu o) (base new_size : ℕ) (w : Scene o) (pre : List ContainerContext)
    (c : ContainerContext) (post : List ContainerContext)
    (is : IsConsistent o.page_shift w.vars base w.context)
    (r : IsResizable base new_size w pre c post) where
  abbrev p : Plan
  p = plan base new_size w pre c post

  abbrev start : ℕ
  start = chain_end base pre

  -- The address behind the container, if it has `n` elements.
  abbrev pub ends : ℕ → ℕ
  ends n = start + c.type_size * n

  -- The bytes of the hyper-container up to the shorter end of the container stay.
  abbrev pub Kept : ℕ → Scene o → Type 0
  Kept n w' =
      (a : ℕ)
      → base ≤ a
      → a < ends c.elements_num
      → a < ends n
      → read_byte o w'.os w'.memory a ≡ read_byte o w.os w.memory a

  -- The bytes of the containers behind it have moved with its end.
  abbrev pub Moved : ℕ → Scene o → Type 0
  Moved n w' =
      (i : ℕ)
      → ends c.elements_num + i < chain_end base (pre ++ c ∷ post)
      → read_byte o w'.os w'.memory (ends n + i)
        ≡ read_byte o w.os w.memory (ends c.elements_num + i)

  module _ (w' : Scene o) (gs : List ℕ) (to from : ℕ)
      (re : IsRepaged mmu
        (first_page base new_size w pre c post is r)
        (live w.context)
        gs
        w.os
        w'.os
        w.memory
        (p.start_pfn + p.pages)
        (p.start_pfn + p.requested)
        p.guest
        to
        from)
      (same : w'.memory ≡ guest_memory o w.memory to from p.guest) where
    pub Kept-lem : Kept (count base new_size w pre c post) w'
    Kept-lem a above below below' =
        let now = end_now base new_size w pre c post is r in
        let then_ = end_then base new_size w pre c post is r in
        ap (λ (m : Memory). read_byte o w'.os m a) same
        ∙ kept_at mmu _ _ gs w.os w'.os w.memory _ _ p.guest to from re a
            (omega (arith, base_lem base new_size w pre c post is r)) (omega (arith, now))
            (omega (arith, then_))

    pub Moved-lem : Moved (count base new_size w pre c post) w'
    Moved-lem i below =
        let now = end_now base new_size w pre c post is r in
        let then_ = end_then base new_size w pre c post is r in
        let at = base_lem base new_size w pre c post is r in
        let above = start_above base new_size w pre c post is r in
        let counted : (first_page base new_size w pre c post is r + length (live w.context))
            ≡ (first_page base new_size w pre c post is r + w.context.pfns_num) =
          omega (
            arith,
            is.stored.cells,
            is.stored.fits,
            length-take w.context.pfns_num w.context.pfns_storage,
          ) in
        let mapped = ap (λ (q : ℕ). q * 2 ^ o.page_shift) counted in
        ap (λ (m : Memory). read_byte o w'.os m (ends (count base new_size w pre c post) + i)) same
        ∙ moved_at mmu _ _ gs w.os w'.os w.memory _ _ p.guest to from re (ends c.elements_num + i)
            (ends (count base new_size w pre c post) + i) (omega (arith, at, above))
            (omega (arith, now))
            (omega (arith, mapped, below, end_mapped base new_size w pre c post is r))
            (omega (arith, at, above)) (omega (arith, now, then_))
