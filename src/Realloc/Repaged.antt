-- ===== src/Realloc/Repaged.antt =====
-- The pages and the bytes that the branches of ContainerRealloc leave.
use native.Mathlib.Decide.{dec_lt}
use vcmalloc_bench.Base.{
  ℕ, ◌+◌, ◌-◌, ◌*◌, ◌^◌, ◌≤◌, ◌<◌, ◌≡◌, ap, ◌∙◌, arith, some, List, ◌++◌, length, take, drop,
  get_elem?, get_or, get_elem?-eq-get_or, length-append, length-take,
}
use vcmalloc_bench.Machine.Os.{Os}
use vcmalloc_bench.Machine.Remap.{spliced_front, spliced_behind, joined_front, joined_behind}
use vcmalloc_bench.Machine.Content.{IsRepaged}
use vcmalloc_bench.Context.{Scene}
use vcmalloc_bench.Context.Room.{live, IsStored}
use vcmalloc_bench.Realloc.{Plan}
use vcmalloc_bench.Realloc.Moves.{IsObliging}
use vcmalloc_bench.Realloc.Growth.{Grown, IsGrowth}
use vcmalloc_bench.Realloc.Reduction.{Shrunk, IsReduction}

-- Bytes in front of a page boundary, behind the first page, are on a page.
some_page : (p k a n size : ℕ) → a + n ≡ (p + k) * size → p * size ≤ a → 0 < n → 0 < k
some_page p k a n size e above some_left = elim (dec_lt 0 k) [
  | yes positive ↦ positive
  | no none_below ↦
      let only : p + k ≡ p = omega arith in absurd (omega (arith, ap (λ (q : ℕ). q * size) only))
]

module _ {o : Os} (obliging : IsObliging o) (first_page : ℕ) (p : Plan) (w w' : Scene o)
    (is : IsStored w.context) where
  abbrev kept : ℕ
  kept = p.start_pfn + p.pages

  abbrev planned : ℕ
  planned = p.start_pfn + p.requested

  within : kept ≤ w.context.pfns_num → kept ≤ length (live w.context)
  within inside =
      omega (arith, is.cells, is.fits, length-take w.context.pfns_num w.context.pfns_storage)

  last_frame :
      (fs : List ℕ) (k : ℕ)
      → 0 < k
      → k ≤ length fs
      → get_elem? fs (k - 1) ≡ some (get_or fs (k - 1) 0)
  last_frame fs k positive le = get_elem?-eq-get_or fs (k - 1) 0 (omega arith)

  pub Grown-IsRepaged :
      IsGrowth obliging first_page p w
      → Grown obliging first_page p w w'
      → IsRepaged obliging.mmu first_page
          (live w.context)
          (live w'.context)
          w.os
          w'.os
          w.memory
          kept
          planned
          p.guest
          (get_or (live w'.context) (planned - 1) 0)
          (get_or (live w.context) (kept - 1) 0)
  Grown-IsRepaged g done =
      let le = within g.inside in
      let asked = done.asked in
      let size : planned ≤ length (live w'.context) = rw done.spliced (
        omega (
          arith,
          le,
          g.more,
          asked,
          length-take kept (live w.context),
          length-append (take kept (live w.context)) done.frames,
          length-append (take kept (live w.context) ++ done.frames) (drop kept (live w.context)),
        )) in
      record {
        before = g.mapped;
        now = done.mapped;
        front = λ i f below_k below_l e.
            ap (λ (l : List ℕ). get_elem? l i) done.spliced
            ∙ spliced_front kept (live w.context) done.frames i le below_k
            ∙ e;
        behind = λ i i' f above shift e.
            ap (λ (l : List ℕ). get_elem? l i') done.spliced
            ∙ spliced_behind kept (live w.context) done.frames i i' le above
                (omega (arith, g.more, asked))
            ∙ e;
        to_at = λ some_left.
            let positive : 0 < planned = omega (arith, g.more) in
            (positive, last_frame (live w'.context) planned positive size);
        from_at = λ some_left.
            let positive =
              some_page first_page kept p.next p.guest (2 ^ o.page_shift) g.guest_at g.above
                some_left in
            (positive, last_frame (live w.context) kept positive le);
        within = le;
        small = g.small;
      }

  pub Shrunk-IsRepaged :
      IsReduction obliging first_page p w
      → Shrunk obliging first_page p w w'
      → IsRepaged obliging.mmu first_page
          (live w.context)
          (live w'.context)
          w.os
          w'.os
          w.memory
          kept
          planned
          p.guest
          (get_or (live w.context) (planned - 1) 0)
          (get_or (live w.context) (kept - 1) 0)
  Shrunk-IsRepaged g done =
      let le = within g.inside in
      let short : planned ≤ length (live w.context) = omega (arith, le, g.less) in
      let count : first_page + kept ≡ first_page + planned + (p.pages - p.requested) =
        omega (arith, g.less) in
      let pages : (first_page + kept) * 2 ^ o.page_shift
          ≡ (first_page + planned) * 2 ^ o.page_shift + (p.pages - p.requested) * 2 ^ o.page_shift =
        ap (λ (q : ℕ). q * 2 ^ o.page_shift) count ∙ omega arith in
      record {
        before = g.mapped;
        now = done.mapped;
        front = λ i f below_k below_l e.
            ap (λ (l : List ℕ). get_elem? l i) done.spliced
            ∙ joined_front planned kept (live w.context) i short below_l
            ∙ e;
        behind = λ i i' f above shift e.
            ap (λ (l : List ℕ). get_elem? l i') done.spliced
            ∙ joined_behind planned kept (live w.context) i i' short above shift
            ∙ e;
        to_at = λ some_left.
            let positive =
              some_page first_page planned (p.next - (p.pages - p.requested) * 2 ^ o.page_shift)
                p.guest (2 ^ o.page_shift) (omega (arith, g.guest_at, g.above, pages))
                (omega (arith, g.above)) some_left in
            (
              positive,
              ap (λ (l : List ℕ). get_elem? l (planned - 1)) done.spliced
                  ∙ joined_front planned kept (live w.context) (planned - 1) short (omega arith)
                  ∙ last_frame (live w.context) planned positive short,
            );
        from_at = λ some_left.
            let positive =
              some_page first_page kept p.next p.guest (2 ^ o.page_shift) g.guest_at
                (omega (arith, g.above)) some_left in
            (positive, last_frame (live w.context) kept positive le);
        within = le;
        small = g.small;
      }
