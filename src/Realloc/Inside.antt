-- ===== src/Realloc/Inside.antt =====
-- The frames of a plan of ContainerRealloc, in a well-formed hyper-container.
use mathlib.Core.Option.{some-injective}
use vcmalloc_bench.Base.{
  ℕ, zero, suc, ◌+◌, ◌≤◌, ◌<◌, ◌≡◌, refl, ap, arith, some, List, [], ◌∷◌, get_elem?, take, w64,
  add64-exact,
}
use vcmalloc_bench.Container.{ContainerContext, nbr_of_pages}
use vcmalloc_bench.Context.{HyperContainerContext}
use vcmalloc_bench.Context.Storage.{start_of, pfns_position}
use vcmalloc_bench.Context.Consistent.{pages_of, IsConsistent}
use vcmalloc_bench.Realloc.{plan_of}

module _ (s : ℕ) (vars : ℕ → ℕ) where
  pub pfns_position-pages_of :
      (cs : List ContainerContext)
      → pages_of s vars cs < w64
      → pfns_position s vars cs ≡ pages_of s vars cs
  unfolding pfns_position
  pfns_position-pages_of [] h = refl
  pfns_position-pages_of (c ∷ cs) h =
      let rest = pfns_position-pages_of cs (omega arith) in
      rw rest (
        add64-exact (nbr_of_pages s (start_of vars c) c.type_size c.elements_num)
          (pages_of s vars cs) h)

  pages_of-take :
      (cs : List ContainerContext) (i : ℕ) (c : ContainerContext)
      → get_elem? cs i ≡ some c
      → pages_of s vars (take i cs) + pages_of s vars (c ∷ []) ≤ pages_of s vars cs
  pages_of-take [] i c e = absurd cc
  pages_of-take (d ∷ cs) zero c e =
      let same : pages_of s vars (d ∷ []) ≡ pages_of s vars (c ∷ []) =
        ap (λ (x : ContainerContext). pages_of s vars (x ∷ [])) (some-injective d c e) in
      omega (arith, same)
  pages_of-take (d ∷ cs) (suc i) c e = omega (arith, pages_of-take cs i c e)

  -- In a well-formed hyper-container the frames that ContainerRealloc plans with, from the position
  -- that getPFNsPosition gives for a container over as many as the container has pages, are among
  -- the frames that are counted.
  pub plan_of-inside :
      (base : ℕ) (h : HyperContainerContext) (i : ℕ) (c : ContainerContext) (size new_size : ℕ)
      → IsConsistent s vars base h
      → get_elem? h.containercontext_storage i ≡ some c
      → (plan_of s vars h.containercontext_storage i c size new_size).start_pfn
          + (plan_of s vars h.containercontext_storage i c size new_size).pages
        ≤ h.pfns_num
  unfolding plan_of
  plan_of-inside base h i c size new_size is e =
      let inside = pages_of-take h.containercontext_storage i c e in
      let exact =
        pfns_position-pages_of (take i h.containercontext_storage)
          (omega (arith, is.backed, is.stored.fits, is.stored.bounded)) in
      omega (arith, is.backed)
