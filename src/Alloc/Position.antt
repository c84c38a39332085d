-- ===== src/Alloc/Position.antt =====
-- Where ContainerAlloc puts a container, and how many pages it takes.
use native.Mathlib.Nat.{one-le-pow}
use vcmalloc_bench.Base.{
  ℕ, suc, ◌-◌, ◌*◌, ◌%◌, ◌^◌, ◌<◌, ◌≡◌, refl, ap, ◌∙◌, arith, false, some, inl, inr, Bool-cases,
  List, [], ◌∷◌, length, get_elem?, leb, leb→le, ◌==◌, w64, sub64_self, if◌then◌else◌,
}
use vcmalloc_bench.Container.{
  ContainerContext, mapping_address, next_address, next_mapping_address, nbr_of_pages, guest_bytes,
  prior_free_bytes,
}
use vcmalloc_bench.Container.Masks.{page_offset-mod}
use vcmalloc_bench.Container.Layout.{Fits, Fits-Layout, multiple-le}
use vcmalloc_bench.Pages.{ceil_pages, ceil_pages-bounds}
use vcmalloc_bench.Context.{HyperContainerContext}
use vcmalloc_bench.Context.Storage.{start_of}
use vcmalloc_bench.Context.Consistent.{Chain, chain_end, IsConsistent}
use vcmalloc_bench.Alloc.{Place, place_of, place_after}

-- The place at an address that is free from there on.
abbrev pub place_at : (s at : ℕ) → Place
place_at s at = record { mapping = mapping_address s at; next = at; left = prior_free_bytes s at }

module _ (s : ℕ) (vars : ℕ → ℕ) where
  -- The last container of a chain ends where the chain does.
  last_lem :
      (at : ℕ) (c : ContainerContext) (cs : List ContainerContext)
      → Chain s vars at (c ∷ cs)
      → (d : ContainerContext) × (get_elem? (c ∷ cs) (length cs) ≡ some d)
        × (next_address (start_of vars d) d.type_size d.elements_num ≡ chain_end at (c ∷ cs))
  last_lem at c [] chain =
      (c, refl, ap (λ (r : ℕ). next_address r c.type_size c.elements_num) chain.0)
  last_lem at c (d ∷ cs) chain = last_lem (next_address at c.type_size c.elements_num) d cs chain.2

  place_after-place_at :
      (d : ContainerContext)
      → place_after s vars d
        ≡ place_at s (next_address (start_of vars d) d.type_size d.elements_num)
  unfolding place_after next_mapping_address mapping_address guest_bytes prior_free_bytes
  place_after-place_at d = refl

  mapping_address-aligned : (base : ℕ) → s < 64 → base % 2 ^ s ≡ 0 → mapping_address s base ≡ base
  unfolding mapping_address
  mapping_address-aligned base low aligned = rw (page_offset-mod s base low, aligned)

  place_of-empty :
      (base : ℕ) (h : HyperContainerContext)
      → s < 64
      → base < w64
      → base % 2 ^ s ≡ 0
      → h.containers_num ≡ 0
      → place_of s vars h base ≡ some (place_at s base)
  unfolding place_of prior_free_bytes
  place_of-empty base h low small aligned none_yet =
      rw (none_yet, mapping_address-aligned base low aligned, sub64_self base small)

  place_of-last :
      (base : ℕ) (h : HyperContainerContext) (d : ContainerContext) (n : ℕ)
      → h.containers_num ≡ suc n
      → get_elem? h.containercontext_storage n ≡ some d
      → place_of s vars h base ≡ some (place_after s vars d)
  unfolding place_of
  place_of-last base h d n e at =
      let test : (suc n == 0) ≡ false = ground arith in
      let back : suc n - 1 ≡ n = omega arith in rw (e, test, back, at)

  place_of-cases :
      (base : ℕ) (h : HyperContainerContext) (cs : List ContainerContext)
      → h.containercontext_storage ≡ cs
      → s < 64
      → base < w64
      → base % 2 ^ s ≡ 0
      → h.containers_num ≡ length cs
      → Chain s vars base cs
      → place_of s vars h base ≡ some (place_at s (chain_end base cs))
  place_of-cases base h [] e low small aligned counted chain =
      place_of-empty base h low small aligned counted
  place_of-cases base h (c ∷ cs) e low small aligned counted chain =
      let (d, at, ends) = last_lem base c cs chain in
      place_of-last base h d (length cs) counted (rw e at)
      ∙ ap some (place_after-place_at d ∙ ap (place_at s) ends)

  -- In a well-formed hyper-container ContainerAlloc places a new container where the chain of
  -- containers ends, at the base address where there is none, with the bytes that the last page has
  -- left.
  pub place_of-chain_end :
      {base : ℕ} {h : HyperContainerContext}
      → IsConsistent s vars base h
      → s < 64
      → base < w64
      → place_of s vars h base ≡ some (place_at s (chain_end base h.containercontext_storage))
  place_of-chain_end {base} {h} is low small =
      place_of-cases base h h.containercontext_storage refl low small is.aligned is.counted.counted
        is.chain

-- A container below the last page of the address space with fewer than 2 ^ 53 bytes has no page of
-- its own if its bytes fit in the rest of the page that it starts on, and otherwise as many as
-- ContainerAlloc asks for.
pub new_pages :
    (s r ts n : ℕ)
    → Fits s r ts n
    → ts * n < 0x20_0000_0000_0000
    → nbr_of_pages s r ts n ≡ (
        if leb (ts * n) (prior_free_bytes s r)
        then 0
        else ceil_pages s (ts * n - prior_free_bytes s r))
new_pages s r ts n fits small =
    let pos = one-le-pow s 2 (omega arith) in
    let l = Fits-Layout fits in
    elim (Bool-cases (leb (ts * n) (prior_free_bytes s r))) [
      | inl within ↦
          let none_new =
            multiple-le (nbr_of_pages s r ts n) 0 (2 ^ s)
              (omega (arith, l.balance, l.guest_lt, leb→le _ _ within)) in
          rw within (omega arith)
      | inr beyond ↦
          let more : prior_free_bytes s r < ts * n = ground arith in
          let b = ceil_pages-bounds s (ts * n - prior_free_bytes s r) (omega arith) in
          let le =
            multiple-le (nbr_of_pages s r ts n) (ceil_pages s (ts * n - prior_free_bytes s r))
              (2 ^ s) (omega (arith, b.0, l.balance, l.guest_lt)) in
          let ge =
            multiple-le (ceil_pages s (ts * n - prior_free_bytes s r)) (nbr_of_pages s r ts n)
              (2 ^ s) (omega (arith, b.1, l.balance)) in
          rw beyond (omega arith)
    ]
