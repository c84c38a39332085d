-- ===== src/Context/Consistent.antt =====
-- When a hyper-container is well formed: its containers follow one another from a page-aligned
-- address on, each inside the address space, and it counts as many frames as they have pages.
use vcmalloc_bench.Base.{ℕ, ◌+◌, ◌%◌, ◌^◌, ◌≡◌, ◌≢◌, refl, ◌∙◌, arith, List, [], ◌∷◌, ◌++◌}
use vcmalloc_bench.Container.{ContainerContext, nbr_of_pages, next_address}
use vcmalloc_bench.Container.Layout.{Fits}
use vcmalloc_bench.Context.{HyperContainerContext, assign}
use vcmalloc_bench.Context.Storage.{start_of}
use vcmalloc_bench.Context.Room.{IsStored}
use vcmalloc_bench.Context.Insert.{IsCounted}

-- Where a chain of containers ends.
abbrev pub chain_end : ℕ → List ContainerContext → ℕ
chain_end at [] = at
chain_end at (c ∷ cs) = chain_end (next_address at c.type_size c.elements_num) cs

module _ (s : ℕ) (vars : ℕ → ℕ) where
  -- Each container starts where the one before it ends.
  abbrev pub Chain : ℕ → List ContainerContext → Type 0
  Chain at [] = Unit
  Chain at (c ∷ cs) =
      (start_of vars c ≡ at)
      × Fits s at c.type_size c.elements_num
      × Chain (next_address at c.type_size c.elements_num) cs

  -- The pages of the containers, as a plain sum.
  abbrev pub pages_of : List ContainerContext → ℕ
  pages_of [] = 0
  pages_of (c ∷ cs) = nbr_of_pages s (start_of vars c) c.type_size c.elements_num + pages_of cs

  pub pages_of-append :
      (cs ds : List ContainerContext) → pages_of (cs ++ ds) ≡ pages_of cs + pages_of ds
  pages_of-append [] ds = omega arith
  pages_of-append (c ∷ cs) ds = omega (arith, pages_of-append cs ds)

-- No container refers to the pointer variable `x`.
abbrev pub IsFresh : ℕ → List ContainerContext → Type 0
IsFresh x [] = Unit
IsFresh x (c ∷ cs) = (c.reference ≢ x) × IsFresh x cs

pub record IsConsistent (s : ℕ) (vars : ℕ → ℕ) (base : ℕ) (h : HyperContainerContext) : Type 0 where
  pub aligned : base % 2 ^ s ≡ 0
  pub chain : Chain s vars base h.containercontext_storage
  pub backed : h.pfns_num ≡ pages_of s vars h.containercontext_storage
  pub counted : IsCounted h
  pub stored : IsStored h

module _ (s : ℕ) (vars : ℕ → ℕ) (x a : ℕ) where
  pub start_of-assign :
      (c : ContainerContext) → c.reference ≢ x → start_of (assign vars x a) c ≡ start_of vars c
  start_of-assign c ne = ground arith

  -- An assignment to another pointer variable leaves the chain and its pages alone.
  pub Chain-assign :
      (at : ℕ) (cs : List ContainerContext)
      → IsFresh x cs
      → Chain s vars at cs
      → Chain s (assign vars x a) at cs
  Chain-assign at [] fresh chain = tt
  Chain-assign at (c ∷ cs) fresh chain = (
    start_of-assign c fresh.0 ∙ chain.0,
    chain.1,
    Chain-assign (next_address at c.type_size c.elements_num) cs fresh.1 chain.2,
  )

  pub pages_of-assign :
      (cs : List ContainerContext)
      → IsFresh x cs
      → pages_of s (assign vars x a) cs ≡ pages_of s vars cs
  pages_of-assign [] fresh = refl
  pages_of-assign (c ∷ cs) fresh =
      rw (start_of-assign c fresh.0) (omega (arith, pages_of-assign cs fresh.1))

module _ (s : ℕ) (vars : ℕ → ℕ) (c : ContainerContext) where
  -- A container that starts at the end of a chain continues it.
  pub Chain-append :
      (at : ℕ) (cs : List ContainerContext)
      → Chain s vars at cs
      → start_of vars c ≡ chain_end at cs
      → Fits s (chain_end at cs) c.type_size c.elements_num
      → Chain s vars at (cs ++ c ∷ [])
  Chain-append at [] chain e fits = (e, fits, tt)
  Chain-append at (d ∷ cs) chain e fits = (
    chain.0,
    chain.1,
    Chain-append (next_address at d.type_size d.elements_num) cs chain.2 e fits,
  )
