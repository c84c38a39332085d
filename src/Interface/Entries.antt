-- ===== src/Interface/Entries.antt =====
-- A hyper-container among others changes, and the others are as well formed as before.
use vcmalloc_bench.Base.{ℕ, zero, suc, ◌+◌, ◌≡◌, refl, sym, ap, ◌∙◌, arith, List, [], ◌∷◌}
use vcmalloc_bench.Container.{ContainerContext, next_address}
use vcmalloc_bench.Context.{HyperContainerContext, assign}
use vcmalloc_bench.Context.Storage.{start_of}
use vcmalloc_bench.Context.Consistent.{IsConsistent, Chain, pages_of, IsFresh, start_of-assign}
use vcmalloc_bench.Interface.{set_context}
use vcmalloc_bench.Interface.Managed.{IsEntry, Entries, At}

-- The containers start at the same addresses in both states.
abbrev pub Agree : (vars vars' : ℕ → ℕ) → List ContainerContext → Type 0
Agree vars vars' [] = Unit
Agree vars vars' (c ∷ cs) = (start_of vars' c ≡ start_of vars c) × Agree vars vars' cs

abbrev pub Each : (HyperContainerContext → Type 0) → List HyperContainerContext → Type 0
Each P [] = Unit
Each P (h ∷ hs) = P h × Each P hs

-- A property of the contexts with another index than `i`.
abbrev pub Others : (HyperContainerContext → Type 0) → ℕ → List HyperContainerContext → Type 0
Others P i [] = Unit
Others P zero (h ∷ hs) = Each P hs
Others P (suc i) (h ∷ hs) = P h × Others P i hs

module _ {P Q : HyperContainerContext → Type 0}
    (weaken : (h : HyperContainerContext) → P h → Q h) where
  Each-map : (hs : List HyperContainerContext) → Each P hs → Each Q hs
  Each-map [] each = tt
  Each-map (h ∷ hs) (here, each) = (weaken h here, Each-map hs each)

  pub Others-map : (i : ℕ) (hs : List HyperContainerContext) → Others P i hs → Others Q i hs
  Others-map i [] others = tt
  Others-map zero (h ∷ hs) others = Each-map hs others
  Others-map (suc i) (h ∷ hs) (here, others) = (weaken h here, Others-map i hs others)

module _ (u s : ℕ) (vars vars' : ℕ → ℕ) where
  Chain-Agree :
      (at : ℕ) (cs : List ContainerContext)
      → Agree vars vars' cs
      → Chain s vars at cs
      → Chain s vars' at cs
  Chain-Agree at [] agree chain = tt
  Chain-Agree at (c ∷ cs) agree chain = (
    agree.0 ∙ chain.0,
    chain.1,
    Chain-Agree (next_address at c.type_size c.elements_num) cs agree.1 chain.2,
  )

  pages_of-Agree :
      (cs : List ContainerContext) → Agree vars vars' cs → pages_of s vars' cs ≡ pages_of s vars cs
  pages_of-Agree [] agree = refl
  pages_of-Agree (c ∷ cs) agree = rw agree.0 (omega (arith, pages_of-Agree cs agree.1))

  abbrev pub Kept : HyperContainerContext → Type 0
  Kept h = Agree vars vars' h.containercontext_storage

  IsEntry-Agree :
      (lo p : ℕ) (h : HyperContainerContext)
      → Kept h
      → IsEntry u s vars lo p h
      → IsEntry u s vars' lo p h
  IsEntry-Agree lo p h agree e = record {
    above = e.above;
    sized = e.sized;
    low = e.low;
    unit = e.unit;
    units = e.units;
    consistent = record {
      aligned = e.consistent.aligned;
      chain = Chain-Agree p h.containercontext_storage agree e.consistent.chain;
      backed = e.consistent.backed ∙ sym (pages_of-Agree h.containercontext_storage agree);
      counted = e.consistent.counted;
      stored = e.consistent.stored;
    };
  }

  Entries-Agree :
      (lo : ℕ) (ps : List ℕ) (hs : List HyperContainerContext)
      → Each Kept hs
      → Entries u s vars lo ps hs
      → Entries u s vars' lo ps hs
  Entries-Agree lo [] [] each is = tt
  Entries-Agree lo [] (h ∷ hs) each is = absurd is
  Entries-Agree lo (p ∷ ps) [] each is = absurd is
  Entries-Agree lo (p ∷ ps) (h ∷ hs) (here, each) (e, behind) =
      (IsEntry-Agree lo p h here e, Entries-Agree (p + h.hypercontainer_size) ps hs each behind)

  -- One context is replaced by a well-formed one of the same size.
  pub Entries-set :
      (lo i a : ℕ) (h h' : HyperContainerContext) (ps : List ℕ) (hs : List HyperContainerContext)
      → At i a h ps hs
      → h'.hypercontainer_size ≡ h.hypercontainer_size
      → IsConsistent s vars' a h'
      → Others Kept i hs
      → Entries u s vars lo ps hs
      → Entries u s vars' lo ps (set_context hs i h')
  Entries-set lo i a h h' [] hs at size ok others is = absurd at
  Entries-set lo i a h h' (p ∷ ps) [] at size ok others is = absurd at
  Entries-set lo zero a h h' (p ∷ ps) (g ∷ hs) (ep, eg) size ok others (e, behind) =
      let same : h'.hypercontainer_size ≡ g.hypercontainer_size =
        size ∙ ap (λ (k : HyperContainerContext). k.hypercontainer_size) (sym eg) in
      (
        record {
          above = e.above;
          sized = omega (arith, same, e.sized);
          low = omega (arith, same, e.low);
          consistent = rw ep ok;
          unit = e.unit;
          units = rw same e.units;
        },
        rw same (Entries-Agree (p + g.hypercontainer_size) ps hs others behind),
      )
  Entries-set lo (suc i) a h h' (p ∷ ps) (g ∷ hs) at size ok (here, others) (e, behind) = (
    IsEntry-Agree lo p g here e,
    Entries-set (p + g.hypercontainer_size) i a h h' ps hs at size ok others behind,
  )

module _ (u s : ℕ) (vars : ℕ → ℕ) where
  pub Entries-consistent :
      (lo i a : ℕ) (h : HyperContainerContext) (ps : List ℕ) (hs : List HyperContainerContext)
      → At i a h ps hs
      → Entries u s vars lo ps hs
      → IsConsistent s vars a h
  Entries-consistent lo i a h [] hs at is = absurd at
  Entries-consistent lo i a h (p ∷ ps) [] at is = absurd at
  Entries-consistent lo zero a h (p ∷ ps) (g ∷ hs) (ep, eg) (e, behind) =
      rw (sym ep, sym eg) e.consistent
  Entries-consistent lo (suc i) a h (p ∷ ps) (g ∷ hs) at (e, behind) =
      Entries-consistent (p + g.hypercontainer_size) i a h ps hs at behind

  -- An assignment to a variable that no container refers to.
  pub Agree-assign :
      (x a : ℕ) (cs : List ContainerContext) → IsFresh x cs → Agree vars (assign vars x a) cs
  Agree-assign x a [] fresh = tt
  Agree-assign x a (c ∷ cs) fresh =
      (start_of-assign s vars x a c fresh.0, Agree-assign x a cs fresh.1)
