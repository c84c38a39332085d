-- ===== src/Realloc/Moved.antt =====
-- Containers whose user pointers have moved by whole pages: the chain of a hyper-container behind a
-- container that has got another size.
use vcmalloc_bench.Base.{ℕ, ◌*◌, ◌^◌, ◌≡◌, refl, subst, ◌∙◌, arith, Bool, List, [], ◌∷◌}
use vcmalloc_bench.Container.{ContainerContext, next_address}
use vcmalloc_bench.Container.Layout.{Fits}
use vcmalloc_bench.Container.Shift.{Shift, Shift-unique, next_address-Shift, Shift-SameRests}
use vcmalloc_bench.Context.{assign}
use vcmalloc_bench.Context.Storage.{start_of}
use vcmalloc_bench.Realloc.{move_pointers}
use vcmalloc_bench.Context.Consistent.{Chain, pages_of, IsFresh, start_of-assign}

-- No two containers refer to the same pointer variable.
abbrev pub Apart : List ContainerContext → Type 0
Apart [] = Unit
Apart (c ∷ cs) = IsFresh c.reference cs × Apart cs

-- The pointers of the containers in one state and in another.
abbrev pub Moved : (ℕ → ℕ → Type 0) → (vars vars' : ℕ → ℕ) → List ContainerContext → Type 0
Moved R vars vars' [] = Unit
Moved R vars vars' (c ∷ cs) = R (start_of vars c) (start_of vars' c) × Moved R vars vars' cs

-- A chain of containers from an address on that stays inside the address space.
abbrev pub Inside : (s at : ℕ) → List ContainerContext → Type 0
Inside s at [] = Unit
Inside s at (c ∷ cs) =
    Fits s at c.type_size c.elements_num × Inside s (next_address at c.type_size c.elements_num) cs

module _ (s k : ℕ) (up : Bool) (vars vars' : ℕ → ℕ) where
  -- A chain whose pointers have all moved by the same pages is a chain, with as many pages.
  pub Chain-Moved :
      (at at' : ℕ) (cs : List ContainerContext)
      → Shift up (k * 2 ^ s) at at'
      → Chain s vars at cs
      → Inside s at' cs
      → Moved (Shift up (k * 2 ^ s)) vars vars' cs
      → Chain s vars' at' cs × (pages_of s vars' cs ≡ pages_of s vars cs)
  Chain-Moved at at' [] e chain inside moved = (tt, refl)
  Chain-Moved at at' (c ∷ cs) e (start, fits, behind) (fits', inside) (here, moved) =
      let start' : start_of vars' c ≡ at' =
        Shift-unique up (k * 2 ^ s) at _ _
          (subst (λ (a : ℕ). Shift up (k * 2 ^ s) a (start_of vars' c)) start here) e in
      let same = Shift-SameRests s k c.type_size c.elements_num up at at' e fits fits' in
      let (chain, pages) =
        Chain-Moved (next_address at c.type_size c.elements_num)
          (next_address at' c.type_size c.elements_num) cs
          (next_address-Shift up s (k * 2 ^ s) at at' c.type_size c.elements_num fits fits' e)
          behind inside moved in
      ((start', fits', chain), rw (start, start') (omega (arith, same.0, pages)))

module _ (move : ℕ → ℕ) where
  -- A variable to which no container refers.
  pub move_pointers_ne :
      (vars : ℕ → ℕ) (x : ℕ) (cs : List ContainerContext)
      → IsFresh x cs
      → move_pointers move vars cs x ≡ vars x
  unfolding move_pointers
  move_pointers_ne vars x [] fresh = refl
  move_pointers_ne vars x (c ∷ cs) fresh =
      move_pointers_ne (assign vars c.reference (move (vars c.reference))) x cs fresh.1
      ∙ ground (arith, fresh.0)

  Moved-assign :
      (R : ℕ → ℕ → Type 0) (vars vars' : ℕ → ℕ) (x a : ℕ) (cs : List ContainerContext)
      → IsFresh x cs
      → Moved R (assign vars x a) vars' cs
      → Moved R vars vars' cs
  Moved-assign R vars vars' x a [] fresh moved = tt
  Moved-assign R vars vars' x a (c ∷ cs) fresh (here, moved) = (
    subst (λ (b : ℕ). R b (start_of vars' c)) (start_of-assign 0 vars x a c fresh.0) here,
    Moved-assign R vars vars' x a cs fresh.1 moved,
  )

  -- Every pointer moves once.
  pub move_pointers-Moved :
      (vars : ℕ → ℕ) (cs : List ContainerContext)
      → Apart cs
      → Moved (λ a a'. a' ≡ move a) vars (move_pointers move vars cs) cs
  unfolding move_pointers
  move_pointers-Moved vars [] apart = tt
  move_pointers-Moved vars (c ∷ cs) apart = (
    move_pointers_ne (assign vars c.reference (move (vars c.reference))) c.reference cs apart.0
        ∙ ground arith,
    Moved-assign (λ a a'. a' ≡ move a) vars _ c.reference (move (vars c.reference)) cs apart.0
        (move_pointers-Moved (assign vars c.reference (move (vars c.reference))) cs apart.1),
  )
