-- ===== src/Interface/Contexts.antt =====
-- The manager seen as a finite map from addresses to contexts, and what the changes of its arrays
-- are to that map.
use vcmalloc_bench.Base.{
  ℕ, zero, suc, ◌+◌, ◌≤◌, ◌<◌, ◌≡◌, refl, ap, arith, true, false, Option, none, some, List, [], ◌∷◌,
  ◌++◌, take, drop, ◌==◌, if◌then◌else◌, inl, inr, Bool-cases,
}
use vcmalloc_bench.Machine.Os.{Os}
use vcmalloc_bench.Context.{HyperContainerContext, Scene}
use vcmalloc_bench.Manager.{World}
use vcmalloc_bench.Interface.{set_context, world_of}
use vcmalloc_bench.Interface.Managed.{IsEntry, Entries, IsManaged, At}

-- The context of the hyper-container at an address.
abbrev pub context_of : List ℕ → List HyperContainerContext → ℕ → Option HyperContainerContext
context_of [] hs b = none
context_of (p ∷ ps) [] b = none
context_of (p ∷ ps) (h ∷ hs) b = if p == b then some h else context_of ps hs b

abbrev pub contexts : {o : Os} → World o → ℕ → Option HyperContainerContext
contexts w = context_of w.hcm.pointers_storage w.hcm.hyper_containers_storage

-- The map with another value at one address.
abbrev pub update :
    (ℕ → Option HyperContainerContext)
    → ℕ
    → Option HyperContainerContext
    → ℕ
    → Option HyperContainerContext
update f a x b = if a == b then x else f b

-- Where the reserved addresses end.
abbrev pub regions_end : ℕ → List ℕ → List HyperContainerContext → ℕ
regions_end lo [] hs = lo
regions_end lo (p ∷ ps) [] = lo
regions_end lo (p ∷ ps) (h ∷ hs) = regions_end (p + h.hypercontainer_size) ps hs

module _ (u s : ℕ) (vars : ℕ → ℕ) where
  -- Below the first hyper-container there is none.
  context_of-below :
      (lo b : ℕ) (ps : List ℕ) (hs : List HyperContainerContext)
      → Entries u s vars lo ps hs
      → b < lo
      → context_of ps hs b ≡ none
  context_of-below lo b [] hs is lt = refl
  context_of-below lo b (p ∷ ps) [] is lt = refl
  context_of-below lo b (p ∷ ps) (h ∷ hs) (e, behind) lt =
      let rest =
        context_of-below (p + h.hypercontainer_size) b ps hs behind (omega (arith, e.above)) in
      let other : (p == b) ≡ false = ground (arith, e.above) in rw other rest

  At-above :
      (lo i a : ℕ) (h : HyperContainerContext) (ps : List ℕ) (hs : List HyperContainerContext)
      → Entries u s vars lo ps hs
      → At i a h ps hs
      → lo ≤ a
  At-above lo i a h [] hs is at = absurd at
  At-above lo i a h (p ∷ ps) [] is at = absurd at
  At-above lo zero a h (p ∷ ps) (k ∷ hs) (e, behind) at = omega (arith, e.above, at.0)
  At-above lo (suc i) a h (p ∷ ps) (k ∷ hs) (e, behind) at =
      let rest = At-above (p + k.hypercontainer_size) i a h ps hs behind at in
      omega (arith, e.above)

  At-behind :
      (lo i a p : ℕ) (h k : HyperContainerContext) (ps : List ℕ) (hs : List HyperContainerContext)
      → IsEntry u s vars lo p k
      → Entries u s vars (p + k.hypercontainer_size) ps hs
      → At i a h ps hs
      → p < a
  At-behind lo i a p h k ps hs e behind at =
      let above = At-above (p + k.hypercontainer_size) i a h ps hs behind at in
      omega (arith, e.sized)

  pub context_of-At :
      (lo i a : ℕ) (h : HyperContainerContext) (ps : List ℕ) (hs : List HyperContainerContext)
      → Entries u s vars lo ps hs
      → At i a h ps hs
      → context_of ps hs a ≡ some h
  context_of-At lo i a h [] hs is at = absurd at
  context_of-At lo i a h (p ∷ ps) [] is at = absurd at
  context_of-At lo zero a h (p ∷ ps) (k ∷ hs) (e, behind) (ep, ek) =
      let here : (p == a) ≡ true = ground arith in rw here (ap some ek)
  context_of-At lo (suc i) a h (p ∷ ps) (k ∷ hs) (e, behind) at =
      let lt = At-behind lo i a p h k ps hs e behind at in
      let other : (p == a) ≡ false = ground arith in
      rw other (context_of-At (p + k.hypercontainer_size) i a h ps hs behind at)

  pub context_of-set :
      (lo i a : ℕ) (h h' : HyperContainerContext) (ps : List ℕ) (hs : List HyperContainerContext)
      → Entries u s vars lo ps hs
      → At i a h ps hs
      → (b : ℕ) → context_of ps (set_context hs i h') b ≡ update (context_of ps hs) a (some h') b
  context_of-set lo i a h h' [] hs is at b = absurd at
  context_of-set lo i a h h' (p ∷ ps) [] is at b = absurd at
  context_of-set lo zero a h h' (p ∷ ps) (k ∷ hs) (e, behind) (ep, ek) b =
      rw ep (elim (Bool-cases (a == b)) [ inl here ↦ rw here refl | inr other ↦ rw other refl ])
  context_of-set lo (suc i) a h h' (p ∷ ps) (k ∷ hs) (e, behind) at b =
      let lt = At-behind lo i a p h k ps hs e behind at in
      let rest = context_of-set (p + k.hypercontainer_size) i a h h' ps hs behind at b in
      elim (Bool-cases (p == b)) [
        | inl here ↦ let other : (a == b) ≡ false = ground arith in rw (here, other) refl
        | inr other ↦ rw other rest
      ]

  pub context_of-remove :
      (lo i a : ℕ) (h : HyperContainerContext) (ps : List ℕ) (hs : List HyperContainerContext)
      → Entries u s vars lo ps hs
      → At i a h ps hs
      → (b : ℕ)
      → context_of (take i ps ++ drop (suc i) ps) (take i hs ++ drop (suc i) hs) b
        ≡ update (context_of ps hs) a none b
  context_of-remove lo i a h [] hs is at b = absurd at
  context_of-remove lo i a h (p ∷ ps) [] is at b = absurd at
  context_of-remove lo zero a h (p ∷ ps) (k ∷ hs) (e, behind) (ep, ek) b =
      elim (Bool-cases (a == b)) [
        | inl here ↦
            rw here (
              context_of-below (p + k.hypercontainer_size) b ps hs behind (ground (arith, e.sized)))
        | inr other ↦ let differs : (p == b) ≡ false = ground arith in rw (other, differs) refl
      ]
  context_of-remove lo (suc i) a h (p ∷ ps) (k ∷ hs) (e, behind) at b =
      let lt = At-behind lo i a p h k ps hs e behind at in
      let rest = context_of-remove (p + k.hypercontainer_size) i a h ps hs behind at b in
      elim (Bool-cases (p == b)) [
        | inl here ↦ let other : (a == b) ≡ false = ground arith in rw (here, other) refl
        | inr other ↦ rw other rest
      ]

  pub regions_end_above :
      (lo : ℕ) (ps : List ℕ) (hs : List HyperContainerContext)
      → Entries u s vars lo ps hs
      → lo ≤ regions_end lo ps hs
  regions_end_above lo [] [] is = omega arith
  regions_end_above lo [] (h ∷ hs) is = absurd is
  regions_end_above lo (p ∷ ps) [] is = absurd is
  regions_end_above lo (p ∷ ps) (h ∷ hs) (e, behind) =
      let above = regions_end_above (p + h.hypercontainer_size) ps hs behind in
      omega (arith, e.above)

  pub context_of-append :
      (lo a : ℕ) (h : HyperContainerContext) (ps : List ℕ) (hs : List HyperContainerContext)
      → Entries u s vars lo ps hs
      → regions_end lo ps hs ≤ a
      → (b : ℕ)
      → context_of (ps ++ a ∷ []) (hs ++ h ∷ []) b ≡ update (context_of ps hs) a (some h) b
  context_of-append lo a h [] [] is above b = refl
  context_of-append lo a h [] (k ∷ hs) is above b = absurd is
  context_of-append lo a h (p ∷ ps) [] is above b = absurd is
  context_of-append lo a h (p ∷ ps) (k ∷ hs) (e, behind) above b =
      let lt = regions_end_above (p + k.hypercontainer_size) ps hs behind in
      let rest = context_of-append (p + k.hypercontainer_size) a h ps hs behind above b in
      elim (Bool-cases (p == b)) [
        | inl here ↦ let other : (a == b) ≡ false = ground (arith, e.sized) in rw (here, other) refl
        | inr other ↦ rw other rest
      ]

-- The context with an index is replaced: the map has another value at its address.
pub world_of-contexts :
    {o : Os} (w : World o) (i a : ℕ) (h : HyperContainerContext) (c : Scene o)
    → IsManaged w
    → At i a h w.hcm.pointers_storage w.hcm.hyper_containers_storage
    → (contexts w a ≡ some h)
      × ((b : ℕ) → contexts (world_of w i c) b ≡ update (contexts w) a (some c.context) b)
world_of-contexts {o} w i a h c is at = (
  context_of-At o.granularity o.page_shift w.vars 1 i a h w.hcm.pointers_storage
      w.hcm.hyper_containers_storage is.entries at,
  context_of-set o.granularity o.page_shift w.vars 1 i a h c.context w.hcm.pointers_storage
      w.hcm.hyper_containers_storage is.entries at,
)
