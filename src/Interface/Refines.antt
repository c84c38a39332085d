-- ===== src/Interface/Refines.antt =====
-- The functions of the interface against the map from addresses to contexts.
use mathlib.Core.Option.{some-injective, none-ne-some}
use vcmalloc_bench.Base.{
  ℕ, suc, ◌≡◌, refl, arith, some, List, [], ◌∷◌, ◌==◌, inl, inr, Bool-cases, sym, ◌∙◌,
}
use vcmalloc_bench.Machine.Os.{Os}
use vcmalloc_bench.Machine.Run.{Cmd}
use vcmalloc_bench.Machine.Returns.{Returns, mono}
use vcmalloc_bench.Context.{HyperContainerContext, Scene}
use vcmalloc_bench.Manager.{World}
use vcmalloc_bench.Interface.{scene_of, with_context}
use vcmalloc_bench.Interface.Managed.{IsManaged, At}
use vcmalloc_bench.Interface.Lookup.{with_context-Returns}
use vcmalloc_bench.Interface.Contexts.{context_of, contexts, update, world_of-contexts}

-- An address that the map knows has an entry in the arrays.
At-context_of :
    (a : ℕ) (h : HyperContainerContext) (ps : List ℕ) (hs : List HyperContainerContext)
    → context_of ps hs a ≡ some h
    → (i : ℕ) × At i a h ps hs
At-context_of a h [] hs e = absurd (none-ne-some h e)
At-context_of a h (p ∷ ps) [] e = absurd (none-ne-some h e)
At-context_of a h (p ∷ ps) (k ∷ hs) e = elim (Bool-cases (p == a)) [
  | inl here ↦
      let same : some k ≡ some h = sym (rw here refl) ∙ e in
      (0, (ground arith, some-injective k h same))
  | inr other ↦ let (i, at) = At-context_of a h ps hs (rw other at e) in (suc i, at)
]

module _ {o : Os} (w : World o) (is : IsManaged w) where
  -- On a well-formed manager, seen as a map from addresses to contexts, a function of the interface
  -- that works on the context of a known address, and ends there with a state, ends with that state
  -- in the world and with the map in which the address has the new context, and every other address
  -- the one from before.
  pub with_context-update :
      {A : Type 0} {P : A → Scene o → Type 0} (command : Cmd (Scene o) A) (a : ℕ)
      (h : HyperContainerContext)
      → contexts w a ≡ some h
      → Returns P (command (scene_of w h))
      → Returns
          (λ r w'.
            (c : Scene o) × P r c
            × (scene_of w' c.context ≡ c)
            × ((b : ℕ) → contexts w' b ≡ update (contexts w) a (some c.context) b))
          (with_context a command w)
  with_context-update command a h known done =
      let (i, at) = At-context_of a h w.hcm.pointers_storage w.hcm.hyper_containers_storage known in
      mono (with_context-Returns w is i a h at command done)
        λ r w' (c, p, e). (c, p, rw e refl, rw e (world_of-contexts w i a h c is at).1)
