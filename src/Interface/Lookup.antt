-- ===== src/Interface/Lookup.antt =====
-- The functions of the interface that look an address up and work on its context: what the
-- function on the context does, and that all hyper-containers are well formed after it.
use vcmalloc_bench.Base.{ℕ, ◌/◌, ◌^◌, ◌≤◌, ◌<◌, ◌≡◌, ◌≢◌, refl, List, [], ◌∷◌, length, sign64}
use vcmalloc_bench.Machine.Os.{Os}
use vcmalloc_bench.Machine.Run.{Cmd, throw, container_not_found}
use vcmalloc_bench.Machine.Mmu.{IsMapped}
use vcmalloc_bench.Context.Room.{live}
use vcmalloc_bench.Machine.Returns.{Returns, returns, mono, outcome}
use vcmalloc_bench.Search.Down.{◌!◌}
use vcmalloc_bench.Container.{ContainerContext}
use vcmalloc_bench.Context.{HyperContainerContext, Scene}
use vcmalloc_bench.Context.Consistent.{IsConsistent, IsFresh}
use vcmalloc_bench.Alloc.{container_alloc}
use vcmalloc_bench.Alloc.Frames.{IsWilling}
use vcmalloc_bench.Alloc.Correct.{IsRequest, Allocated, container_alloc-Allocated}
use vcmalloc_bench.Realloc.{container_realloc}
use vcmalloc_bench.Realloc.Moves.{IsObliging}
use vcmalloc_bench.Realloc.Request.{IsResizable}
use vcmalloc_bench.Realloc.Outcome.{Resized}
use vcmalloc_bench.Realloc.Correct.{container_realloc-Resized}
use vcmalloc_bench.Manager.{World}
use vcmalloc_bench.Interface.{scene_of, world_of, on_context, with_context, vcmalloc, vcrealloc}
use vcmalloc_bench.Interface.Managed.{
  IsManaged, At, At-context, find_hyper_container-found, find_hyper_container-missing,
}
use vcmalloc_bench.Interface.Entries.{
  Agree, Agree-assign, Kept, Others, Others-map, Entries-set, Entries-consistent,
}

-- No container of `cs` shares its pointer variable with one of `post`.
abbrev pub Disjoint : List ContainerContext → List ContainerContext → Type 0
Disjoint post [] = Unit
Disjoint post (c ∷ cs) = IsFresh c.reference post × Disjoint post cs

pub Agree-Disjoint :
    (vars vars' : ℕ → ℕ) (post cs : List ContainerContext)
    → ((x : ℕ) → IsFresh x post → vars' x ≡ vars x)
    → Disjoint post cs
    → Agree vars vars' cs
Agree-Disjoint vars vars' post [] kept disjoint = tt
Agree-Disjoint vars vars' post (c ∷ cs) kept (here, disjoint) =
    (kept c.reference here, Agree-Disjoint vars vars' post cs kept disjoint)

module _ {o : Os} (w : World o) (is : IsManaged w) where
  -- On a well-formed manager with an entry, for an address below 2 ^ 63 that is not below the first
  -- one and that is not in the array, a function of the interface throws that the container is not
  -- found, and changes nothing.
  pub with_context-missing :
      {A : Type 0} (command : Cmd (Scene o) A) (a : ℕ)
      → 0 < length w.hcm.pointers_storage
      → w.hcm.pointers_storage ! 0 ≤ a
      → a < sign64
      → ((i : ℕ) → i < length w.hcm.pointers_storage → w.hcm.pointers_storage ! i ≢ a)
      → with_context a command w ≡ throw container_not_found w
  unfolding with_context
  with_context-missing command a some_entry above low no_entry =
      rw (find_hyper_container-missing w is a some_entry above low no_entry) refl

  module _ (i a : ℕ) (h : HyperContainerContext)
      (at : At i a h w.hcm.pointers_storage w.hcm.hyper_containers_storage) where
    -- The function works on the context of the address, and on nothing else of the manager.
    pub with_context-Returns :
        {A : Type 0} {P : A → Scene o → Type 0} (command : Cmd (Scene o) A)
        → Returns P (command (scene_of w h))
        → Returns (λ r w'. (c : Scene o) × P r c × (w' ≡ world_of w i c)) (with_context a command w)
    unfolding with_context on_context
    with_context-Returns command done =
        let (r, c, e, p) = outcome done in
        rw (find_hyper_container-found w is i a h at) (
          rw (At-context i a h w.hcm.pointers_storage w.hcm.hyper_containers_storage at, on_context)
            (rw e (returns (c, p, refl))))

    pub consistent_here : IsConsistent o.page_shift w.vars a h
    consistent_here =
        Entries-consistent o.granularity o.page_shift w.vars 1 i a h w.hcm.pointers_storage
          w.hcm.hyper_containers_storage at is.entries

    managed_after :
        (c : Scene o)
        → c.context.hypercontainer_size ≡ h.hypercontainer_size
        → IsConsistent o.page_shift c.vars a c.context
        → Others (Kept o.granularity o.page_shift w.vars c.vars) i w.hcm.hyper_containers_storage
        → IsManaged (world_of w i c)
    managed_after c size ok others = record {
      entries =
          Entries-set o.granularity o.page_shift w.vars c.vars 1 i a h c.context
            w.hcm.pointers_storage w.hcm.hyper_containers_storage at size ok others is.entries;
      counted = is.counted;
      fits = is.fits;
    }

    -- On a well-formed manager, for an entry of it and a pointer variable that no container uses,
    -- under the conditions of ContainerAlloc, vcmalloc at the address of the entry ends with what
    -- ContainerAlloc does to its context, nothing else of the manager changes, and all
    -- hyper-containers are well formed.
    pub vcmalloc-IsManaged :
        (x ts n : ℕ)
        → IsRequest a x ts n (scene_of w h)
        → Others (λ g. IsFresh x g.containercontext_storage) i w.hcm.hyper_containers_storage
        → IsWilling o
        → Returns
            (λ _ w'.
              IsManaged w'
              × (c : Scene o) × Allocated a x ts n (scene_of w h) c
              × (w' ≡ world_of w i c))
            (vcmalloc a x ts n w)
    unfolding vcmalloc
    vcmalloc-IsManaged x ts n request fresh willing =
        mono
          (with_context-Returns (container_alloc a x ts n)
            (container_alloc-Allocated a x ts n (scene_of w h) consistent_here request willing))
          λ _ w' (c, done, e). (
            rw e (
                managed_after c done.size done.consistent (
                  rw done.pointer (
                    Others-map
                      (λ g.
                        Agree-assign o.granularity o.page_shift w.vars x _
                          g.containercontext_storage)
                      i w.hcm.hyper_containers_storage fresh))),
            c,
            done,
            e,
          )

    -- On a well-formed manager, for an entry of it whose containers behind the resized one share no
    -- pointer variable with the other hyper-containers, with its frames mapped in order at its
    -- pages and under the conditions of ContainerRealloc, vcrealloc at the address of the entry
    -- ends with what ContainerRealloc does to its context, nothing else of the manager changes, and
    -- all hyper-containers are well formed.
    pub vcrealloc-IsManaged :
        (obliging : IsObliging o) (new_size : ℕ) (pre : List ContainerContext)
        (c : ContainerContext) (post : List ContainerContext)
        (r : IsResizable a new_size (scene_of w h) pre c post)
        → IsMapped obliging.mmu (a / 2 ^ o.page_shift) (live h) w.os
        → Others (λ g. Disjoint post g.containercontext_storage) i w.hcm.hyper_containers_storage
        → Returns
            (λ _ w'.
              IsManaged w'
              × (v : Scene o) × Resized obliging a new_size
                  (scene_of w h)
                  pre
                  c
                  post
                  consistent_here
                  r
                  v
              × (w' ≡ world_of w i v))
            (vcrealloc a c.reference c.type_size new_size w)
    unfolding vcrealloc
    vcrealloc-IsManaged obliging new_size pre c post r mapped disjoint =
        mono
          (with_context-Returns (container_realloc c.reference c.type_size new_size) (
            container_realloc-Resized obliging a new_size (scene_of w h) pre c post consistent_here
              r mapped))
          λ _ w' (v, done, e). (
            rw e (
                managed_after v done.size done.consistent (
                  Others-map
                    (λ g.
                      Agree-Disjoint w.vars v.vars post g.containercontext_storage done.elsewhere)
                    i w.hcm.hyper_containers_storage disjoint)),
            v,
            done,
            e,
          )
