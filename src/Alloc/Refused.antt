-- ===== src/Alloc/Refused.antt =====
-- ContainerAlloc where the operating system has no frames.
use vcmalloc_bench.Base.{
  ℕ, ◌*◌, ◌≡◌, ap, ◌∙◌, arith, false, [], ◌∷◌, ◌++◌, leb, lt→ltb, mul64-exact,
}
use vcmalloc_bench.Machine.Os.{Os}
use vcmalloc_bench.Machine.Run.{Error, frames_unavailable, Run, throw, Cmd, and_then}
use vcmalloc_bench.Machine.Returns.{Returns, returns}
use vcmalloc_bench.Container.{mapping_address, prior_free_bytes, nbr_of_pages}
use vcmalloc_bench.Context.{Scene, assign}
use vcmalloc_bench.Context.Room.{GrantsHeap, live, assert_pfns_storage-HasRoom}
use vcmalloc_bench.Context.Insert.{Inserted, insert-Inserted}
use vcmalloc_bench.Context.Consistent.{IsConsistent, chain_end}
use vcmalloc_bench.Alloc.{add_frames, container_alloc}
use vcmalloc_bench.Alloc.Position.{place_of-chain_end}
use vcmalloc_bench.Alloc.Correct.{IsRequest, container, asked, stored, kept}

-- A command that throws an error, in a state that satisfies a predicate.
pub data Throws {S A : Type 0} (e : Error) (P : S → Type 0) : Run S A → Type 0 where
  throws : {s : S} → P s → Throws e P (throw e s)

module _ {S A B : Type 0} {P : A → S → Type 0} {Q : S → Type 0} {e : Error} where
  pub bind-Throws :
      {r : Run S A} {k : A → Cmd S B}
      → Returns P r
      → ((a : A) (s : S) → P a s → Throws e Q (k a s))
      → Throws e Q (and_then r k)
  bind-Throws (returns p) next = next _ _ p

-- An operating system that has memory for the arrays but no frames.
pub record IsExhausted (o : Os) : Type 0 where
  pub heap : GrantsHeap o
  pub refused : (n : ℕ) (s : o.State) → (o.allocate_frames n s).0 ≡ false

module _ {o : Os} (base x ts n : ℕ) (w : Scene o) where
  abbrev at : ℕ
  at = chain_end base w.context.containercontext_storage

  -- The state in which the call leaves the hyper-container: the container is entered and the
  -- pointer assigned, with the frames from before.
  pub record Orphaned (w' : Scene o) : Type 0 where
    pub storage :
        w'.context.containercontext_storage
        ≡ w.context.containercontext_storage ++ container base x ts n w ∷ []
    pub pointer : w'.vars ≡ assign w.vars x at
    pub num : w'.context.pfns_num ≡ w.context.pfns_num
    pub kept : live w'.context ≡ live w.context

  module _ (is : IsConsistent o.page_shift w.vars base w.context) (r : IsRequest base x ts n w)
      (exhausted : IsExhausted o) where
    left_behind :
        (v : Scene o)
        → Inserted (container base x ts n w) w v
        → Throws frames_unavailable Orphaned (
            add_frames
              (mapping_address o.page_shift at)
              (nbr_of_pages o.page_shift at ts n)
              (record v { vars = assign v.vars x at }))
    unfolding add_frames
    left_behind v ins =
        bind-Throws
          (assert_pfns_storage-HasRoom (nbr_of_pages o.page_shift at ts n)
            (record v { vars = assign v.vars x at }) (stored base x ts n w is r v ins)
            exhausted.heap (omega (arith, ins.pfns_num, r.frames, r.pages)))
          λ _ u room. rw (exhausted.refused (nbr_of_pages o.page_shift at ts n) u.os) (
            throws (record {
              storage = room.containers ∙ ins.storage;
              pointer = room.vars ∙ ap (λ (f : ℕ → ℕ). assign f x at) ins.vars;
              num = room.num ∙ ins.pfns_num;
              kept = room.kept ∙ kept base x ts n w is r v ins;
            }))

    -- On a well-formed hyper-container, for a request within the bounds of the arithmetic that the
    -- rest of the last page does not hold, with an operating system that has memory for the arrays
    -- but no frames, ContainerAlloc throws, and leaves the new container behind the others with the
    -- user's pointer assigned, while the frames and their count are those from before.
    pub container_alloc-Orphaned :
        leb (ts * n) (prior_free_bytes o.page_shift at) ≡ false
        → Throws frames_unavailable Orphaned (container_alloc base x ts n w)
    unfolding container_alloc
    container_alloc-Orphaned short =
        rw (place_of-chain_end o.page_shift w.vars is r.fits.shift r.low_base) (
          bind-Throws
            (insert-Inserted (container base x ts n w) w is.counted exhausted.heap r.page r.low_page
              r.few)
            λ _ v ins. rw (mul64-exact ts n (omega (arith, r.bytes))) (
              rw short (
                rw (asked base x ts n w is r short) (rw (lt→ltb _ _ r.pages) (left_behind v ins)))))
