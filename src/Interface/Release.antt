-- ===== src/Interface/Release.antt =====
-- vccfree: a hyper-container is given back, and the arrays of the manager close over its entry.
use vcmalloc_bench.Base.{
  ℕ, zero, suc, ◌+◌, ◌-◌, ◌≤◌, ◌<◌, ◌≡◌, refl, arith, true, none, List, [], ◌∷◌, ◌++◌, take, drop,
  length, length-append, length-take, length-drop, ◌==◌, inl, inr, Bool-cases,
}
use vcmalloc_bench.Machine.Os.{Os}
use vcmalloc_bench.Machine.Returns.{Returns, returns}
use vcmalloc_bench.Context.{HyperContainerContext}
use vcmalloc_bench.Context.Gap.{slice-some}
use vcmalloc_bench.Manager.{World}
use vcmalloc_bench.Interface.{vccfree, free_at}
use vcmalloc_bench.Interface.Managed.{
  Entries, IsManaged, At, At-context, At-pointer, find_hyper_container-found,
}
use vcmalloc_bench.Interface.Entries.{Entries-consistent}
use vcmalloc_bench.Interface.Contexts.{contexts, update, context_of-remove}

-- An operating system that takes back the frames and the addresses that it is given.
pub record IsReleasing (o : Os) : Type 0 where
  pub freed : (fs : List ℕ) (s : o.State) → (o.free_frames fs s).0 ≡ true
  pub counted : (fs : List ℕ) (s : o.State) → (o.free_frames fs s).1 ≡ length fs
  pub released : (a : ℕ) (s : o.State) → (o.virtual_free a s).0 ≡ true

module _ (u s : ℕ) (vars : ℕ → ℕ) where
  Entries-weaken :
      (lo lo' : ℕ) (ps : List ℕ) (hs : List HyperContainerContext)
      → lo' ≤ lo
      → Entries u s vars lo ps hs
      → Entries u s vars lo' ps hs
  Entries-weaken lo lo' [] [] le is = tt
  Entries-weaken lo lo' [] (h ∷ hs) le is = absurd is
  Entries-weaken lo lo' (p ∷ ps) [] le is = absurd is
  Entries-weaken lo lo' (p ∷ ps) (h ∷ hs) le (e, behind) = (
    record {
      above = omega (arith, e.above, le);
      sized = e.sized;
      low = e.low;
      consistent = e.consistent;
      unit = e.unit;
      units = e.units;
    },
    behind,
  )

  -- Without one entry the others are in order.
  Entries-remove :
      (lo i a : ℕ) (h : HyperContainerContext) (ps : List ℕ) (hs : List HyperContainerContext)
      → At i a h ps hs
      → Entries u s vars lo ps hs
      → Entries u s vars lo (take i ps ++ drop (suc i) ps) (take i hs ++ drop (suc i) hs)
  Entries-remove lo i a h [] hs at is = absurd at
  Entries-remove lo i a h (p ∷ ps) [] at is = absurd at
  Entries-remove lo zero a h (p ∷ ps) (k ∷ hs) at (e, behind) =
      Entries-weaken (p + k.hypercontainer_size) lo ps hs (omega (arith, e.above)) behind
  Entries-remove lo (suc i) a h (p ∷ ps) (k ∷ hs) at (e, behind) =
      (e, Entries-remove (p + k.hypercontainer_size) i a h ps hs at behind)

length-remove :
    (i : ℕ) (xs : List ℕ) → i < length xs → length (take i xs ++ drop (suc i) xs) ≡ length xs - 1
length-remove i xs lt =
    omega
      (arith, length-append (take i xs) (drop (suc i) xs), length-take i xs, length-drop (suc i) xs)

module _ {o : Os} (w : World o) (i a : ℕ) (h : HyperContainerContext) where
  -- The state after the call: the hyper-container is gone, and nothing else has changed.
  pub record Released (w' : World o) : Type 0 where
    pub managed : IsManaged w'
    pub gone : (b : ℕ) → contexts w' b ≡ update (contexts w) a none b
    pub num : w'.hcm.hypercontainers_num + 1 ≡ w.hcm.hypercontainers_num
    pub vars : w'.vars ≡ w.vars
    pub memory : w'.memory ≡ w.memory

  module _ (is : IsManaged w) (at : At i a h w.hcm.pointers_storage w.hcm.hyper_containers_storage)
      (releasing : IsReleasing o) where
    done :
        (s : o.State)
        → Released (record w {
          os = s;
          hcm = record w.hcm {
            hyper_containers_storage =
                take i w.hcm.hyper_containers_storage
                ++ drop (suc i) w.hcm.hyper_containers_storage;
            pointers_storage = take i w.hcm.pointers_storage ++ drop (suc i) w.hcm.pointers_storage;
            hypercontainers_num = w.hcm.hypercontainers_num - 1;
          };
        })
    done s =
        let ps = w.hcm.pointers_storage in
        let hs = w.hcm.hyper_containers_storage in
        let (lt, here) = At-pointer i a h ps hs at in
        record {
          managed = record {
            entries = Entries-remove o.granularity o.page_shift w.vars 1 i a h ps hs at is.entries;
            counted = omega (arith, length-remove i ps lt, is.counted);
            fits = omega (arith, is.fits);
          };
          gone = context_of-remove o.granularity o.page_shift w.vars 1 i a h ps hs is.entries at;
          num = omega (arith, lt, is.counted);
          vars = refl;
          memory = refl;
        }

    freed_at : Returns (λ _ w'. Released w') (free_at a i w)
    unfolding free_at
    freed_at =
        let ps = w.hcm.pointers_storage in
        let hs = w.hcm.hyper_containers_storage in
        let stored =
          (Entries-consistent o.granularity o.page_shift w.vars 1 i a h ps hs at
            is.entries).stored in
        let live =
          slice-some h.pfns_storage 0 h.pfns_num (omega (arith, stored.cells, stored.fits)) in
        let frames = take h.pfns_num h.pfns_storage in
        let size : length frames ≡ h.pfns_num =
          omega (arith, length-take h.pfns_num h.pfns_storage, stored.cells, stored.fits) in
        rw (At-context i a h ps hs at) (
          rw live (elim (Bool-cases (h.pfns_num == 0)) [
            | inl idle ↦
                let none_left : (0 == h.pfns_num) ≡ true = ground arith in
                rw idle (rw none_left (rw (releasing.released a _) (returns (done _))))
            | inr busy ↦
                let counts : ((o.free_frames frames w.os).1 == h.pfns_num) ≡ true =
                  ground (arith, size, releasing.counted frames w.os) in
                rw busy (
                  rw (releasing.freed frames w.os)
                    (rw counts (rw (releasing.released a _) (returns (done _)))))
          ]))

    -- On a well-formed manager, with a system that takes back the frames and the addresses that it
    -- is given, vccfree at the address of an entry ends: at that address there is no
    -- hyper-container any more, at every other address there is the one from before, there is one
    -- less, and the manager is well formed.
    pub vccfree-Released : Returns (λ _ w'. Released w') (vccfree a w)
    unfolding vccfree
    vccfree-Released = rw (find_hyper_container-found w is i a h at) freed_at
