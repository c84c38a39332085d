-- ===== src/Alloc/Correct.antt =====
-- ContainerAlloc keeps a hyper-container well formed.
use vcmalloc_bench.Base.{
  ℕ, ◌+◌, ◌*◌, ◌^◌, ◌≤◌, ◌<◌, ◌≡◌, refl, sym, ap, ◌∙◌, arith, true, false, inl, inr, Bool-cases,
  List, [], ◌∷◌, ◌++◌, length, length-append, leb, lt→ltb, w64, sign64, mul64-exact, sub64,
  sub64-exact,
}
use mathlib.Core.List.{append-nil}
use vcmalloc_bench.Machine.Os.{Os}
use vcmalloc_bench.Machine.Adding.{Adds, nothing, Adds-behind}
use vcmalloc_bench.Machine.Returns.{Returns, returns, bind, mono}
use vcmalloc_bench.Container.{ContainerContext, mapping_address, nbr_of_pages, prior_free_bytes}
use vcmalloc_bench.Container.Layout.{Fits}
use vcmalloc_bench.Pages.{ceil_pages}
use vcmalloc_bench.Context.{Scene, assign}
use vcmalloc_bench.Context.Storage.{start_of}
use vcmalloc_bench.Context.Room.{live, IsStored}
use vcmalloc_bench.Context.Insert.{Inserted, insert-Inserted}
use vcmalloc_bench.Context.Consistent.{
  Chain, chain_end, pages_of, pages_of-append, IsFresh, IsConsistent, Chain-assign, pages_of-assign,
  Chain-append,
}
use vcmalloc_bench.Alloc.{add_frames, container_alloc}
use vcmalloc_bench.Alloc.Frames.{IsWilling, add_frames-HasFrames}
use vcmalloc_bench.Alloc.Position.{place_of-chain_end, new_pages}

-- What is asked of a call: a pointer variable that no container uses, and sizes for which the
-- arithmetic on words, on doubles and on ints is exact.
pub record IsRequest {o : Os} (base x ts n : ℕ) (w : Scene o) : Type 0 where
  pub fresh : IsFresh x w.context.containercontext_storage
  pub fits : Fits o.page_shift (chain_end base w.context.containercontext_storage) ts n
  pub bytes : ts * n < 0x20_0000_0000_0000
  pub pages :
      nbr_of_pages o.page_shift (chain_end base w.context.containercontext_storage) ts n
      < 0x8000_0000
  pub frames : w.context.pfns_num + 0x8000_0000 ≤ sign64
  pub few : w.context.containers_num + 1 < sign64
  pub page : 24 ≤ 2 ^ o.page_shift
  pub low_page : 2 ^ o.page_shift ≤ sign64
  pub low_base : base < w64

module _ {o : Os} (base x ts n : ℕ) (w : Scene o) where
  abbrev pub container : ContainerContext
  container = record { reference = x; type_size = ts; elements_num = n }

  abbrev pub at : ℕ
  at = chain_end base w.context.containercontext_storage

  -- The state after the call: the new container stands behind the others, at the address where
  -- they ended, the frames that were live are kept, and the hyper-container is well formed.
  pub record Allocated (w' : Scene o) : Type 0 where
    pub consistent : IsConsistent o.page_shift w'.vars base w'.context
    pub storage :
        w'.context.containercontext_storage ≡ w.context.containercontext_storage ++ container ∷ []
    pub pointer : w'.vars ≡ assign w.vars x at
    pub frames : List ℕ
    pub added : live w'.context ≡ live w.context ++ frames
    pub machine : Adds o (mapping_address o.page_shift at) frames w.os w'.os
    pub memory : w'.memory ≡ w.memory
    pub size : w'.context.hypercontainer_size ≡ w.context.hypercontainer_size

  module _ (is : IsConsistent o.page_shift w.vars base w.context)
      (r : IsRequest base x ts n w) where
    pointed : start_of (assign w.vars x at) container ≡ at
    pointed = ground arith

    -- The chain and the page count, once the pointer variable is assigned.
    chained :
        Chain o.page_shift
          (assign w.vars x at)
          base
          (w.context.containercontext_storage ++ container ∷ [])
    chained =
        Chain-append o.page_shift (assign w.vars x at) container base
          w.context.containercontext_storage
          (Chain-assign o.page_shift w.vars x at base w.context.containercontext_storage r.fresh
            is.chain)
          pointed r.fits

    paged :
        pages_of o.page_shift
          (assign w.vars x at)
          (w.context.containercontext_storage ++ container ∷ [])
        ≡ w.context.pfns_num + nbr_of_pages o.page_shift at ts n
    paged =
        rw
          (
            pages_of-append o.page_shift (assign w.vars x at) w.context.containercontext_storage
                (container ∷ []),
            pointed,
          )
          (omega (
            arith,
            is.backed,
            pages_of-assign o.page_shift w.vars x at w.context.containercontext_storage r.fresh,
          ))

    pub stored : (v : Scene o) → Inserted container w v → IsStored v.context
    stored v ins = record {
      cells = rw ins.pfns_storage (omega (arith, is.stored.cells, ins.pfns_max));
      fits = omega (arith, is.stored.fits, ins.pfns_max, ins.pfns_num);
      some_cell = omega (arith, is.stored.some_cell, ins.pfns_max);
      bounded = omega (arith, is.stored.bounded, ins.pfns_max);
    }

    -- The containers are counted, where the state has room for them.
    counts :
        (v : Scene o)
        → Inserted container w v
        → v.context.containers_num ≡ length v.context.containercontext_storage
    counts v ins = rw ins.storage (
        omega (
          arith,
          ins.counted,
          is.counted.counted,
          length-append w.context.containercontext_storage (container ∷ []),
        ))

    -- A state that differs from the one after the insertion in the frames and the pointer.
    finish :
        (v v' : Scene o)
        → Inserted container w v
        → (fs : List ℕ) → v'.vars ≡ assign w.vars x at
        → Adds o (mapping_address o.page_shift at) fs v.os v'.os
        → v'.memory ≡ w.memory
        → v'.context.containercontext_storage ≡ v.context.containercontext_storage
        → v'.context.containers_num ≡ v.context.containers_num
        → v'.context.containers_max ≡ v.context.containers_max
        → v'.context.hypercontainer_size ≡ v.context.hypercontainer_size
        → v'.context.pfns_num ≡ w.context.pfns_num + nbr_of_pages o.page_shift at ts n
        → live v'.context ≡ live w.context ++ fs
        → IsStored v'.context
        → Allocated v'
    finish v v' ins fs ev adds em es en ex ez ep el st = record {
      consistent = record {
        aligned = is.aligned;
        chain = rw (ev, es, ins.storage) chained;
        backed = rw (ep, ev, es, ins.storage) (sym paged);
        counted = record {
          counted = en ∙ counts v ins ∙ sym (ap length es);
          fits = omega (arith, en, ex, ins.room);
        };
        stored = st;
      };
      storage = es ∙ ins.storage;
      pointer = ev;
      frames = fs;
      added = el;
      machine = Adds-behind ins.machine adds;
      memory = em;
      size = ez ∙ ins.size;
    }

    pub kept : (v : Scene o) → Inserted container w v → live v.context ≡ live w.context
    kept v ins = rw (ins.pfns_num, ins.pfns_storage)

    -- Behind the insertion nothing more is needed where the last page has enough left.
    within :
        (v : Scene o)
        → Inserted container w v
        → leb (ts * n) (prior_free_bytes o.page_shift at) ≡ true
        → Allocated (record v { vars = assign v.vars x at })
    within v ins enough =
        finish v _ ins [] (ap (λ (f : ℕ → ℕ). assign f x at) ins.vars) (nothing refl) ins.memory
          refl refl refl refl
          (omega
            (arith, ins.pfns_num, rw enough at (new_pages o.page_shift at ts n r.fits r.bytes)))
          (rw append-nil (kept v ins)) (stored v ins)

    -- Otherwise the missing pages are what the container has of its own.
    beyond :
        IsWilling o
        → (v : Scene o) → Inserted container w v
        → Returns
            (λ _ w'. Allocated w')
            (add_frames
              (mapping_address o.page_shift at)
              (nbr_of_pages o.page_shift at ts n)
              (record v { vars = assign v.vars x at }))
    beyond willing v ins =
        mono
          (add_frames-HasFrames willing (mapping_address o.page_shift at)
            (nbr_of_pages o.page_shift at ts n) (record v { vars = assign v.vars x at })
            (stored v ins) (omega (arith, ins.pfns_num, r.frames, r.pages)))
          λ _ v' fr.
            finish v v' ins fr.frames (fr.vars ∙ ap (λ (f : ℕ → ℕ). assign f x at) ins.vars)
              fr.machine (fr.memory ∙ ins.memory) fr.containers fr.containers_num fr.containers_max
              fr.size (omega (arith, fr.num, ins.pfns_num))
              (fr.added ∙ ap (λ (l : List ℕ). l ++ fr.frames) (kept v ins)) fr.stored

    pub asked :
        leb (ts * n) (prior_free_bytes o.page_shift at) ≡ false
        → ceil_pages o.page_shift (sub64 (ts * n) (prior_free_bytes o.page_shift at))
          ≡ nbr_of_pages o.page_shift at ts n
    asked short =
        let more : prior_free_bytes o.page_shift at < ts * n = ground arith in
        rw
          (sub64-exact (ts * n) (prior_free_bytes o.page_shift at) (omega arith)
            (omega (arith, r.bytes)))
          (sym (rw short at (new_pages o.page_shift at ts n r.fits r.bytes)))

    -- On a well-formed hyper-container, with an operating system that grants what it is asked for
    -- and a request within the bounds of the arithmetic, ContainerAlloc ends: the new container
    -- stands behind the others at the address where they ended, which the user's pointer now holds,
    -- the live frames are those from before and the new ones, as many as the containers have pages,
    -- no byte of memory changes but those of that pointer variable, and the hyper-container is well
    -- formed.
    pub container_alloc-Allocated :
        IsWilling o → Returns (λ _ w'. Allocated w') (container_alloc base x ts n w)
    unfolding container_alloc
    container_alloc-Allocated willing =
        rw (place_of-chain_end o.page_shift w.vars is r.fits.shift r.low_base) (
          bind (insert-Inserted container w is.counted willing.heap r.page r.low_page r.few)
            λ _ v ins.
              rw (mul64-exact ts n (omega (arith, r.bytes)))
                (elim (Bool-cases (leb (ts * n) (prior_free_bytes o.page_shift at))) [
                  | inl enough ↦ rw enough (returns (within v ins enough))
                  | inr short ↦
                      rw short (rw (asked short) (rw (lt→ltb _ _ r.pages) (beyond willing v ins)))
                ]))
