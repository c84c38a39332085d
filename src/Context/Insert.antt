-- ===== src/Context/Insert.antt =====
-- A new container in a hyper-container, with the array of containers enlarged where it is full.
use vcmalloc_bench.Base.{
  ℕ, zero, suc, ◌+◌, ◌/◌, ◌^◌, ◌≤◌, ◌<◌, ◌≡◌, refl, arith, true, false, some, inl, inr, Bool-cases,
  [], ◌∷◌, ◌++◌, length, ltb, ◌==◌, w64, sign64, add64, add64-exact, if◌then◌else◌,
}
use vcmalloc_bench.Machine.Os.{Os}
use vcmalloc_bench.Machine.Adding.{MayEnlarge}
use vcmalloc_bench.Machine.Returns.{Returns, returns}
use vcmalloc_bench.Container.{ContainerContext}
use vcmalloc_bench.Context.{HyperContainerContext, Scene, extending, sizeof_container}
use vcmalloc_bench.Context.Storage.{insert}
use vcmalloc_bench.Context.Room.{GrantsHeap}

extending-step :
    (fuel per_page m needed : ℕ)
    → extending (suc fuel) per_page m needed
      ≡ (if ltb m needed then extending fuel per_page (add64 m per_page) needed else some m)
unfolding extending
extending-step fuel per_page m needed = refl

abbrev Extended : (fuel per_page m needed : ℕ) → Type 0
Extended fuel per_page m needed =
    (r : ℕ) × (extending fuel per_page m needed ≡ some r) × (needed ≤ r) × (m ≤ r)

extending_more :
    (fuel per_page m needed : ℕ)
    → ltb m needed ≡ true
    → m + per_page < w64
    → Extended fuel per_page (m + per_page) needed
    → Extended (suc fuel) per_page m needed
extending_more fuel per_page m needed more small (r, e, reached, above) = (
  r,
  rw (extending-step fuel per_page m needed, more, add64-exact m per_page small) e,
  reached,
  omega arith,
)

-- Steps of one page's worth reach any bound, without a wrap, in as many rounds as are missing.
extending_lem :
    (fuel per_page m needed : ℕ)
    → 0 < per_page
    → needed + per_page ≤ w64
    → needed ≤ m + fuel
    → Extended (suc fuel) per_page m needed
extending_lem zero per_page m needed pos bound reach =
    let stop : ltb m needed ≡ false = ground arith in
    (m, rw (extending-step 0 per_page m needed, stop), omega arith, omega arith)
extending_lem (suc fuel) per_page m needed pos bound reach = elim (Bool-cases (ltb m needed)) [
  | inr stop ↦
      (m, rw (extending-step (suc fuel) per_page m needed, stop), ground arith, omega arith)
  | inl more ↦
      let low : m < needed = ground arith in
      extending_more (suc fuel) per_page m needed more (omega arith)
        (extending_lem fuel per_page (m + per_page) needed pos bound (omega arith))
]

-- The state after a container was entered: it stands last, and only the containers' array has
-- changed.
pub record Inserted {o : Os} (c : ContainerContext) (w w' : Scene o) : Type 0 where
  pub storage : w'.context.containercontext_storage ≡ w.context.containercontext_storage ++ c ∷ []
  pub counted : w'.context.containers_num ≡ w.context.containers_num + 1
  pub room : w'.context.containers_num ≤ w'.context.containers_max
  pub pfns_storage : w'.context.pfns_storage ≡ w.context.pfns_storage
  pub pfns_num : w'.context.pfns_num ≡ w.context.pfns_num
  pub pfns_max : w'.context.pfns_max ≡ w.context.pfns_max
  pub size : w'.context.hypercontainer_size ≡ w.context.hypercontainer_size
  pub machine : MayEnlarge o w.os w'.os
  pub vars : w'.vars ≡ w.vars
  pub memory : w'.memory ≡ w.memory

-- The containers' array holds the containers that are counted.
pub record IsCounted (h : HyperContainerContext) : Type 0 where
  pub counted : h.containers_num ≡ length h.containercontext_storage
  pub fits : h.containers_num ≤ h.containers_max

module _ {o : Os} (c : ContainerContext) (w : Scene o) (is : IsCounted w.context) where
  abbrev Inserting : Type 0
  Inserting = Returns (λ _ w'. Inserted c w w') (insert c.reference c.type_size c.elements_num w)

  counts : (length w.context.containercontext_storage == w.context.containers_num) ≡ true
  counts = let e = is.counted in ground arith

  insert_grown :
      GrantsHeap o
      → ltb w.context.containers_max (add64 w.context.containers_num 1) ≡ true
      → add64 w.context.containers_num 1 ≡ w.context.containers_num + 1
      → Extended
          (suc (add64 w.context.containers_num 1))
          (2 ^ o.page_shift / sizeof_container)
          w.context.containers_max
          (add64 w.context.containers_num 1)
      → Inserting
  unfolding insert
  insert_grown grants short exact (r, e, reached, above) = rw short (
      rw e (
        rw (grants _ w.os) (
          rw counts (
            returns (record {
              storage = refl;
              counted = refl;
              room = omega (arith, exact);
              pfns_storage = refl;
              pfns_num = refl;
              pfns_max = refl;
              size = refl;
              machine = inr (_, refl);
              vars = refl;
              memory = refl;
            })))))

  insert_enough :
      ltb w.context.containers_max (add64 w.context.containers_num 1) ≡ false
      → add64 w.context.containers_num 1 ≡ w.context.containers_num + 1
      → Inserting
  unfolding insert
  insert_enough plenty exact = rw plenty (
      rw counts (
        returns (record {
          storage = refl;
          counted = refl;
          room = ground arith;
          pfns_storage = refl;
          pfns_num = refl;
          pfns_max = refl;
          size = refl;
          machine = inl refl;
          vars = refl;
          memory = refl;
        })))

  -- With memory granted, pages of at least 24 bytes and fewer than 2 ^ 63 containers, insert ends
  -- with the container behind the others, room for what is counted, and nothing but the containers'
  -- array changed.
  pub insert-Inserted :
      GrantsHeap o
      → 24 ≤ 2 ^ o.page_shift
      → 2 ^ o.page_shift ≤ sign64
      → w.context.containers_num + 1 < sign64
      → Inserting
  insert-Inserted grants page low few =
      let exact = add64-exact w.context.containers_num 1 (omega arith) in
      elim (Bool-cases (ltb w.context.containers_max (add64 w.context.containers_num 1))) [
        | inr plenty ↦ insert_enough plenty exact
        | inl short ↦ insert_grown grants short exact (
            extending_lem (add64 w.context.containers_num 1) (2 ^ o.page_shift / sizeof_container)
              w.context.containers_max (add64 w.context.containers_num 1) (omega arith)
              (omega (arith, exact)) (omega arith))
      ]
