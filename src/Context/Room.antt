-- ===== src/Context/Room.antt =====
-- Enough room in the arrays of a hyper-container, on every branch of the two members that
-- enlarge them.
use native.Mathlib.Nat.{pow-suc}
use vcmalloc_bench.Base.{
  ℕ, zero, suc, ◌+◌, ◌-◌, ◌*◌, ◌^◌, ◌≤◌, ◌<◌, ◌≡◌, refl, ap, arith, true, false, some, inl, inr,
  Bool-cases, List, length, replicate, length-append, length-replicate, take, take-append_left, ltb,
  w64, sign64, add64, add64-exact, mul64, mul64-exact, if◌then◌else◌,
}
use vcmalloc_bench.Machine.Os.{Os}
use vcmalloc_bench.Machine.Adding.{MayEnlarge}
use vcmalloc_bench.Machine.Returns.{Returns, returns}
use vcmalloc_bench.Context.{HyperContainerContext, Scene, doubling}
use vcmalloc_bench.Context.Storage.{assert_pfns_storage}

doubling-step :
    (fuel m needed : ℕ)
    → doubling (suc fuel) m needed
      ≡ (if ltb m needed then doubling fuel (mul64 m 2) needed else some m)
unfolding doubling
doubling-step fuel m needed = refl

-- What a number of rounds ends with: a bound that is reached and that does not wrap.
abbrev Doubled : (fuel m needed : ℕ) → Type 0
Doubled fuel m needed =
    (r : ℕ) × (doubling fuel m needed ≡ some r) × (needed ≤ r) × (m ≤ r) × (r < w64)

doubling_more :
    (fuel m needed : ℕ)
    → ltb m needed ≡ true
    → m * 2 < w64
    → Doubled fuel (m * 2) needed
    → Doubled (suc fuel) m needed
doubling_more fuel m needed more small (r, e, reached, above, fits) =
    (r, rw (doubling-step fuel m needed, more, mul64-exact m 2 small) e, reached, omega arith, fits)

-- Doubling reaches any bound up to 2 ^ 63 within the rounds, and never wraps on the way.
doubling_lem :
    (fuel m needed : ℕ)
    → 0 < m
    → m < w64
    → needed ≤ sign64
    → needed ≤ m * 2 ^ fuel
    → Doubled (suc fuel) m needed
doubling_lem zero m needed pos small bound reach =
    let stop : ltb m needed ≡ false = ground arith in
    (m, rw (doubling-step 0 m needed, stop), omega arith, omega arith, small)
doubling_lem (suc fuel) m needed pos small bound reach = elim (Bool-cases (ltb m needed)) [
  | inr stop ↦ (m, rw (doubling-step (suc fuel) m needed, stop), ground arith, omega arith, small)
  | inl more ↦
      let low : m < needed = ground arith in
      doubling_more (suc fuel) m needed more (omega arith) (
        doubling_lem fuel (m * 2) needed (omega arith) (omega arith) bound
          (omega (arith, ap (λ (t : ℕ). m * t) (pow-suc 2 fuel))))
]

-- An operating system that grants memory for the arrays.
abbrev pub GrantsHeap : Os → Type 0
GrantsHeap o = (n : ℕ) (s : o.State) → (o.heap_alloc n s).0 ≡ true

-- The live frames of a context.
abbrev pub live : HyperContainerContext → List ℕ
live h = take h.pfns_num h.pfns_storage

-- The array of frames has its cells, and holds the frames that are counted.
pub record IsStored (h : HyperContainerContext) : Type 0 where
  pub cells : length h.pfns_storage ≡ h.pfns_max
  pub fits : h.pfns_num ≤ h.pfns_max
  pub some_cell : 0 < h.pfns_max
  pub bounded : h.pfns_max < w64

-- The state after room was made for frames: only the array has changed, and its frames are kept.
pub record HasRoom {o : Os} (additional : ℕ) (w w' : Scene o) : Type 0 where
  pub stored : IsStored w'.context
  pub room : w.context.pfns_num + additional ≤ w'.context.pfns_max
  pub num : w'.context.pfns_num ≡ w.context.pfns_num
  pub kept : live w'.context ≡ live w.context
  pub containers : w'.context.containercontext_storage ≡ w.context.containercontext_storage
  pub containers_num : w'.context.containers_num ≡ w.context.containers_num
  pub containers_max : w'.context.containers_max ≡ w.context.containers_max
  pub size : w'.context.hypercontainer_size ≡ w.context.hypercontainer_size
  pub machine : MayEnlarge o w.os w'.os
  pub vars : w'.vars ≡ w.vars
  pub memory : w'.memory ≡ w.memory

module _ {o : Os} (additional : ℕ) (w : Scene o) (is : IsStored w.context) where
  grown :
      GrantsHeap o
      → ltb w.context.pfns_max (add64 w.context.pfns_num additional) ≡ true
      → add64 w.context.pfns_num additional ≡ w.context.pfns_num + additional
      → Doubled 64 w.context.pfns_max (add64 w.context.pfns_num additional)
      → Returns (λ _ w'. HasRoom additional w w') (assert_pfns_storage additional w)
  unfolding assert_pfns_storage
  grown grants short exact (r, e, reached, above, fits) = rw short (
      rw e (
        rw (grants _ w.os) (
          returns (record {
            stored = record {
              cells = omega (
                arith,
                is.cells,
                length-append w.context.pfns_storage (replicate (r - w.context.pfns_max) 0),
                length-replicate {A = ℕ} (r - w.context.pfns_max) 0,
              );
              fits = omega (arith, is.fits);
              some_cell = omega (arith, is.some_cell);
              bounded = fits;
            };
            room = omega (arith, exact);
            num = refl;
            kept = take-append_left w.context.pfns_num _ _ (omega (arith, is.fits, is.cells));
            containers = refl;
            containers_num = refl;
            containers_max = refl;
            size = refl;
            machine = inr (_, refl);
            vars = refl;
            memory = refl;
          }))))

  enough :
      ltb w.context.pfns_max (add64 w.context.pfns_num additional) ≡ false
      → add64 w.context.pfns_num additional ≡ w.context.pfns_num + additional
      → Returns (λ _ w'. HasRoom additional w w') (assert_pfns_storage additional w)
  unfolding assert_pfns_storage
  enough plenty exact = rw plenty (
      returns (record {
        stored = is;
        room = ground arith;
        num = refl;
        kept = refl;
        containers = refl;
        containers_num = refl;
        containers_max = refl;
        size = refl;
        machine = inl refl;
        vars = refl;
        memory = refl;
      }))

  -- With memory granted and a number of frames up to 2 ^ 63, AssertPfnsStorage ends with room for
  -- so many frames more, the live frames kept, and nothing but the array changed.
  pub assert_pfns_storage-HasRoom :
      GrantsHeap o
      → w.context.pfns_num + additional ≤ sign64
      → Returns (λ _ w'. HasRoom additional w w') (assert_pfns_storage additional w)
  assert_pfns_storage-HasRoom grants bound =
      let exact = add64-exact w.context.pfns_num additional (omega arith) in
      elim (Bool-cases (ltb w.context.pfns_max (add64 w.context.pfns_num additional))) [
        | inr plenty ↦ enough plenty exact
        | inl short ↦ grown grants short exact (
            doubling_lem 63 w.context.pfns_max (add64 w.context.pfns_num additional) is.some_cell
              is.bounded (omega (arith, exact)) (omega (arith, exact, is.some_cell)))
      ]
