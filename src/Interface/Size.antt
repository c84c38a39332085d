-- ===== src/Interface/Size.antt =====
-- The size of a new hyper-container.
use native.Mathlib.Nat.{div-add-mod'}
use vcmalloc_bench.Base.{
  ℕ, ◌+◌, ◌*◌, ◌/◌, ◌%◌, ◌<◌, ◌≡◌, refl, arith, inl, inr, Bool-cases, ◌==◌, w64, mul64-exact,
}
use vcmalloc_bench.Container.Layout.{IsCeiling}
use vcmalloc_bench.Interface.{rounded_size}

-- For a size that does not come within the granularity of 2 ^ 64, the size that vccalloc records is
-- the first multiple of the allocation granularity that is not below the size.
pub rounded_size-IsCeiling :
    (g size : ℕ) → 0 < g → size + g < w64 → IsCeiling g size (rounded_size g size)
unfolding rounded_size
rounded_size-IsCeiling g size pos small =
    let parts = div-add-mod' size g in
    elim (Bool-cases (size % g == 0)) [
      | inl whole ↦
          let exact : size % g ≡ 0 = ground arith in
          rw whole (
            rw (mul64-exact (size / g) g (omega arith)) (record {
              multiple = size / g;
              exact = refl;
              above = omega arith;
              near = omega arith;
            }))
      | inr rest ↦
          let more : 0 < size % g = ground arith in
          let next : (size / g + 1) * g ≡ size / g * g + g = omega arith in
          rw rest (
            rw (mul64-exact (size / g + 1) g (omega arith)) (record {
              multiple = size / g + 1;
              exact = refl;
              above = omega arith;
              near = omega arith;
            }))
    ]
