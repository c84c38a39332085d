-- ===== src/Search/Down.antt =====
-- The second loop of binarySearch, on an ascending array: from an index whose neighbourhood of
-- radius 2 ^ k lies inside the array it finds the address there or shows that it is not there.
use native.Mathlib.Nat.{pow-suc, one-le-pow}
use vcmalloc_bench.Base.{
  ℕ, zero, suc, ◌+◌, ◌-◌, ◌/◌, ◌^◌, ◌≤◌, ◌<◌, ◌≡◌, ◌≢◌, List, arith, sign64, length, get_or, ltb,
  ◌==◌, get_elem?-eq-get_or, add64, add64-exact, sub64, sub64-exact, is_negative, is_negative-sub64,
  Bool-cases, inl, inr, some, ap, false, true, if◌then◌else◌,
}
use vcmalloc_bench.Search.{Answer, found, missing, fault, out_of_fuel, down_loop, distance}
use vcmalloc_bench.Search.Msb.{halving, halving-half}

infixl 90 ◌!◌
abbrev pub ◌!◌ : List ℕ → ℕ → ℕ
xs ! i = get_or xs i 0

-- An array that the search can work on: ascending user-space addresses, fewer than 2 ^ 63.
pub record IsTable (xs : List ℕ) : Type 0 where
  pub ascending : (i j : ℕ) → i < j → j < length xs → xs ! i < xs ! j
  pub low : (i : ℕ) → i < length xs → xs ! i < sign64
  pub short : length xs < sign64

-- What an answer tells about the index `t`, for a search of the indices from lo up to hi.
abbrev pub Explains : (xs : List ℕ) (elem lo hi t : ℕ) → Answer → Type 0
Explains xs elem lo hi t (found p) = (p < length xs) × (xs ! p ≡ elem)
Explains xs elem lo hi t missing = lo ≤ t → t < hi → t < length xs → xs ! t ≢ elem
Explains xs elem lo hi t fault = ⊥
Explains xs elem lo hi t out_of_fuel = ⊥

-- An answer for a range serves for a wider one that adds no index with the address.
pub Explains-widen :
    (xs : List ℕ) (elem lo hi lo' hi' t : ℕ) (r : Answer)
    → Explains xs elem lo hi t r
    → (lo' ≤ t → t < hi' → t < length xs → xs ! t ≡ elem → (lo ≤ t) × (t < hi))
    → Explains xs elem lo' hi' t r
Explains-widen xs elem lo hi lo' hi' t (found p) h w = h
Explains-widen xs elem lo hi lo' hi' t missing h w = λ a b c e. h (w a b c e).0 (w a b c e).1 c e
Explains-widen xs elem lo hi lo' hi' t fault h w = h
Explains-widen xs elem lo hi lo' hi' t out_of_fuel h w = h

module _ {xs : List ℕ} (table : IsTable xs) (elem : ℕ) (low : elem < sign64) where
  -- The two tests on `Distance` compare the addresses.
  pub distance_lem : (i : ℕ) → i < length xs → distance xs i elem ≡ some (sub64 (xs ! i) elem)
  distance_lem i h = rw (get_elem?-eq-get_or xs i 0 h, distance)

  pub distance-zero : (i : ℕ) → i < length xs → (sub64 (xs ! i) elem == 0) ≡ (xs ! i == elem)
  unfolding sub64
  distance-zero i h = ground (arith, table.low i h)

  pub distance-negative :
      (i : ℕ) → i < length xs → is_negative (sub64 (xs ! i) elem) ≡ ltb (xs ! i) elem
  distance-negative i h = is_negative-sub64 (xs ! i) elem (table.low i h) low

  -- One round of the loop, with the tests on the addresses themselves.
  pub down_loop-step :
      (fuel i step : ℕ)
      → i < length xs
      → down_loop (suc fuel) xs elem i step ≡ (
          if xs ! i == elem
          then found i
          else if step == 0
          then missing
          else down_loop fuel xs elem
              (if ltb (xs ! i) elem then add64 i step else sub64 i step)
              (step / 2))
  unfolding down_loop
  down_loop-step fuel i step h =
      rw (get_elem?-eq-get_or xs i 0 h, down_loop) (rw (distance-zero i h, distance-negative i h))

  -- Where the address stands relative to an index that was read.
  pub after :
      (i t : ℕ) → i < length xs → ltb (xs ! i) elem ≡ true → t < length xs → xs ! t ≡ elem → i < t
  after i t h up c e =
      ground (arith, table.ascending t i, λ (same : t ≡ i). ap (λ (j : ℕ). xs ! j) same)

  pub before :
      (i t : ℕ)
      → i < length xs
      → t < length xs
      → (xs ! i == elem) ≡ false
      → ltb (xs ! i) elem ≡ false
      → xs ! t ≡ elem
      → t < i
  before i t h c miss down e =
      ground (arith, table.ascending i t, λ (same : t ≡ i). ap (λ (j : ℕ). xs ! j) same)

  pub down_loop-Explains :
      (t k fuel i : ℕ)
      → k < fuel
      → 2 ^ k ≤ i + 1
      → i + 2 ^ k ≤ length xs
      → Explains xs elem (i + 1 - 2 ^ k) (i + 2 ^ k) t (down_loop fuel xs elem i (halving k))
  down_loop-Explains t k zero i h l r = absurd (omega arith)
  down_loop-Explains t zero (suc fuel) i h l r =
      rw (down_loop-step fuel i 0 (omega arith)) (elim (Bool-cases (xs ! i == elem)) [
        | inl hit ↦ rw hit (ground arith)
        | inr miss ↦ rw miss (λ a b c e.
            let same : t ≡ i = omega arith in ground (arith, ap (λ (j : ℕ). xs ! j) same))
      ])
  down_loop-Explains t (suc k) (suc fuel) i h l r =
      let pos = one-le-pow k 2 (omega arith) in
      let double = pow-suc 2 k in
      let more : (2 ^ k == 0) ≡ false = ground arith in
      rw (down_loop-step fuel i (2 ^ k) (omega arith), halving-half k)
        (elim (Bool-cases (xs ! i == elem)) [
          | inl hit ↦ rw hit (omega arith, ground arith)
          | inr miss ↦ elim (Bool-cases (ltb (xs ! i) elem)) [
            | inl up ↦
                rw (miss, more, up, add64-exact i (2 ^ k) (omega (arith, table.short)))
                  (Explains-widen xs elem _ _ _ _ t _
                    (down_loop-Explains t k fuel (i + 2 ^ k) (omega arith) (omega arith)
                      (omega arith))
                    λ a b c e. (omega (arith, after i t (omega arith) up c e), omega arith))
            | inr down ↦
                rw
                  (
                    miss,
                    more,
                    down,
                    sub64-exact i (2 ^ k) (omega arith) (omega (arith, table.short)),
                  )
                  (Explains-widen xs elem _ _ _ _ t _
                    (down_loop-Explains t k fuel (i - 2 ^ k) (omega arith) (omega arith)
                      (omega arith))
                    λ a b c e. (omega arith, omega (arith, before i t (omega arith) c miss down e)))
          ]
        ])
