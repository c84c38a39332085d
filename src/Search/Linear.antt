-- ===== src/Search/Linear.antt =====
-- binarySearch against a search cell by cell, and what it does outside its precondition.
use vcmalloc_bench.Base.{
  ℕ, zero, suc, ◌+◌, ◌≤◌, ◌<◌, ◌≡◌, ◌≢◌, refl, List, [], ◌∷◌, arith, sign64, length, ◌==◌,
  if◌then◌else◌, none, sub64, ap,
}
use vcmalloc_bench.Search.{Answer, found, missing, fault, out_of_fuel, msb, msb_loop, binary_search}
use vcmalloc_bench.Search.Msb.{msb_loop_diverges}
use vcmalloc_bench.Search.Down.{◌!◌, IsTable, Explains}
use vcmalloc_bench.Search.Up.{binary_search-Explains}

-- The reference: the index of the first cell with the address, counted from `i`.
unfoldable pub linear_search : ℕ → List ℕ → ℕ → Answer
linear_search i [] elem = missing
linear_search i (x ∷ xs) elem = if x == elem then found i else linear_search (suc i) xs elem

pub linear_search-found :
    (i : ℕ) (xs : List ℕ) (elem p : ℕ)
    → p < length xs
    → xs ! p ≡ elem
    → ((q : ℕ) → q < p → xs ! q ≢ elem)
    → linear_search i xs elem ≡ found (i + p)
unfolding linear_search
linear_search-found i [] elem p r e first = absurd (omega arith)
linear_search-found i (x ∷ xs) elem zero r e first = ground arith
linear_search-found i (x ∷ xs) elem (suc p) r e first = ground (
  arith,
  first 0,
  linear_search-found (suc i) xs elem p (omega arith) e (λ q h. first (suc q) (omega arith)),
)

pub linear_search-missing :
    (i : ℕ) (xs : List ℕ) (elem : ℕ)
    → ((q : ℕ) → q < length xs → xs ! q ≢ elem)
    → linear_search i xs elem ≡ missing
unfolding linear_search
linear_search-missing i [] elem none_there = refl
linear_search-missing i (x ∷ xs) elem none_there = ground (
  arith,
  none_there 0,
  linear_search-missing (suc i) xs elem (λ q h. none_there (suc q) (omega arith)),
)

module _ {xs : List ℕ} (table : IsTable xs) (elem : ℕ) where
  Explains-linear :
      (r : Answer) → ((t : ℕ) → Explains xs elem 0 (length xs) t r) → r ≡ linear_search 0 xs elem
  Explains-linear (found p) h =
      rw
        (linear_search-found 0 xs elem p (h 0).0 (h 0).1
          λ q lt e. omega (arith, table.ascending q p lt (h 0).0, h 0))
        (ap found (omega arith))
  Explains-linear missing h = rw (linear_search-missing 0 xs elem λ q r. h q (omega arith) r r)
  Explains-linear fault h = absurd (h 0)
  Explains-linear out_of_fuel h = absurd (h 0)

-- On a non-empty ascending array of addresses below 2 ^ 63 whose first address is not above the one
-- looked for, binarySearch ends, stays inside the array and gives the answer of a search cell by
-- cell.
pub binary_search-linear_search :
    (xs : List ℕ) (elem : ℕ)
    → IsTable xs
    → elem < sign64
    → 0 < length xs
    → xs ! 0 ≤ elem
    → binary_search (length xs) xs elem ≡ linear_search 0 xs elem
binary_search-linear_search xs elem table low some_cell below =
    Explains-linear table elem _ λ t. binary_search-Explains table elem low t some_cell below

-- On an empty array binarySearch has no result: the loop of MSB does not end for the bound, which
-- has wrapped, with any fuel.
pub binary_search-empty :
    (elem : ℕ)
    → (binary_search 0 [] elem ≡ out_of_fuel) × ((fuel : ℕ) → msb_loop fuel (sub64 0 1) 1 ≡ none)
unfolding binary_search msb sub64
binary_search-empty elem = (
  rw (msb_loop_diverges 64 0xffff_ffff_ffff_ffff (omega arith), binary_search),
  λ fuel. msb_loop_diverges fuel 0xffff_ffff_ffff_ffff (omega arith),
)
