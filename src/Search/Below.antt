-- ===== src/Search/Below.antt =====
-- binarySearch for an address below the whole array: its index underflows.
use native.Mathlib.Nat.{one-le-pow, pow-suc}
use vcmalloc_bench.Base.{
  ℕ, zero, suc, ◌-◌, ◌^◌, ◌≤◌, ◌<◌, ◌≡◌, List, arith, sign64, length, ltb, ◌==◌, false,
  get_elem?-none, sub64, sub64-exact, some,
}
use vcmalloc_bench.Search.{fault, up_loop, down_loop, binary_search, msb}
use vcmalloc_bench.Search.Msb.{halving, halving-half, IsMsb, msb-IsMsb}
use vcmalloc_bench.Search.Down.{◌!◌, IsTable, down_loop-step}
use vcmalloc_bench.Search.Up.{up_loop-stop, binary_search-up_loop}

sub64_under : (b : ℕ) → 0 < b → b < sign64 → sign64 < sub64 0 b
unfolding sub64
sub64_under b h k = omega arith

sub_self : (n : ℕ) → n - n ≡ 0
sub_self n = omega arith

module _ {xs : List ℕ} (table : IsTable xs) (elem : ℕ) (low : elem < sign64)
    (above : elem < xs ! 0) where
  above_all : (i : ℕ) → i < length xs → elem < xs ! i
  above_all zero r = above
  above_all (suc i) r = omega (arith, table.ascending 0 (suc i) (omega arith) r)

  -- A round at any index steps down.
  down_loop-down :
      (fuel i k : ℕ)
      → i < length xs
      → down_loop (suc fuel) xs elem i (2 ^ k)
        ≡ down_loop fuel xs elem (sub64 i (2 ^ k)) (halving k)
  down_loop-down fuel i k r =
      let pos = one-le-pow k 2 (omega arith) in
      let over = above_all i r in
      let miss : (xs ! i == elem) ≡ false = ground arith in
      let down : ltb (xs ! i) elem ≡ false = ground arith in
      let more : (2 ^ k == 0) ≡ false = ground arith in
      rw (down_loop-step table elem low fuel i (2 ^ k) r, miss, more, down, halving-half k)

  down_loop-outside :
      (fuel i step : ℕ) → length xs ≤ i → down_loop (suc fuel) xs elem i step ≡ fault
  unfolding down_loop
  down_loop-outside fuel i step r = rw (get_elem?-none xs i r, down_loop)

  down_loop-fault :
      (fuel k : ℕ)
      → 2 ^ suc k < length xs
      → down_loop (suc (suc (suc fuel))) xs elem (2 ^ suc k) (2 ^ suc k) ≡ fault
  down_loop-fault fuel k r =
      let pos = one-le-pow k 2 (omega arith) in
      let double = pow-suc 2 k in
      let top = sub64-exact (2 ^ suc k) (2 ^ suc k) (omega arith) (omega (arith, table.short)) in
      let under : length xs ≤ sub64 0 (2 ^ k) = omega (arith, sub64_under (2 ^ k), table.short) in
      rw (down_loop-down (suc (suc fuel)) (2 ^ suc k) (suc k) r, top, sub_self (2 ^ suc k))
        (rw (down_loop-down (suc fuel) 0 k (omega arith))
          (down_loop-outside fuel (sub64 0 (2 ^ k)) (halving k) under))

  start :
      (fuel max m k : ℕ)
      → m ≡ 2 ^ suc k
      → 2 ^ suc k < length xs
      → ltb (xs ! (2 ^ suc k)) elem ≡ false
      → 0 < fuel
      → down_loop 66 xs elem (2 ^ suc k) (2 ^ suc k) ≡ fault
      → up_loop fuel xs elem max m m ≡ fault
  start zero max m k at r stop h e = absurd (omega arith)
  start (suc fuel) max m k at r stop h e =
      rw (at, up_loop-stop table elem low 0 fuel max (2 ^ suc k) (2 ^ suc k) r stop) e

  finish :
      (m : ℕ)
      → 2 < length xs
      → msb (sub64 (length xs) 1) ≡ some m
      → IsMsb (length xs - 1) m
      → binary_search (length xs) xs elem ≡ fault
  finish m many e (zero, at, le, lt, small) = absurd (omega arith)
  finish m many e (suc zero, at, le, lt, small) = absurd (omega arith)
  finish m many e (suc (suc k), at, le, lt, small) =
      rw (binary_search-up_loop table elem low 0 m e) (
        let pos = one-le-pow k 2 (omega arith) in
        let double = pow-suc 2 k in
        let inside : 2 ^ suc k < length xs = omega arith in
        let over = above_all (2 ^ suc k) inside in
        let stop : ltb (xs ! (2 ^ suc k)) elem ≡ false = ground arith in
        start (length xs) (sub64 (length xs) 1) m k at inside stop (omega arith)
          (down_loop-fault 63 k inside))

  -- On an ascending array of three cells or more, all above the address that is looked for,
  -- binarySearch reads outside the array.
  pub binary_search-below : 2 < length xs → binary_search (length xs) xs elem ≡ fault
  binary_search-below many =
      let exact = sub64-exact (length xs) 1 (omega arith) (omega (arith, table.short)) in
      let (m, e, is) = msb-IsMsb (sub64 (length xs) 1) (omega (arith, exact, table.short)) in
      finish m many e (rw exact at is)
