-- ===== src/Pages.antt =====
-- The page counts of libs_src/vcmalloc.h: `ceil((double)bytes / page_size)`. The conversion to
-- double rounds to 53 significant bits, to even at a tie; the division by page_size, a power of
-- two, is exact in binary floating point, and so is ceil.
use native.Mathlib.Nat.{one-le-pow, div-add-mod'}
use vcmalloc_bench.Base.{
  ℕ, zero, suc, ◌+◌, ◌-◌, ◌*◌, ◌/◌, ◌%◌, ◌^◌, ◌≤◌, ◌<◌, ◌≡◌, refl, arith, ltb, if◌then◌else◌,
  lt→ltb,
}

-- To a multiple of 2 ^ e, the nearest one, and the even one of two.
unfoldable pub round_even : ℕ → ℕ → ℕ
round_even e x =
    let q = x / 2 ^ e in
    let r = x % 2 ^ e in
    if ltb (2 * r) (2 ^ e)
    then q * 2 ^ e
    else if ltb (2 ^ e) (2 * r)
    then (q + 1) * 2 ^ e
    else (q + q % 2) * 2 ^ e

-- A 64-bit number has at most 11 bits more than a double holds.
unfoldable pub to_double_from : ℕ → ℕ → ℕ → ℕ
to_double_from zero e x = x
to_double_from (suc left) e x =
    let rest = to_double_from left (e + 1) x in
    if ltb x (2 ^ (53 + e)) then round_even e x else rest

unfoldable pub to_double : ℕ → ℕ
to_double x = to_double_from 12 0 x

-- `ceil((double)bytes / page_size)`
unfoldable pub ceil_pages : (s bytes : ℕ) → ℕ
ceil_pages s bytes = (to_double bytes + 2 ^ s - 1) / 2 ^ s

round_even-zero : (x : ℕ) → round_even 0 x ≡ x
unfolding round_even
round_even-zero x = ground arith

-- Up to 2 ^ 53 bytes the conversion is exact.
to_double_from-exact : (left x : ℕ) → x < 0x20_0000_0000_0000 → to_double_from (suc left) 0 x ≡ x
unfolding to_double_from
to_double_from-exact left x h = rw (lt→ltb x 0x20_0000_0000_0000 h) (round_even-zero x)

to_double-exact : (x : ℕ) → x < 0x20_0000_0000_0000 → to_double x ≡ x
unfolding to_double
to_double-exact x h = to_double_from-exact 11 x h

-- Below 2 ^ 53 bytes the page count, rounding to double included, is the least number of pages that
-- hold the bytes.
pub ceil_pages-bounds :
    (s x : ℕ)
    → x < 0x20_0000_0000_0000
    → (x ≤ ceil_pages s x * 2 ^ s) × (ceil_pages s x * 2 ^ s < x + 2 ^ s)
unfolding ceil_pages
ceil_pages-bounds s x h =
    let pos = one-le-pow s 2 (omega arith) in
    let exact = to_double-exact x h in
    let parts = div-add-mod' (x + 2 ^ s - 1) (2 ^ s) in rw exact (omega arith, omega arith)

-- Above, a tie goes to even: one byte more than 2 ^ 53 takes no page more.
to_double-tie : ceil_pages 12 0x20_0000_0000_0001 ≡ 0x200_0000_0000
unfolding ceil_pages to_double to_double_from round_even
to_double-tie = refl
