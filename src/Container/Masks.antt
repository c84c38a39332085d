-- ===== src/Container/Masks.antt =====
-- The page masks as arithmetic: the low mask is a remainder, the high mask rounds down.
use Prim.Native.Nat.{bit_and, bit_and-bitwise, digits, min}
use native.Mathlib.Nat.{pow-suc, one-le-pow, le_refl, div-add-mod'}
use vcmalloc_bench.Base.{
  ℕ, zero, suc, ◌+◌, ◌-◌, ◌*◌, ◌/◌, ◌%◌, ◌^◌, ◌≤◌, ◌<◌, ◌≡◌, refl, ap, subst, arith, w64, sub64,
}
use vcmalloc_bench.Container.{page_offset, page_base}

abbrev and_digits : ℕ → ℕ → ℕ → ℕ
and_digits fuel a b = digits (λ _. zero) min fuel a b

and_digits-fuel : (n m a b : ℕ) → a ≤ n → a ≤ m → and_digits n a b ≡ and_digits m a b
and_digits-fuel zero zero a b p q = refl
and_digits-fuel zero (suc m) zero b p q = refl
and_digits-fuel zero (suc m) (suc a) b p q = absurd (omega arith)
and_digits-fuel (suc n) zero zero b p q = refl
and_digits-fuel (suc n) zero (suc a) b p q = absurd (omega arith)
and_digits-fuel (suc n) (suc m) zero b p q = refl
and_digits-fuel (suc n) (suc m) (suc a) b p q =
    omega (arith, and_digits-fuel n m (suc a / 2) (b / 2) (omega arith) (omega arith))

-- `&` by its lowest digit.
bit_and-halves : (a b : ℕ) → bit_and a b ≡ bit_and (a / 2) (b / 2) * 2 + min (a % 2) (b % 2)
bit_and-halves zero b = omega (arith, bit_and-bitwise 0 b, bit_and-bitwise 0 (b / 2))
bit_and-halves (suc a) b = omega (
  arith,
  bit_and-bitwise (suc a) b,
  bit_and-bitwise (suc a / 2) (b / 2),
  and_digits-fuel a (suc a / 2) (suc a / 2) (b / 2) (omega arith) (omega arith),
)

bit_and-zero_below : (bound a : ℕ) → a ≤ bound → bit_and a 0 ≡ 0
bit_and-zero_below bound zero h = refl
bit_and-zero_below zero (suc a) h = absurd (omega arith)
bit_and-zero_below (suc bound) (suc a) h =
    omega (arith, bit_and-halves (suc a) 0, bit_and-zero_below bound (suc a / 2) (omega arith))

twice_pow : (q s : ℕ) → q * 2 ^ suc s ≡ 2 * (q * 2 ^ s)
twice_pow q s = omega (arith, ap (λ (t : ℕ). q * t) (pow-suc 2 s))

-- A mask of s ones keeps the low part of a number.
low_part : (s q r : ℕ) → r < 2 ^ s → bit_and (q * 2 ^ s + r) (2 ^ s - 1) ≡ r
low_part zero q r h = ground (arith, bit_and-zero_below (q * 2 ^ 0 + r) (q * 2 ^ 0 + r) (le_refl _))
low_part (suc s) q r h = ground (
  arith,
  one-le-pow s 2,
  twice_pow q s,
  pow-suc 2 s,
  bit_and-halves (q * 2 ^ suc s + r) (2 ^ suc s - 1),
  low_part s q (r / 2) (omega (arith, pow-suc 2 s)),
)

-- A mask of j ones above s zeros keeps the high part of a number.
high_part :
    (j s q r : ℕ)
    → r < 2 ^ s
    → q < 2 ^ j
    → bit_and (q * 2 ^ s + r) (2 ^ j * 2 ^ s - 2 ^ s) ≡ q * 2 ^ s
high_part j zero q r h k = ground (arith, low_part j 0 q k)
high_part j (suc s) q r h k = ground (
  arith,
  one-le-pow s 2,
  twice_pow q s,
  twice_pow (2 ^ j) s,
  pow-suc 2 s,
  bit_and-halves (q * 2 ^ suc s + r) (2 ^ j * 2 ^ suc s - 2 ^ suc s),
  high_part j s q (r / 2) (omega (arith, pow-suc 2 s)) k,
)

pow_split : (j s t : ℕ) → j + s ≡ t → 2 ^ j * 2 ^ s ≡ 2 ^ t
pow_split zero s t e = let same : s ≡ t = omega arith in rw same (omega arith)
pow_split (suc j) s zero e = absurd (omega arith)
pow_split (suc j) s (suc t) e =
    omega
      (arith, ap (λ (u : ℕ). u * 2 ^ s) (pow-suc 2 j), pow-suc 2 t, pow_split j s t (omega arith))

-- The pages of a given size divide the address space.
pub pages_split : (s : ℕ) → s < 64 → 2 ^ (64 - s) * 2 ^ s ≡ w64
pages_split s h = pow_split (64 - s) s 64 (omega arith)

pub page_size-lt : (s : ℕ) → s < 64 → 2 * 2 ^ s ≤ w64
page_size-lt s h =
    let whole = pow_split (63 - s) s 63 (omega arith) in
    let pos = one-le-pow (63 - s) 2 (omega arith) in grind arith

-- For a page size of 2 ^ s with s below 64, the low mask is the remainder by the page size.
pub page_offset-mod : (s a : ℕ) → s < 64 → page_offset s a ≡ a % 2 ^ s
unfolding page_offset sub64
page_offset-mod s a h =
    let pos = one-le-pow s 2 (omega arith) in
    let mask : (2 ^ s + w64 - 1) % w64 ≡ 2 ^ s - 1 = omega (arith, page_size-lt s h) in
    let parts = div-add-mod' a (2 ^ s) in
    rw mask (
      subst (λ (b : ℕ). bit_and b (2 ^ s - 1) ≡ a % 2 ^ s) parts
        (low_part s (a / 2 ^ s) (a % 2 ^ s) (omega arith)))

-- For a page size of 2 ^ s with s below 64, the high mask rounds a 64-bit address down to a
-- multiple of the page size.
pub page_base-div : (s a : ℕ) → s < 64 → a < w64 → page_base s a ≡ a / 2 ^ s * 2 ^ s
unfolding page_base sub64
page_base-div s a h k =
    let pos = one-le-pow s 2 (omega arith) in
    let whole = pages_split s h in
    let mask : w64 - 1 - (2 ^ s + w64 - 1) % w64 ≡ 2 ^ (64 - s) * 2 ^ s - 2 ^ s =
      omega (arith, page_size-lt s h) in
    let parts = div-add-mod' a (2 ^ s) in
    let few : a / 2 ^ s < 2 ^ (64 - s) = grind arith in
    rw mask (
      subst (λ (b : ℕ). bit_and b (2 ^ (64 - s) * 2 ^ s - 2 ^ s) ≡ a / 2 ^ s * 2 ^ s) parts
        (high_part (64 - s) s (a / 2 ^ s) (a % 2 ^ s) (omega arith) few))
