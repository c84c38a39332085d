-- ===== src/Search/Msb.antt =====
-- MSB returns the highest power of two that is not above its argument, for arguments below 2 ^ 63,
-- and its loop never ends for the others.
use native.Mathlib.Nat.{pow-suc, one-le-pow}
use vcmalloc_bench.Base.{
  ℕ, zero, suc, ◌+◌, ◌*◌, ◌/◌, ◌%◌, ◌^◌, ◌≤◌, ◌<◌, ◌≡◌, refl, none, some, arith, w64, sign64, ap,
  inl, inr, Bool-cases, leb, leb→le,
}
use vcmalloc_bench.Search.{msb_loop, msb}

-- the values that `step` takes: 0, or a power of two
abbrev pub halving : ℕ → ℕ
halving zero = 0
halving (suc k) = 2 ^ k

-- What `MSB` returns: the highest power of two up to n, or 0 for 0.
abbrev pub IsMsb : ℕ → ℕ → Type 0
IsMsb n m = (k : ℕ) × (m ≡ halving k) × (m ≤ n) × (n < 2 ^ k) × (k ≤ 63)

half-pow : (k : ℕ) → 2 ^ k / 2 ≡ halving k
half-pow zero = refl
half-pow (suc k) = omega (arith, pow-suc 2 k)

pub halving-half : (k : ℕ) → halving (suc k) / 2 ≡ halving k
halving-half = half-pow

-- Here 2 ^ j is the factor by which the loop may still grow its variable.
msb_loop-IsMsb :
    (j k n : ℕ)
    → n < sign64
    → j + k ≤ 63
    → 2 ^ j * 2 ^ k ≡ sign64
    → halving k ≤ n
    → (m : ℕ) × (msb_loop (suc j) n (2 ^ k) ≡ some m) × IsMsb n (m / 2)
unfolding msb_loop
msb_loop-IsMsb zero k n small total e reached =
    (2 ^ k, ground arith, (k, half-pow k, omega (arith, half-pow k), omega arith, omega arith))
msb_loop-IsMsb (suc j) k n small total e reached = elim (Bool-cases (leb (2 ^ k) n)) [
  | inl more ↦
      let step : 2 ^ k * 2 % w64 ≡ 2 ^ suc k = omega (arith, pow-suc 2 k, leb→le (2 ^ k) n more) in
      let grown : 2 ^ j * 2 ^ suc k ≡ sign64 = omega (
        arith,
        e,
        ap (λ (t : ℕ). 2 ^ j * t) (pow-suc 2 k),
        ap (λ (t : ℕ). t * 2 ^ k) (pow-suc 2 j),
      ) in
      rw (more, step) (msb_loop-IsMsb j (suc k) n small (omega arith) grown (leb→le _ _ more))
  | inr stop ↦
      (2 ^ k, rw stop, (k, half-pow k, omega (arith, half-pow k), ground arith, omega arith))
]

-- Below 2 ^ 63 MSB ends and returns the highest power of two up to its argument, or 0 for 0.
pub msb-IsMsb : (n : ℕ) → n < sign64 → (m : ℕ) × (msb n ≡ some m) × IsMsb n m
unfolding msb
msb-IsMsb n small =
    let (m, e, is) = msb_loop-IsMsb 63 0 n small (omega arith) refl (omega arith) in
    (m / 2, rw (e, msb), is)

msb_loop-zero : (fuel n : ℕ) → msb_loop fuel n 0 ≡ none
unfolding msb_loop
msb_loop-zero zero n = refl
msb_loop-zero (suc fuel) n = ground (arith, msb_loop-zero fuel n)

msb_loop_endless : (fuel j n m : ℕ) → sign64 ≤ n → m * 2 ^ j ≡ sign64 → msb_loop fuel n m ≡ none
unfolding msb_loop
msb_loop_endless zero j n m big e = refl
msb_loop_endless (suc fuel) zero n m big e = ground (arith, msb_loop-zero fuel n)
msb_loop_endless (suc fuel) (suc j) n m big e =
    let e' : m * 2 * 2 ^ j ≡ sign64 = omega (arith, e, ap (λ (t : ℕ). m * t) (pow-suc 2 j)) in
    let small : m * 2 ≤ sign64 = grind (arith, e', one-le-pow j 2) in
    ground (arith, msb_loop_endless fuel j n (m * 2))

-- From 2 ^ 63 on the loop variable overflows to 0 and the loop of `MSB` never ends.
pub msb_loop_diverges : (fuel n : ℕ) → sign64 ≤ n → msb_loop fuel n 1 ≡ none
msb_loop_diverges fuel n big = msb_loop_endless fuel 63 n 1 big refl
