-- ===== src/Interface/Reserve.antt =====
-- vccalloc: a new hyper-container behind the others, at the first address that the system grants.
use native.Mathlib.Nat.{mul-mod_left, div-add-mod'}
use vcmalloc_bench.Base.{
  ℕ, zero, suc, ◌+◌, ◌*◌, ◌/◌, ◌%◌, ◌^◌, ◌≤◌, ◌<◌, ◌≡◌, refl, sym, ap, ◌∙◌, arith, none, some, w64,
  sign64, add64, add64-exact, ◌==◌, inl, inr, Bool-cases, Option,
}
use vcmalloc_bench.Machine.Os.{Os}
use vcmalloc_bench.Machine.Run.{ok}
use vcmalloc_bench.Manager.{World}
use vcmalloc_bench.Interface.{reserve}

-- The answer to the call of VirtualAlloc after `j` refusals, each time one unit further.
abbrev pub attempt : (o : Os) → (j r size : ℕ) → o.State → Option ℕ × o.State
attempt o zero r size s = o.virtual_alloc r size s
attempt o (suc j) r size s = attempt o j (add64 r o.granularity) size (o.virtual_alloc r size s).1

-- The system refuses `k` times and grants the address `a` then.
pub record IsGranted (o : Os) (k r size a : ℕ) (s : o.State) : Type 0 where
  pub refused : (j : ℕ) → j < k → (attempt o j r size s).0 ≡ none
  pub granted : (attempt o k r size s).0 ≡ some a

module _ {o : Os} where
  -- The loop ends with the first address that is granted.
  pub reserve_lem :
      (k fuel r size a : ℕ) (w : World o)
      → k < fuel
      → IsGranted o k r size a w.os
      → reserve fuel r size w ≡ ok a (record w { os = (attempt o k r size w.os).1 })
  unfolding reserve
  reserve_lem k zero r size a w lt g = absurd (omega arith)
  reserve_lem zero (suc fuel) r size a w lt g = rw (g.granted, reserve) refl
  reserve_lem (suc k) (suc fuel) r size a w lt g =
      rw (g.refused 0 (omega arith), reserve)
        (reserve_lem k fuel (add64 r o.granularity) size a
          (record w { os = (o.virtual_alloc r size w.os).1 }) (omega arith)
          (record { refused = λ j less. g.refused (suc j) (omega arith); granted = g.granted }))

-- Before the addresses wrap, the attempt after `k` refusals is `k` units further.
attempt_lem :
    (o : Os) (k r size : ℕ) (s : o.State)
    → r + k * o.granularity < w64
    → (s' : o.State) × (attempt o k r size s ≡ o.virtual_alloc (r + k * o.granularity) size s')
attempt_lem o zero r size s low = (s, ap (λ (x : ℕ). o.virtual_alloc x size s) (omega arith))
attempt_lem o (suc k) r size s low =
    let next = add64-exact r o.granularity (omega arith) in
    let (s', e) =
      attempt_lem o k (add64 r o.granularity) size (o.virtual_alloc r size s).1
        (omega (arith, next)) in
    (s', e ∙ ap (λ (x : ℕ). o.virtual_alloc x size s') (omega (arith, next)))

-- What VirtualAlloc documents: an address that is asked for is rounded down to a multiple of the
-- allocation granularity, without one the system chooses such a multiple; the region is in the
-- lower half of the address space; and the granularity is a multiple of the page size.
pub record IsReserving (o : Os) : Type 0 where
  pub rounded :
      (r size a : ℕ) (s : o.State)
      → 0 < r
      → (o.virtual_alloc r size s).0 ≡ some a
      → a ≡ r / o.granularity * o.granularity
  pub anywhere :
      (size a : ℕ) (s : o.State)
      → (o.virtual_alloc 0 size s).0 ≡ some a
      → (0 < a) × (a % o.granularity ≡ 0)
  pub low :
      (r size a : ℕ) (s : o.State)
      → (o.virtual_alloc r size s).0 ≡ some a
      → a + size + o.granularity < sign64
  pub pages_per_unit : ℕ
  pub whole : o.granularity ≡ pages_per_unit * 2 ^ o.page_shift
  pub some_unit : 0 < o.granularity

pub multiple_lem : (a g : ℕ) → a % g ≡ 0 → a ≡ a / g * g
multiple_lem a g e = omega (arith, div-add-mod' a g)

pub mod-sum : (a b g : ℕ) → a % g ≡ 0 → b % g ≡ 0 → (a + b) % g ≡ 0
mod-sum a b g ea eb =
    let both : a + b ≡ (a / g + b / g) * g =
      omega (arith, multiple_lem a g ea, multiple_lem b g eb) in
    rw both (mul-mod_left (a / g + b / g) g)

module _ {o : Os} (law : IsReserving o) where
  -- A multiple of the granularity is a multiple of the page size.
  pub page_aligned : (a : ℕ) → a % o.granularity ≡ 0 → a % 2 ^ o.page_shift ≡ 0
  page_aligned a e =
      let units = multiple_lem a o.granularity e in
      let pages : a ≡ (a / o.granularity * law.pages_per_unit) * 2 ^ o.page_shift =
        omega (arith, units, ap (λ (g : ℕ). (a / o.granularity) * g) law.whole) in
      ap (λ (x : ℕ). x % 2 ^ o.page_shift) pages
      ∙ mul-mod_left (a / o.granularity * law.pages_per_unit) (2 ^ o.page_shift)

  -- A granted address is a multiple of the granularity, not 0 and not below the one asked for.
  pub granted_at :
      (k r size a : ℕ) (s : o.State)
      → r % o.granularity ≡ 0
      → r + k * o.granularity < w64
      → IsGranted o k r size a s
      → (0 < a) × (r ≤ a) × (a % o.granularity ≡ 0) × (a + size + o.granularity < sign64)
  granted_at k r size a s aligned low g =
      let (s', e) = attempt_lem o k r size s low in
      let answer : (o.virtual_alloc (r + k * o.granularity) size s').0 ≡ some a =
        ap (λ (x : Option ℕ × o.State). x.0) (sym e) ∙ g.granted in
      let top = law.low (r + k * o.granularity) size a s' answer in
      elim (Bool-cases (r + k * o.granularity == 0)) [
        | inl null ↦
            let zero_lem : r + k * o.granularity ≡ 0 = ground arith in
            let (pos, unit) =
              law.anywhere size a s'
                (ap (λ (x : ℕ). (o.virtual_alloc x size s').0) (sym zero_lem) ∙ answer) in
            (pos, omega (arith, zero_lem), unit, top)
        | inr some_address ↦
            let positive : 0 < r + k * o.granularity = ground arith in
            let at = law.rounded (r + k * o.granularity) size a s' positive answer in
            let exact : (r + k * o.granularity) % o.granularity ≡ 0 =
              mod-sum r (k * o.granularity) o.granularity aligned (mul-mod_left k o.granularity) in
            let same = multiple_lem (r + k * o.granularity) o.granularity exact in
            (
              omega (arith, at, same),
              omega (arith, at, same),
              ap (λ (x : ℕ). x % o.granularity) (at ∙ sym same) ∙ exact,
              top,
            )
      ]
