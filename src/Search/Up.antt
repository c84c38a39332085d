-- ===== src/Search/Up.antt =====
-- The first loop of binarySearch, and the whole function: on a non-empty ascending array whose
-- first address is not above the one looked for, it ends inside the array with the right answer.
use native.Mathlib.Nat.{pow-suc, one-le-pow}
use vcmalloc_bench.Base.{
  ℕ, zero, suc, ◌+◌, ◌-◌, ◌^◌, ◌≤◌, ◌<◌, ◌≡◌, refl, List, arith, sign64, length, ltb, ◌==◌,
  get_elem?-eq-get_or, add64, add64-exact, sub64, sub64-exact, Bool-cases, inl, inr, some, false,
  true, ap, if◌then◌else◌,
}
use vcmalloc_bench.Search.{missing, down_loop, up_loop, binary_search, msb}
use vcmalloc_bench.Search.Msb.{halving, halving-half, IsMsb, msb-IsMsb}
use vcmalloc_bench.Search.Down.{
  ◌!◌, IsTable, Explains, Explains-widen, distance-negative, down_loop-step, down_loop-Explains,
  after, before,
}

module _ {xs : List ℕ} (table : IsTable xs) (elem : ℕ) (low : elem < sign64) (t : ℕ) where
  -- The second loop from an index at or before the address, with the next power of two behind it.
  turn :
      (k prev fuel : ℕ)
      → k < fuel
      → prev + 2 ^ k < length xs
      → xs ! prev ≤ elem
      → Explains xs elem prev (prev + 2 ^ k) t (down_loop fuel xs elem prev (halving k))
  turn k prev zero h r below = absurd (omega arith)
  turn zero prev (suc fuel) h r below =
      rw (down_loop-step table elem low fuel prev 0 (omega arith))
        (elim (Bool-cases (xs ! prev == elem)) [
          | inl hit ↦ rw hit (omega arith, ground arith)
          | inr miss ↦ rw miss (λ a b c e.
              let same : t ≡ prev = omega arith in ground (arith, ap (λ (j : ℕ). xs ! j) same))
        ])
  turn (suc k) prev (suc fuel) h r below =
      let pos = one-le-pow k 2 (omega arith) in
      let double = pow-suc 2 k in
      let more : (2 ^ k == 0) ≡ false = ground arith in
      rw (down_loop-step table elem low fuel prev (2 ^ k) (omega arith), halving-half k)
        (elim (Bool-cases (xs ! prev == elem)) [
          | inl hit ↦ rw hit (omega arith, ground arith)
          | inr miss ↦
              let up : ltb (xs ! prev) elem ≡ true = ground arith in
              rw (miss, more, up, add64-exact prev (2 ^ k) (omega (arith, table.short)))
                (Explains-widen xs elem _ _ _ _ t _
                  (down_loop-Explains table elem low t k fuel (prev + 2 ^ k) (omega arith)
                    (omega arith) (omega arith))
                  λ a b c e.
                    (omega (arith, after table elem low prev t (omega arith) up c e), omega arith))
        ])

  land :
      (k prev index fuel : ℕ)
      → k < fuel
      → prev + halving k ≡ index
      → index < length xs
      → xs ! prev ≤ elem
      → ltb (xs ! index) elem ≡ false
      → Explains xs elem 0 (length xs) t (down_loop fuel xs elem index (halving k))
  land k prev index zero h at r below stop = absurd (omega arith)
  land zero prev index (suc fuel) h at r below stop =
      let same : prev ≡ index = omega arith in
      let hit : (xs ! index == elem) ≡ true = ground (arith, ap (λ (j : ℕ). xs ! j) same) in
      rw (down_loop-step table elem low fuel index 0 r, hit) (omega arith, ground arith)
  land (suc k) prev index (suc fuel) h at r below stop =
      let pos = one-le-pow k 2 (omega arith) in
      let more : (2 ^ k == 0) ≡ false = ground arith in
      let back : index - 2 ^ k ≡ prev = omega arith in
      rw (down_loop-step table elem low fuel index (2 ^ k) r, halving-half k)
        (elim (Bool-cases (xs ! index == elem)) [
          | inl hit ↦ rw hit (omega arith, ground arith)
          | inr miss ↦
              rw
                (
                  miss,
                  more,
                  stop,
                  sub64-exact index (2 ^ k) (omega arith) (omega (arith, table.short)),
                  back,
                )
                (Explains-widen xs elem _ _ _ _ t _
                  (turn k prev fuel (omega arith) (omega arith) below)
                  λ a b c e. (
                    ground (arith, table.ascending t prev),
                    omega (arith, before table elem low index t r c miss stop e),
                  ))
        ])

  -- One round of the first loop, on each of its branches.
  pub up_loop-stop :
      (fuel max index step : ℕ)
      → index < length xs
      → ltb (xs ! index) elem ≡ false
      → up_loop (suc fuel) xs elem max index step ≡ down_loop 66 xs elem index step
  unfolding up_loop
  up_loop-stop fuel max index step r stop =
      rw (get_elem?-eq-get_or xs index 0 r, up_loop)
        (rw (distance-negative table elem low index r, stop))

  up_loop-climb :
      (fuel max index step m : ℕ)
      → index < length xs
      → ltb (xs ! index) elem ≡ true
      → msb (sub64 max index) ≡ some m
      → up_loop (suc fuel) xs elem max index step
        ≡ (if m == 0 then missing else up_loop fuel xs elem max (add64 index m) m)
  unfolding up_loop
  up_loop-climb fuel max index step m r up e =
      rw (get_elem?-eq-get_or xs index 0 r, up_loop)
        (rw (distance-negative table elem low index r, up) (rw e))

  -- What the induction on the fuel of the first loop shows: from an index that a step from `prev`
  -- has reached, with the address not before `prev`.
  abbrev Climbs : (fuel max : ℕ) → Type 0
  Climbs fuel max =
      (k prev index : ℕ)
      → max - index < fuel
      → prev + halving k ≡ index
      → index ≤ max
      → k ≤ 63
      → xs ! prev ≤ elem
      → Explains xs elem 0 (length xs) t (up_loop fuel xs elem max index (halving k))

  climb :
      (fuel max step index : ℕ)
      → suc max ≡ length xs
      → Climbs fuel max
      → max - index < suc fuel
      → index ≤ max
      → (m : ℕ) × (msb (sub64 max index) ≡ some m) × IsMsb (max - index) m
      → ltb (xs ! index) elem ≡ true
      → Explains xs elem 0 (length xs) t (up_loop (suc fuel) xs elem max index step)
  climb fuel max step index len ih h r (m, e, (zero, at, le, lt, small)) up =
      rw (up_loop-climb fuel max index step m (omega arith) up e, at)
        (λ a b c e'. omega (arith, after table elem low index t (omega arith) up c e'))
  climb fuel max step index len ih h r (m, e, (suc k, at, le, lt, small)) up =
      let pos = one-le-pow k 2 (omega arith) in
      let more : (2 ^ k == 0) ≡ false = ground arith in
      rw
        (
          up_loop-climb fuel max index step m (omega arith) up e,
          at,
          more,
          add64-exact index (2 ^ k) (omega (arith, table.short)),
        )
        (ih (suc k) index (index + 2 ^ k) (omega arith) refl (omega arith) small (ground arith))

  up_loop-Explains : (fuel max : ℕ) → suc max ≡ length xs → Climbs fuel max
  up_loop-Explains zero max len k prev index h at r kk below = absurd (omega arith)
  up_loop-Explains (suc fuel) max len k prev index h at r kk below =
      elim (Bool-cases (ltb (xs ! index) elem)) [
        | inr stop ↦
            rw (up_loop-stop fuel max index (halving k) (omega arith) stop)
              (land k prev index 66 (omega arith) at (omega arith) below stop)
        | inl up ↦
            let exact = sub64-exact max index r (omega (arith, table.short)) in
            climb fuel max (halving k) index len (up_loop-Explains fuel max len) h r
              (rw exact (msb-IsMsb (max - index) (omega (arith, table.short)))) up
      ]

  pub binary_search-up_loop :
      (m : ℕ)
      → msb (sub64 (length xs) 1) ≡ some m
      → binary_search (length xs) xs elem ≡ up_loop (length xs) xs elem (sub64 (length xs) 1) m m
  unfolding binary_search
  binary_search-up_loop m e = rw (e, binary_search)

  -- On a non-empty ascending array whose first address is not above the one looked for, the
  -- search ends without a read outside the array, and its answer tells where the address is.
  pub binary_search-Explains :
      0 < length xs
      → xs ! 0 ≤ elem
      → Explains xs elem 0 (length xs) t (binary_search (length xs) xs elem)
  binary_search-Explains some_cell below =
      let exact = sub64-exact (length xs) 1 some_cell (omega (arith, table.short)) in
      let (m, e, (k, at, le, lt, small)) =
        msb-IsMsb (sub64 (length xs) 1) (omega (arith, exact, table.short)) in
      rw (binary_search-up_loop m e, at, exact)
        (up_loop-Explains (length xs) (length xs - 1) (omega arith) k 0 (halving k) (omega arith)
          (omega arith) (omega (arith, exact)) small below)
