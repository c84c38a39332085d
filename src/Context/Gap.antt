-- ===== src/Context/Gap.antt =====
-- The array of frames when frames are put between others, or taken out from between them.
use vcmalloc_bench.Base.{
  ltb, inl, inr, Bool-cases, get_elem?, get_elem?-take, get_elem?-drop, get_elem?-append_left,
  get_elem?-append_right, if◌then◌else◌, ◌<◌, ℕ, ◌+◌, ◌-◌, ◌≤◌, ◌≡◌, sym, ap, ◌∙◌, arith, true,
  some, List, ◌++◌, length, length-append, length-take, length-drop, take, drop, take-take,
  drop-take, drop-append, take-append_left, take-append_right, take-append_both, leb,
}
use vcmalloc_bench.Context.{slice, write_at, move_cells}

pub write_at-some :
    (xs : List ℕ) (i : ℕ) (ys : List ℕ)
    → i + length ys ≤ length xs
    → write_at xs i ys ≡ some (take i xs ++ ys ++ drop (i + length ys) xs)
unfolding write_at
write_at-some xs i ys h =
    let test : leb (i + length ys) (length xs) ≡ true = ground arith in rw test

pub slice-some :
    (xs : List ℕ) (i n : ℕ) → i + n ≤ length xs → slice xs i n ≡ some (take n (drop i xs))
unfolding slice
slice-some xs i n h = let test : leb (i + n) (length xs) ≡ true = ground arith in rw test

module _ (xs : List ℕ) (i : ℕ) (ys : List ℕ) (h : i + length ys ≤ length xs) where
  pub length-written : length (take i xs ++ ys ++ drop (i + length ys) xs) ≡ length xs
  length-written = omega (
    arith,
    length-append (take i xs ++ ys) (drop (i + length ys) xs),
    length-append (take i xs) ys,
    length-take i xs,
    length-drop (i + length ys) xs,
  )

  length-front : length (take i xs ++ ys) ≡ i + length ys
  length-front = omega (arith, length-append (take i xs) ys, length-take i xs)

  -- The cells before the written ones.
  pub take-before :
      (j : ℕ) → j ≤ i → take j (take i xs ++ ys ++ drop (i + length ys) xs) ≡ take j xs
  take-before j le =
      take-append_left j (take i xs ++ ys) _ (omega (arith, length-front))
      ∙ take-append_left j (take i xs) ys (omega (arith, length-take i xs))
      ∙ take-take j i xs le

  -- The written cells, with those before them.
  pub take-written :
      (n : ℕ)
      → n ≡ i + length ys
      → take n (take i xs ++ ys ++ drop (i + length ys) xs) ≡ take i xs ++ ys
  take-written n e =
      take-append_both (take i xs) ys (drop (i + length ys) xs) n (omega (arith, length-take i xs))

-- A gap of `n` cells is opened at cell `i` of `num` live ones and filled: the new cells stand
-- between the live ones.
pub opened :
    (xs : List ℕ) (i n num : ℕ) (ys : List ℕ)
    → i ≤ num
    → num + n ≤ length xs
    → length ys ≡ n
    → (zs : List ℕ) × (move_cells xs (i + n) i (num - i) ≡ some zs)
      × (length zs ≡ length xs)
      × (us : List ℕ) × (write_at zs i ys ≡ some us)
      × (length us ≡ length xs)
      × (take (num + n) us ≡ take i (take num xs) ++ ys ++ drop i (take num xs))
unfolding move_cells
opened xs i n num ys le room e =
    let block = take (num - i) (drop i xs) in
    let size : length block ≡ num - i =
      omega (arith, length-take (num - i) (drop i xs), length-drop i xs) in
    let zs = take (i + n) xs ++ block ++ drop (i + n + length block) xs in
    let same = length-written xs (i + n) block (omega arith) in
    let us = take i zs ++ ys ++ drop (i + length ys) zs in
    (
      zs,
      rw (slice-some xs i (num - i) (omega arith), move_cells)
          (write_at-some xs (i + n) block (omega arith)),
      same,
      us,
      write_at-some zs i ys (omega arith),
      length-written zs i ys (omega arith) ∙ same,
      take-append_right (num - i) (num + n) (take i zs ++ ys) (drop (i + length ys) zs)
            (omega (arith, length-front zs i ys (omega arith)))
          ∙ ap (λ (l : List ℕ). take i zs ++ ys ++ l)
              (sym (drop-take (i + length ys) (num - i) (num + n) zs (omega arith))
                ∙ ap (drop (i + length ys))
                    (take-written xs (i + n) block (omega arith) (num + n) (omega arith))
                ∙ drop-append (i + length ys) (take (i + n) xs) block
                    (omega (arith, length-take (i + n) xs))
                ∙ sym (drop-take i (num - i) num xs (omega arith)))
          ∙ ap (λ (l : List ℕ). l ++ ys ++ drop i (take num xs))
              (take-before xs (i + n) block (omega arith) i (omega arith)
                ∙ sym (take-take i num xs le)),
    )

-- The gap of `n` cells at cell `i` is closed: the live cells behind it follow those before it.
pub closed :
    (xs : List ℕ) (i n num : ℕ)
    → i + n ≤ num
    → num ≤ length xs
    → (zs : List ℕ) × (move_cells xs i (i + n) (num - (i + n)) ≡ some zs)
      × (length zs ≡ length xs)
      × (take (num - n) zs ≡ take i (take num xs) ++ drop (i + n) (take num xs))
unfolding move_cells
closed xs i n num le room =
    let block = take (num - (i + n)) (drop (i + n) xs) in
    let size : length block ≡ num - (i + n) =
      omega (arith, length-take (num - (i + n)) (drop (i + n) xs), length-drop (i + n) xs) in
    (
      take i xs ++ block ++ drop (i + length block) xs,
      rw (slice-some xs (i + n) (num - (i + n)) (omega arith), move_cells)
          (write_at-some xs i block (omega arith)),
      length-written xs i block (omega arith),
      take-written xs i block (omega arith) (num - n) (omega arith)
          ∙ ap (λ (l : List ℕ). take i xs ++ l)
              (sym (drop-take (i + n) (num - (i + n)) num xs (omega arith)))
          ∙ ap (λ (l : List ℕ). l ++ drop (i + n) (take num xs))
              (sym (take-take i num xs (omega arith))),
    )

-- With the gap opened and not filled, as many cells hold what they held, up to the end of the gap,
-- and what stood as many cells before, behind it.
pub shifted_cells :
    (xs : List ℕ) (i n num : ℕ)
    → i ≤ num
    → num + n ≤ length xs
    → (zs : List ℕ) × (move_cells xs (i + n) i (num - i) ≡ some zs)
      × ((j : ℕ)
          → j < num
          → get_elem? (take num zs) j ≡ (
              if ltb j (i + n) then get_elem? (take num xs) j else get_elem? (take num xs) (j - n)))
unfolding move_cells
shifted_cells xs i n num le room =
    let block = take (num - i) (drop i xs) in
    let size : length block ≡ num - i =
      omega (arith, length-take (num - i) (drop i xs), length-drop i xs) in
    let front = length-take (i + n) xs in
    let both = length-append (take (i + n) xs) block in
    (
      take (i + n) xs ++ block ++ drop (i + n + length block) xs,
      rw (slice-some xs i (num - i) (omega arith), move_cells)
          (write_at-some xs (i + n) block (omega (arith, size))),
      (λ j lt. get_elem?-take num _ j lt ∙ elim (Bool-cases (ltb j (i + n))) [
        | inl early ↦
            let below : j < i + n = ground arith in
            rw early (
              get_elem?-append_left (take (i + n) xs ++ block) _ j (omega (arith, front, both))
              ∙ get_elem?-append_left (take (i + n) xs) block j (omega (arith, front))
              ∙ get_elem?-take (i + n) xs j below
              ∙ sym (get_elem?-take num xs j lt))
        | inr late ↦
            let above : i + n ≤ j = ground arith in
            rw late (
              get_elem?-append_left (take (i + n) xs ++ block) _ j
                (omega (arith, front, both, size))
              ∙ get_elem?-append_right (take (i + n) xs) block j (j - (i + n))
                  (omega (arith, front))
              ∙ get_elem?-take (num - i) (drop i xs) (j - (i + n)) (omega arith)
              ∙ get_elem?-drop i xs (j - (i + n)) (j - n) (omega arith)
              ∙ sym (get_elem?-take num xs (j - n) (omega arith)))
      ]),
    )
