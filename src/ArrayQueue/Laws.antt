-- ===== src/ArrayQueue/Laws.antt =====
-- addQueue and deleteQueue on a circular array, against a list of items with the front first.
use native.Mathlib.Nat.{mod-eq_of_lt, add-mod_right}
use vcmalloc_bench.Base.{
  ℕ, zero, suc, ◌+◌, ◌-◌, ◌%◌, ◌≤◌, ◌<◌, ◌≡◌, ◌≢◌, refl, sym, ap, ◌∙◌, arith, false, some, List, [],
  ◌∷◌, ◌++◌, length, length-append, get_elem?, ltb, ◌==◌, if◌then◌else◌, inl, inr, Bool-cases,
}
use vcmalloc_bench.ArrayQueue.{QueueType, set_cell, enqueue, dequeue, array_front}

-- A position behind the last cell, counted on from the first.
abbrev pub wrap : ℕ → ℕ → ℕ
wrap max j = if ltb j max then j else j - max

wrap-mod : (j max : ℕ) → j < max + max → j % max ≡ wrap max j
wrap-mod j max h = elim (Bool-cases (ltb j max)) [
  | inl low ↦ rw low (mod-eq_of_lt (ground arith))
  | inr high ↦
      let back : j ≡ j - max + max = ground arith in
      rw high
        (ap (λ (k : ℕ). k % max) back ∙ add-mod_right (j - max) max ∙ mod-eq_of_lt (omega arith))
]

wrap-lt : (max j : ℕ) → j < max + max → wrap max j < max
wrap-lt max j h = ground arith

wrap-next :
    (max front n : ℕ)
    → front < max
    → n < max
    → (wrap max (front + n) + 1) % max ≡ wrap max (front + (n + 1))
wrap-next max front n h k = wrap-mod _ max (ground arith) ∙ ground arith

wrap-apart :
    (max front i n : ℕ)
    → front < max
    → n < max
    → i < n
    → wrap max (front + i) ≢ wrap max (front + n)
wrap-apart max front i n h k l e = ground (arith, e)

wrap-front :
    (max front i : ℕ)
    → front < max
    → i < max
    → wrap max (wrap max (front + 1) + i) ≡ wrap max (front + suc i)
wrap-front max front i h k = ground arith

module _ {A : Type 0} where
  CellSet : List A → ℕ → A → Type 0
  CellSet xs i a =
      (ys : List A) × (set_cell xs i a ≡ some ys)
      × (length ys ≡ length xs)
      × (get_elem? ys i ≡ some a)
      × ((j : ℕ) → j ≢ i → get_elem? ys j ≡ get_elem? xs j)

  others :
      (x : A) (xs ys : List A) (i : ℕ)
      → ((j : ℕ) → j ≢ i → get_elem? ys j ≡ get_elem? xs j)
      → (j : ℕ) → j ≢ suc i
      → get_elem? (x ∷ ys) j ≡ get_elem? (x ∷ xs) j
  others x xs ys i miss zero ne = refl
  others x xs ys i miss (suc j) ne = miss j (λ h. ne (ap suc h))

  tail_kept : (x a : A) (xs : List A) (j : ℕ) → j ≢ 0 → get_elem? (a ∷ xs) j ≡ get_elem? (x ∷ xs) j
  tail_kept x a xs zero ne = absurd (ne refl)
  tail_kept x a xs (suc j) ne = refl

  cell_behind : (x : A) (xs : List A) (i : ℕ) (a : A) → CellSet xs i a → CellSet (x ∷ xs) (suc i) a
  unfolding CellSet set_cell
  cell_behind x xs i a (ys, e, same, hit, miss) =
      (x ∷ ys, rw (e, set_cell), ap suc same, hit, others x xs ys i miss)

  set_cell-CellSet : (xs : List A) (i : ℕ) (a : A) → i < length xs → CellSet xs i a
  unfolding CellSet set_cell
  set_cell-CellSet [] i a h = absurd (omega arith)
  set_cell-CellSet (x ∷ xs) zero a h = (a ∷ xs, refl, refl, refl, tail_kept x a xs)
  set_cell-CellSet (x ∷ xs) (suc i) a h =
      cell_behind x xs i a (set_cell-CellSet xs i a (omega arith))

  get_elem?-before :
      (xs ys : List A) (i : ℕ) → i < length xs → get_elem? (xs ++ ys) i ≡ get_elem? xs i
  get_elem?-before [] ys i h = absurd (omega arith)
  get_elem?-before (x ∷ xs) ys zero h = refl
  get_elem?-before (x ∷ xs) ys (suc i) h = get_elem?-before xs ys i (omega arith)

  get_elem?-last :
      (xs : List A) (y : A) (i : ℕ) → i ≡ length xs → get_elem? (xs ++ y ∷ []) i ≡ some y
  get_elem?-last [] y i h = rw h
  get_elem?-last (x ∷ xs) y zero h = absurd (omega arith)
  get_elem?-last (x ∷ xs) y (suc i) h = get_elem?-last xs y i (omega arith)

  -- A queue whose cells from the front on, around the end of the array, hold the items.
  pub record IsQueue (q : QueueType A) (xs : List A) : Type 0 where
    pub size : length q.list ≡ q.max_queue_size
    pub count : q.count ≡ length xs
    pub fits : length xs ≤ q.max_queue_size
    pub front : q.queue_front < q.max_queue_size
    pub rear :
        (q.queue_rear + 1) % q.max_queue_size ≡ wrap q.max_queue_size (q.queue_front + length xs)
    pub items :
        (i : ℕ)
        → i < length xs
        → get_elem? q.list (wrap q.max_queue_size (q.queue_front + i)) ≡ get_elem? xs i

  -- The item after those that were there, once its cell is set.
  added :
      (item : A) (q : QueueType A) (xs : List A)
      → IsQueue q xs
      → length xs < q.max_queue_size
      → CellSet q.list (wrap q.max_queue_size (q.queue_front + length xs)) item
      → (q' : QueueType A) × (enqueue item q ≡ some q') × IsQueue q' (xs ++ item ∷ [])
  unfolding CellSet enqueue
  added item q xs is more (ys, e, same, hit, miss) =
      let room : (q.count == q.max_queue_size) ≡ false = let c = is.count in ground arith in
      (
        record q {
          queue_rear = wrap q.max_queue_size (q.queue_front + length xs);
          count = q.count + 1;
          list = ys;
        },
        rw room (
            rw is.rear (
              rw e (
                ap (λ (r : ℕ). some (record q { queue_rear = r; count = q.count + 1; list = ys }))
                  is.rear))),
        record {
          size = same ∙ is.size;
          count = omega (arith, is.count, length-append xs (item ∷ []));
          fits = omega (arith, length-append xs (item ∷ []));
          front = is.front;
          rear =
              wrap-next q.max_queue_size q.queue_front (length xs) is.front more
              ∙ ap (λ (n : ℕ). wrap q.max_queue_size (q.queue_front + n))
                  (sym (length-append xs (item ∷ [])));
          items = λ i lt. elim (Bool-cases (ltb i (length xs))) [
            | inl old ↦
                let before : i < length xs = ground arith in
                miss _
                  (wrap-apart q.max_queue_size q.queue_front i (length xs) is.front more before)
                ∙ is.items i before
                ∙ sym (get_elem?-before xs (item ∷ []) i before)
            | inr new ↦
                let at : i ≡ length xs = ground (arith, length-append xs (item ∷ [])) in
                ap (λ (n : ℕ). get_elem? ys (wrap q.max_queue_size (q.queue_front + n))) at
                ∙ hit
                ∙ sym (get_elem?-last xs item i at)
          ];
        },
      )

  -- On a circular array whose cells from the front on hold a list of items, with fewer items than
  -- cells, addQueue writes inside the array, and the cells then hold those items and the new one
  -- behind them.
  pub enqueue-IsQueue :
      (item : A) (q : QueueType A) (xs : List A)
      → IsQueue q xs
      → length xs < q.max_queue_size
      → (q' : QueueType A) × (enqueue item q ≡ some q') × IsQueue q' (xs ++ item ∷ [])
  enqueue-IsQueue item q xs is more = added item q xs is more (
      set_cell-CellSet q.list _ item
        (omega (arith, is.size, is.front, wrap-lt q.max_queue_size (q.queue_front + length xs))))

  -- On a circular array whose cells from the front on hold a list that is not empty, front is its
  -- first item, and after deleteQueue the cells hold the others.
  pub dequeue-IsQueue :
      (x : A) (q : QueueType A) (xs : List A)
      → IsQueue q (x ∷ xs)
      → (array_front q ≡ some x) × IsQueue (dequeue q) xs
  unfolding dequeue array_front
  dequeue-IsQueue x q xs is =
      let filled : (q.count == 0) ≡ false = let c = is.count in ground arith in
      let next = wrap-mod (q.queue_front + 1) q.max_queue_size (omega (arith, is.front, is.fits)) in
      let at : wrap q.max_queue_size (q.queue_front + 0) ≡ q.queue_front =
        let f = is.front in ground arith in
      (
        rw filled (ap (get_elem? q.list) (sym at) ∙ is.items 0 (omega arith)),
        rw filled (
            rw next (record {
              size = is.size;
              count = omega (arith, is.count);
              fits = omega (arith, is.fits);
              front =
                  wrap-lt q.max_queue_size (q.queue_front + 1) (omega (arith, is.front, is.fits));
              rear =
                  is.rear
                  ∙ sym (
                      wrap-front q.max_queue_size q.queue_front (length xs) is.front
                        (omega (arith, is.fits)));
              items = λ i lt.
                  ap (get_elem? q.list)
                    (wrap-front q.max_queue_size q.queue_front i is.front (omega (arith, is.fits)))
                  ∙ is.items (suc i) (omega arith);
            })),
      )
