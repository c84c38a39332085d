-- ===== src/Machine/Remap.antt =====
-- Pages that are taken away and mapped again, and the frames of lists that are put together.
use native.Mathlib.Nat.{mul-div_left, mul-mod_left}
use native.Mathlib.Decide.{dec_lt}
use vcmalloc_bench.Base.{
  ℕ, ◌+◌, ◌-◌, ◌*◌, ◌/◌, ◌%◌, ◌^◌, ◌≤◌, ◌<◌, ◌≡◌, sym, ap, ◌∙◌, arith, true, false, some, List,
  ◌++◌, length, take, drop, length-take, length-append, get_elem?, get_elem?-take, get_elem?-drop,
  get_elem?-append_left, get_elem?-append_right, get_elem?-lt, ◌⊎◌, inl, inr,
}
use vcmalloc_bench.Machine.Os.{Os}
use vcmalloc_bench.Machine.Mmu.{in_range, IsMmu, IsMapped}

-- Frames that were put between the first k of a list and the others.
pub spliced_cases :
    (k : ℕ) (xs ys : List ℕ) (i f : ℕ)
    → k ≤ length xs
    → get_elem? (take k xs ++ ys ++ drop k xs) i ≡ some f
    → ((i < k) × (get_elem? xs i ≡ some f))
      ⊎ (((k ≤ i) × (i < k + length ys) × (get_elem? ys (i - k) ≡ some f))
          ⊎ ((k + length ys ≤ i) × (get_elem? xs (i - length ys) ≡ some f)))
spliced_cases k xs ys i f le e =
    let front = length-take k xs in
    let both = length-append (take k xs) ys in
    elim (dec_lt i k) [
      | yes lt ↦ inl (
        lt,
        sym (get_elem?-take k xs i lt)
            ∙ sym (get_elem?-append_left (take k xs) ys i (omega (arith, front)))
            ∙ sym
                (get_elem?-append_left (take k xs ++ ys) (drop k xs) i (omega (arith, front, both)))
            ∙ e,
      )
      | no ge ↦ elim (dec_lt i (k + length ys)) [
        | yes lt ↦ inr (
            inl (
              omega arith,
              lt,
              sym (get_elem?-append_right (take k xs) ys i (i - k) (omega (arith, front)))
                  ∙ sym (
                      get_elem?-append_left (take k xs ++ ys) (drop k xs) i
                        (omega (arith, front, both)))
                  ∙ e,
            ))
        | no above ↦ inr (
            inr (
              omega arith,
              sym (get_elem?-drop k xs (i - length ys - k) (i - length ys) (omega arith))
                  ∙ sym (
                      get_elem?-append_right (take k xs ++ ys) (drop k xs) i (i - length ys - k)
                        (omega (arith, front, both)))
                  ∙ e,
            ))
      ]
    ]

pub spliced_front :
    (k : ℕ) (xs ys : List ℕ) (i : ℕ)
    → k ≤ length xs
    → i < k
    → get_elem? (take k xs ++ ys ++ drop k xs) i ≡ get_elem? xs i
spliced_front k xs ys i le lt =
    let front = length-take k xs in
    let both = length-append (take k xs) ys in
    get_elem?-append_left (take k xs ++ ys) (drop k xs) i (omega (arith, front, both))
    ∙ get_elem?-append_left (take k xs) ys i (omega (arith, front))
    ∙ get_elem?-take k xs i lt

pub spliced_behind :
    (k : ℕ) (xs ys : List ℕ) (i i' : ℕ)
    → k ≤ length xs
    → k ≤ i
    → i' ≡ i + length ys
    → get_elem? (take k xs ++ ys ++ drop k xs) i' ≡ get_elem? xs i
spliced_behind k xs ys i i' le above shift =
    let front = length-take k xs in
    let both = length-append (take k xs) ys in
    get_elem?-append_right (take k xs ++ ys) (drop k xs) i' (i - k) (omega (arith, front, both))
    ∙ get_elem?-drop k xs (i - k) i (omega arith)

-- The first k frames of a list and those from m on.
pub joined_cases :
    (k m : ℕ) (xs : List ℕ) (i f : ℕ)
    → k ≤ m
    → k ≤ length xs
    → get_elem? (take k xs ++ drop m xs) i ≡ some f
    → ((i < k) × (get_elem? xs i ≡ some f)) ⊎ ((k ≤ i) × (get_elem? xs (i + (m - k)) ≡ some f))
joined_cases k m xs i f le short e =
    let front = length-take k xs in
    elim (dec_lt i k) [
      | yes lt ↦ inl (
        lt,
        sym (get_elem?-take k xs i lt)
            ∙ sym (get_elem?-append_left (take k xs) (drop m xs) i (omega (arith, front)))
            ∙ e,
      )
      | no ge ↦ inr (
        omega arith,
        sym (get_elem?-drop m xs (i - k) (i + (m - k)) (omega arith))
            ∙ sym (get_elem?-append_right (take k xs) (drop m xs) i (i - k) (omega (arith, front)))
            ∙ e,
      )
    ]

pub joined_front :
    (k m : ℕ) (xs : List ℕ) (i : ℕ)
    → k ≤ length xs
    → i < k
    → get_elem? (take k xs ++ drop m xs) i ≡ get_elem? xs i
joined_front k m xs i le lt =
    get_elem?-append_left (take k xs) (drop m xs) i (omega (arith, length-take k xs))
    ∙ get_elem?-take k xs i lt

pub joined_behind :
    (k m : ℕ) (xs : List ℕ) (i i' : ℕ)
    → k ≤ length xs
    → m ≤ i
    → i' + m ≡ i + k
    → get_elem? (take k xs ++ drop m xs) i' ≡ get_elem? xs i
joined_behind k m xs i i' le above shift =
    get_elem?-append_right (take k xs) (drop m xs) i' (i - m) (omega (arith, length-take k xs))
    ∙ get_elem?-drop m xs (i - m) i (omega arith)

module _ {o : Os} (mmu : IsMmu o) where
  abbrev pub size : ℕ
  size = 2 ^ o.page_shift

  pub IsMapped-kept :
      (p : ℕ) (fs : List ℕ) (s s' : o.State)
      → ((q f : ℕ) → o.frame_at s q ≡ some f → o.frame_at s' q ≡ some f)
      → ((f : ℕ) → mmu.owned s f ≡ true → mmu.owned s' f ≡ true)
      → IsMapped mmu p fs s
      → IsMapped mmu p fs s'
  IsMapped-kept p fs s s' kept owns is = record {
    pages = λ i f e. kept (p + i) f (is.pages i f e);
    distinct = is.distinct;
    held = λ i f e. owns f (is.held i f e);
  }

  -- The pages below the n-th one are the first frames of a list.
  abbrev pub Lower : (p n : ℕ) → List ℕ → o.State → Type 0
  Lower p n fs s = (i f : ℕ) → i < n → get_elem? fs i ≡ some f → o.frame_at s (p + i) ≡ some f

  module _ (p n : ℕ) (fs : List ℕ) (a : ℕ) (at : a ≡ (p + n) * size) (some_byte : 0 < size) where
    aligned : a % size ≡ 0
    aligned = ap (λ (x : ℕ). x % size) at ∙ mul-mod_left (p + n) size

    page : a / size ≡ p + n
    page = ap (λ (x : ℕ). x / size) at ∙ mul-div_left (p + n) some_byte

    pub Lower-unmap :
        (m : ℕ) (s : o.State)
        → (o.unmap_pages a m s).0 ≡ true
        → Lower p n fs s
        → Lower p n fs (o.unmap_pages a m s).1
    Lower-unmap m s done lower i f lt e =
        let outside : in_range (a / size) m (p + i) ≡ false = rw page (ground arith) in
        mmu.unmapped_at a m s (p + i) aligned done ∙ rw outside (lower i f lt e)

    -- With the other frames mapped again from there on, all pages are the frames of the list.
    pub map_frames-pages :
        (rest : List ℕ) (s : o.State)
        → (o.map_frames a rest s).0 ≡ true
        → rest ≡ drop n fs
        → Lower p n fs s
        → (i f : ℕ) → get_elem? fs i ≡ some f
        → o.frame_at (o.map_frames a rest s).1 (p + i) ≡ some f
    map_frames-pages rest s done same lower i f e =
        let law = mmu.mapped_at a rest s (p + i) aligned done in
        elim (dec_lt i n) [
          | yes lt ↦
              let outside : in_range (a / size) (length rest) (p + i) ≡ false =
                rw page (ground arith) in
              law ∙ rw outside (lower i f lt e)
          | no ge ↦
              let here : get_elem? rest (i - n) ≡ some f =
                ap (λ (l : List ℕ). get_elem? l (i - n)) same
                ∙ get_elem?-drop n fs (i - n) i (omega arith)
                ∙ e in
              let lt = get_elem?-lt rest (i - n) f here in
              let inside : in_range (a / size) (length rest) (p + i) ≡ true =
                rw page (ground arith) in
              let index : p + i - a / size ≡ i - n = omega (arith, page) in
              law ∙ rw inside (ap (get_elem? rest) index ∙ here)
        ]

  -- A call for memory, or none, leaves the pages as they are.
  pub heap_lem :
      (p : ℕ) (fs : List ℕ) (s s' : o.State)
      → (s' ≡ s) ⊎ ((n : ℕ) × (s' ≡ (o.heap_alloc n s).1))
      → IsMapped mmu p fs s
      → IsMapped mmu p fs s'
  heap_lem p fs s s' (inl same) is = rw same is
  heap_lem p fs s s' (inr (n, same)) is = rw same (
      IsMapped-kept p fs s (o.heap_alloc n s).1 (λ q f e. mmu.heap_kept n s q ∙ e)
        (mmu.heap_owns n s) is)
