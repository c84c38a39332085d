-- ===== src/Machine/Content.antt =====
-- The bytes behind mapped pages, when pages are put in or taken out and the last bytes of a page
-- are copied with them.
use native.Mathlib.Nat.{one-le-pow, div-add-mod', mod-lt}
use native.Mathlib.Decide.{dec_lt}
use mathlib.Core.Option.{some-injective}
use vcmalloc_bench.Base.{
  ℕ, ◌+◌, ◌-◌, ◌*◌, ◌/◌, ◌%◌, ◌^◌, ◌≤◌, ◌<◌, ◌≡◌, sym, ap, ◌∙◌, arith, true, some, List, length,
  get_elem?, get_elem?-some, ◌==◌, inl, inr, Bool-cases,
}
use vcmalloc_bench.Machine.Os.{Os}
use vcmalloc_bench.Machine.Memory.{Memory, read_byte}
use vcmalloc_bench.Machine.Mmu.{IsMmu, IsMapped}
use vcmalloc_bench.Machine.Copy.{bytes_from, pasted, pasted-lem, read_byte-page}

below_lem : (i k n size : ℕ) → i * size + n < k * size → i < k
below_lem i k n size lt = elim (dec_lt i k) [
  | yes below ↦ below
  | no above ↦
      let split : i ≡ k + (i - k) = omega arith in
      let whole = ap (λ (q : ℕ). q * size) split in absurd (omega (arith, whole))
]

module _ {o : Os} (mmu : IsMmu o) (p : ℕ) (fs gs : List ℕ) (s t : o.State) (m : Memory)
    (k l n to from : ℕ) where
  abbrev size : ℕ
  size = 2 ^ o.page_shift

  -- The last `n` bytes of the frame `from` on the frame `to`.
  abbrev after : Memory
  after = pasted m to (size - n) (bytes_from (m from) (size - n) n)

  -- The pages up to the k-th have become those up to the l-th, and those behind have moved, with
  -- the last n bytes before them.
  pub record IsRepaged : Type 0 where
    pub before : IsMapped mmu p fs s
    pub now : IsMapped mmu p gs t
    pub front : (i f : ℕ) → i < k → i < l → get_elem? fs i ≡ some f → get_elem? gs i ≡ some f
    pub behind :
        (i i' f : ℕ) → k ≤ i → i' + k ≡ i + l → get_elem? fs i ≡ some f → get_elem? gs i' ≡ some f
    pub to_at : 0 < n → (0 < l) × (get_elem? gs (l - 1) ≡ some to)
    pub from_at : 0 < n → (0 < k) × (get_elem? fs (k - 1) ≡ some from)
    pub within : k ≤ length fs
    pub small : n < size

  module _ (is : IsRepaged) where
    -- A byte of another page than the one that is written, or before the bytes that are.
    untouched :
        (i j f : ℕ)
        → get_elem? gs i ≡ some f
        → j < size
        → (i + 1 ≡ l → j + n < size)
        → after f j ≡ m f j
    untouched i j f at lt early =
        let law = pasted-lem (m from) m to (size - n) n f j in
        elim (Bool-cases (f == to)) [
          | inr other ↦ ground (arith, law)
          | inl here ↦ elim (dec_lt 0 n) [
            | no none_left ↦ ground (arith, law)
            | yes some_left ↦
                let (positive, last) = is.to_at some_left in
                let same : f ≡ to = ground arith in
                let index = is.now.distinct i (l - 1) f at (last ∙ ap some (sym same)) in
                let before = early (omega arith) in ground (arith, law)
          ]
        ]

    written : (j : ℕ) → size ≤ j + n → j < size → after to j ≡ m from j
    written j late lt =
        let law = pasted-lem (m from) m to (size - n) n to j in
        let here : (to == to) ≡ true = ground arith in ground (arith, law)

    pub kept :
        (i j f : ℕ)
        → get_elem? fs i ≡ some f
        → j < size
        → i * size + (j + n) < k * size
        → i * size + (j + n) < l * size
        → read_byte o t after ((p + i) * size + j) ≡ read_byte o s m ((p + i) * size + j)
    kept i j f at lt below_k below_l =
        let there =
          is.front i f (below_lem i k (j + n) size below_k) (below_lem i l (j + n) size below_l)
            at in
        read_byte-page o t after (p + i) f j (is.now.pages i f there) lt
        ∙ ap some (
            untouched i j f there lt (λ last.
              let whole : l * size ≡ i * size + size =
                ap (λ (q : ℕ). q * size) (sym last) ∙ omega arith in
              omega arith))
        ∙ sym (read_byte-page o s m (p + i) f j (is.before.pages i f at) lt)

    pub moved :
        (i i' j f : ℕ)
        → get_elem? fs i ≡ some f
        → j < size
        → k * size ≤ i * size + (j + n)
        → i' + k ≡ i + l
        → read_byte o t after ((p + i') * size + j) ≡ read_byte o s m ((p + i) * size + j)
    moved i i' j f at lt above shift = elim (dec_lt i k) [
      | no behind ↦
          let there = is.behind i i' f (omega arith) shift at in
          read_byte-page o t after (p + i') f j (is.now.pages i' f there) lt
          ∙ ap some (untouched i' j f there lt (λ last. absurd (omega arith)))
          ∙ sym (read_byte-page o s m (p + i) f j (is.before.pages i f at) lt)
      | yes before ↦
          let two_on : (i + 2) * size ≡ i * size + size + size = omega arith in
          let close = below_lem k (i + 2) 0 size (omega (arith, two_on, is.small)) in
          let index : k ≡ i + 1 = omega arith in
          let whole : k * size ≡ i * size + size = ap (λ (q : ℕ). q * size) index ∙ omega arith in
          let late : size ≤ j + n = omega arith in
          let (some_k, source) = is.from_at (omega arith) in
          let (some_l, target) = is.to_at (omega arith) in
          let source_index : k - 1 ≡ i = omega arith in
          let same : f ≡ from =
            some-injective f from (sym at ∙ ap (get_elem? fs) (sym source_index) ∙ source) in
          let there : get_elem? gs i' ≡ some to =
            let target_index : i' ≡ l - 1 = omega arith in
            ap (get_elem? gs) target_index ∙ target in
          read_byte-page o t after (p + i') to j (is.now.pages i' to there) lt
          ∙ ap some (written j late lt)
          ∙ sym
              (read_byte-page o s m (p + i) from j (is.before.pages i from (at ∙ ap some same)) lt)
    ]

    some_byte : 0 < size
    some_byte = one-le-pow o.page_shift 2 (omega arith)

    -- The index of an address's page in the mapping, and the offset.
    place :
        (a : ℕ)
        → p * size ≤ a
        → a < (p + length fs) * size
        → (i : ℕ) × (j : ℕ) × (a ≡ (p + i) * size + j) × (j < size) × (i < length fs)
    place a lo hi =
        let parts = div-add-mod' a size in
        let small = mod-lt a some_byte in
        let above : p ≤ a / size =
          let one_on : (a / size + 1) * size ≡ a / size * size + size = omega arith in
          let next = below_lem p (a / size + 1) 0 size (omega (arith, one_on)) in omega arith in
        let index : p + (a / size - p) ≡ a / size = omega arith in
        let below = below_lem (a / size) (p + length fs) (a % size) size (omega arith) in
        (a / size - p, a % size, rw index (omega arith), small, omega arith)

    -- Up to the bytes that move along, every byte stays where it is.
    pub kept_at :
        (a : ℕ)
        → p * size ≤ a
        → a + n < (p + k) * size
        → a + n < (p + l) * size
        → read_byte o t after a ≡ read_byte o s m a
    kept_at a lo below_k below_l =
        let more : p + length fs ≡ p + k + (length fs - k) = omega (arith, is.within) in
        let whole = ap (λ (q : ℕ). q * size) more in
        let (i, j, e, lt, short) = place a lo (omega (arith, whole)) in
        let (f, at) = get_elem?-some fs i short in
        rw e (kept i j f at lt (omega (arith, e)) (omega (arith, e)))

    -- From those bytes on, every byte has moved by the pages.
    pub moved_at :
        (a a' : ℕ)
        → p * size ≤ a
        → (p + k) * size ≤ a + n
        → a < (p + length fs) * size
        → p * size ≤ a'
        → a' + k * size ≡ a + l * size
        → read_byte o t after a' ≡ read_byte o s m a
    moved_at a a' lo above hi lo' shift =
        let (i, j, e, lt, short) = place a lo hi in
        let (f, at) = get_elem?-some fs i short in
        let sum : (i + l) * size + j ≡ (a' - p * size) + k * size = omega (arith, e) in
        let one_on : (i + l + 1) * size ≡ (i + l) * size + size = omega arith in
        let some_pages = below_lem k (i + l + 1) 0 size (omega (arith, one_on, sum, lt)) in
        let index : (i + l - k) + k ≡ i + l = omega arith in
        let pages = ap (λ (q : ℕ). q * size) index in
        let e' : a' ≡ (p + (i + l - k)) * size + j = omega (arith, e, pages, lo', shift) in
        rw (e, e') (moved i (i + l - k) j f at lt (omega (arith, e)) index)
