-- ===== src/Machine/Frames.antt =====
-- Mapped frames between which new ones are put, or from which some are taken out.
use vcmalloc_bench.Base.{
  ℕ, ◌+◌, ◌-◌, ◌*◌, ◌≤◌, ◌<◌, ◌≡◌, ◌≢◌, refl, sym, ◌∙◌, arith, true, some, List, ◌++◌, length, take,
  drop, get_elem?, get_elem?-take, get_elem?-drop, get_elem?-lt, length-take, ◌⊎◌, inl, inr,
}
use vcmalloc_bench.Machine.Os.{Os}
use vcmalloc_bench.Machine.Mmu.{IsMmu, IsMapped}
use vcmalloc_bench.Machine.Remap.{
  spliced_cases, spliced_front, joined_cases, size, Lower, map_frames-pages,
}

module _ {o : Os} (mmu : IsMmu o) (p : ℕ) (fs : List ℕ) (s : o.State)
    (is : IsMapped mmu p fs s) where
  -- With `n` new frames behind the first k.
  module _ (k n : ℕ) (le : k ≤ length fs) where
    abbrev pub news : List ℕ
    news = (o.allocate_frames n s).1

    abbrev pub opened_frames : List ℕ
    opened_frames = take k fs ++ news ++ drop k fs

    pub opened_front : (i : ℕ) → i < k → get_elem? opened_frames i ≡ get_elem? fs i
    opened_front i lt = spliced_front k fs news i le lt

    -- A new frame is none of the others.
    pub fresh : (i j f : ℕ) → get_elem? news i ≡ some f → get_elem? fs j ≢ some f
    fresh i j f new old =
        let not_owned = mmu.allocate_fresh n s i f new in
        let owned = is.held j f old in absurd (ground (arith, not_owned, owned))

    abbrev Spliced : ℕ → ℕ → Type 0
    Spliced i f =
        ((i < k) × (get_elem? fs i ≡ some f))
        ⊎ (((k ≤ i) × (i < k + length news) × (get_elem? news (i - k) ≡ some f))
            ⊎ ((k + length news ≤ i) × (get_elem? fs (i - length news) ≡ some f)))

    pub opened-Lower :
        (start : ℕ) → start ≤ k → Lower mmu p start opened_frames (o.allocate_frames n s).2
    opened-Lower start below i f lt e =
        let (here, old) = first (spliced_cases k fs news i f le e) in
        mmu.allocate_kept n s (p + i) ∙ is.pages i f old
      where
        first : Spliced i f → (i < k) × (get_elem? fs i ≡ some f)
        first (inl here) = here
        first (inr (inl (above, below_end, new))) = absurd (omega arith)
        first (inr (inr (above, old))) = absurd (omega arith)

    Spliced-unique : (i j f : ℕ) → Spliced i f → Spliced j f → i ≡ j
    Spliced-unique i j f (inl (a, x)) (inl (b, y)) = is.distinct i j f x y
    Spliced-unique i j f (inl (a, x)) (inr (inl (b, c, y))) = absurd (fresh (j - k) i f y x)
    Spliced-unique i j f (inl (a, x)) (inr (inr (b, y))) =
        let e = is.distinct i (j - length news) f x y in absurd (omega arith)
    Spliced-unique i j f (inr (inl (a, c, x))) (inl (b, y)) = absurd (fresh (i - k) j f x y)
    Spliced-unique i j f (inr (inl (a, c, x))) (inr (inl (b, d, y))) =
        let e = mmu.allocate_distinct n s (i - k) (j - k) f x y in omega arith
    Spliced-unique i j f (inr (inl (a, c, x))) (inr (inr (b, y))) =
        absurd (fresh (i - k) (j - length news) f x y)
    Spliced-unique i j f (inr (inr (a, x))) (inl (b, y)) =
        let e = is.distinct (i - length news) j f x y in absurd (omega arith)
    Spliced-unique i j f (inr (inr (a, x))) (inr (inl (b, d, y))) =
        absurd (fresh (j - k) (i - length news) f y x)
    Spliced-unique i j f (inr (inr (a, x))) (inr (inr (b, y))) =
        let e = is.distinct (i - length news) (j - length news) f x y in omega arith

    Spliced-owned : (i f : ℕ) → Spliced i f → mmu.owned (o.allocate_frames n s).2 f ≡ true
    Spliced-owned i f (inl (a, x)) = mmu.allocate_owns n s f (is.held i f x)
    Spliced-owned i f (inr (inl (a, c, x))) = mmu.allocate_owned n s (i - k) f x
    Spliced-owned i f (inr (inr (a, x))) = mmu.allocate_owns n s f (is.held (i - length news) f x)

    pub IsMapped-opened :
        (start a : ℕ) (rest : List ℕ) (t : o.State)
        → a ≡ (p + start) * size mmu
        → 0 < size mmu
        → Lower mmu p start opened_frames t
        → ((f : ℕ) → mmu.owned (o.allocate_frames n s).2 f ≡ true → mmu.owned t f ≡ true)
        → (o.map_frames a rest t).0 ≡ true
        → rest ≡ drop start opened_frames
        → IsMapped mmu p opened_frames (o.map_frames a rest t).1
    IsMapped-opened start a rest t at some_byte lower owns done same = record {
      pages = map_frames-pages mmu p start opened_frames a at some_byte rest t done same lower;
      distinct = λ i j f x y.
          Spliced-unique i j f (spliced_cases k fs news i f le x)
            (spliced_cases k fs news j f le y);
      held = λ i f x.
          mmu.map_owns a rest t f (owns f (Spliced-owned i f (spliced_cases k fs news i f le x)));
    }

  -- Without the frames from the k-th to the m-th.
  module _ (k m : ℕ) (le : k ≤ m) (short : m ≤ length fs) where
    abbrev pub spare : List ℕ
    spare = take (m - k) (drop k fs)

    abbrev pub closed_frames : List ℕ
    closed_frames = take k fs ++ drop m fs

    -- The spare frames are none of those that stay.
    spare_apart :
        (i f : ℕ)
        → (i < k) ⊎ (m ≤ i)
        → get_elem? fs i ≡ some f
        → (j : ℕ) → get_elem? spare j ≢ some f
    spare_apart i f side old j e =
        let lt = get_elem?-lt spare j f e in
        let size_lem = length-take (m - k) (drop k fs) in
        let there : get_elem? fs (k + j) ≡ some f =
          sym (get_elem?-drop k fs j (k + j) refl)
          ∙ sym (get_elem?-take (m - k) (drop k fs) j (omega arith))
          ∙ e in
        let same = is.distinct i (k + j) f old there in outside side same (omega (arith, size_lem))
      where
        outside : (i < k) ⊎ (m ≤ i) → i ≡ k + j → j < m - k → ⊥
        outside (inl lo) same lt = omega arith
        outside (inr hi) same lt = omega arith

    abbrev Joined : ℕ → ℕ → Type 0
    Joined i f =
        ((i < k) × (get_elem? fs i ≡ some f)) ⊎ ((k ≤ i) × (get_elem? fs (i + (m - k)) ≡ some f))

    joined_lem : (i f : ℕ) → get_elem? closed_frames i ≡ some f → Joined i f
    joined_lem i f e = joined_cases k m fs i f le (omega arith) e

    pub closed-Lower :
        (start : ℕ) → start ≤ k → Lower mmu p start closed_frames (o.free_frames spare s).2
    closed-Lower start below i f lt e = first (joined_lem i f e)
      where
        first : Joined i f → o.frame_at (o.free_frames spare s).2 (p + i) ≡ some f
        first (inl (here, old)) =
            mmu.free_kept spare s (p + i) f (is.pages i f old) (spare_apart i f (inl here) old)
        first (inr (above, old)) = absurd (omega arith)

    Joined-unique : (i j f : ℕ) → Joined i f → Joined j f → i ≡ j
    Joined-unique i j f (inl (a, x)) (inl (b, y)) = is.distinct i j f x y
    Joined-unique i j f (inl (a, x)) (inr (b, y)) =
        let e = is.distinct i (j + (m - k)) f x y in absurd (omega arith)
    Joined-unique i j f (inr (a, x)) (inl (b, y)) =
        let e = is.distinct (i + (m - k)) j f x y in absurd (omega arith)
    Joined-unique i j f (inr (a, x)) (inr (b, y)) =
        let e = is.distinct (i + (m - k)) (j + (m - k)) f x y in omega arith

    Joined-owned : (i f : ℕ) → Joined i f → mmu.owned (o.free_frames spare s).2 f ≡ true
    Joined-owned i f (inl (a, x)) =
        mmu.free_owns spare s f (is.held i f x) (spare_apart i f (inl a) x)
    Joined-owned i f (inr (a, x)) =
        mmu.free_owns spare s f (is.held (i + (m - k)) f x)
          (spare_apart (i + (m - k)) f (inr (omega arith)) x)

    pub IsMapped-closed :
        (start a : ℕ) (rest : List ℕ) (t : o.State)
        → a ≡ (p + start) * size mmu
        → 0 < size mmu
        → Lower mmu p start closed_frames t
        → ((f : ℕ) → mmu.owned (o.free_frames spare s).2 f ≡ true → mmu.owned t f ≡ true)
        → (o.map_frames a rest t).0 ≡ true
        → rest ≡ drop start closed_frames
        → IsMapped mmu p closed_frames (o.map_frames a rest t).1
    IsMapped-closed start a rest t at some_byte lower owns done same = record {
      pages = map_frames-pages mmu p start closed_frames a at some_byte rest t done same lower;
      distinct = λ i j f x y. Joined-unique i j f (joined_lem i f x) (joined_lem j f y);
      held = λ i f x. mmu.map_owns a rest t f (owns f (Joined-owned i f (joined_lem i f x)));
    }
