-- ===== src/Machine/Adding.antt =====
-- Frames that are asked for and mapped behind those of a list, with calls for memory before.
use mathlib.Core.List.{append-nil}
use vcmalloc_bench.Base.{
  ℕ, ◌+◌, ◌*◌, ◌^◌, ◌<◌, ◌≡◌, refl, sym, ap, ◌∙◌, subst, arith, true, List, [], ◌∷◌, ◌++◌, length,
  take, drop, drop-append, ◌==◌, if◌then◌else◌, ◌⊎◌, inl, inr, Bool-cases,
}
use vcmalloc_bench.Machine.Os.{Os}
use vcmalloc_bench.Machine.Mmu.{IsMmu, IsMapped}
use vcmalloc_bench.Machine.Remap.{heap_lem, IsMapped-kept}
use vcmalloc_bench.Machine.Frames.{opened-Lower, IsMapped-opened}

-- A call for memory, or none.
abbrev pub MayEnlarge : (o : Os) → o.State → o.State → Type 0
MayEnlarge o s s' = (s' ≡ s) ⊎ ((n : ℕ) × (s' ≡ (o.heap_alloc n s).1))

-- The calls that add the frames `fs`, mapped from an address on.
pub data Adds (o : Os) (mapping : ℕ) (fs : List ℕ) : o.State → o.State → Type 0 where
  nothing : {s : o.State} → fs ≡ [] → Adds o mapping fs s s
  heap :
      {s s' : o.State} (n : ℕ) → Adds o mapping fs (o.heap_alloc n s).1 s' → Adds o mapping fs s s'
  asked :
      {s s' : o.State} (n : ℕ)
      → fs ≡ (o.allocate_frames n s).1
      → s' ≡ (
          if n == 0
          then (o.allocate_frames n s).2
          else (o.map_frames mapping fs (o.allocate_frames n s).2).1)
      → Adds o mapping fs s s'

pub Adds-behind :
    {o : Os} {mapping : ℕ} {fs : List ℕ} {s t u : o.State}
    → MayEnlarge o s t
    → Adds o mapping fs t u
    → Adds o mapping fs s u
Adds-behind {o} {mapping} {fs} {s} {t} {u} (inl same) rest =
    subst (λ (x : o.State). Adds o mapping fs x u) same rest
Adds-behind {o} {mapping} {fs} {s} {t} {u} (inr (n, same)) rest =
    heap n (subst (λ (x : o.State). Adds o mapping fs x u) same rest)

take_all : (xs : List ℕ) → take (length xs) xs ≡ xs
take_all [] = refl
take_all (x ∷ xs) = ap (◌∷◌ x) (take_all xs)

drop_all : (xs : List ℕ) → drop (length xs) xs ≡ []
drop_all [] = refl
drop_all (x ∷ xs) = drop_all xs

none_lem : (xs : List ℕ) → length xs ≡ 0 → xs ≡ []
none_lem [] e = refl
none_lem (x ∷ xs) e = absurd (omega arith)

module _ {o : Os} (mmu : IsMmu o)
    (complete : (n : ℕ) (s : o.State) → length (o.allocate_frames n s).1 ≡ n)
    (mapped : (a : ℕ) (fs : List ℕ) (s : o.State) → (o.map_frames a fs s).0 ≡ true) (p mapping : ℕ)
    (xs fs : List ℕ) (at : mapping ≡ (p + length xs) * 2 ^ o.page_shift)
    (some_byte : 0 < 2 ^ o.page_shift) where
  opened_lem : (news : List ℕ) → take (length xs) xs ++ news ++ drop (length xs) xs ≡ xs ++ news
  opened_lem news = rw (take_all xs, drop_all xs) (append-nil (xs ++ news))

  asked_lem :
      (n : ℕ) (s s' : o.State)
      → fs ≡ (o.allocate_frames n s).1
      → s' ≡ (
          if n == 0
          then (o.allocate_frames n s).2
          else (o.map_frames mapping fs (o.allocate_frames n s).2).1)
      → IsMapped mmu p xs s
      → IsMapped mmu p (xs ++ fs) s'
  asked_lem n s s' given done is = elim (Bool-cases (n == 0)) [
    | inl idle ↦
        let none_asked : n ≡ 0 = ground arith in
        let empty : fs ≡ [] =
          given ∙ none_lem (o.allocate_frames n s).1 (complete n s ∙ none_asked) in
        let ended : s' ≡ (o.allocate_frames n s).2 = done ∙ rw idle refl in
        rw (empty, ended, append-nil xs)
          (IsMapped-kept mmu p xs s (o.allocate_frames n s).2 (λ q f e. mmu.allocate_kept n s q ∙ e)
            (mmu.allocate_owns n s) is)
    | inr busy ↦
        let ended : s' ≡ (o.map_frames mapping fs (o.allocate_frames n s).2).1 =
          done ∙ rw busy refl in
        let list : take (length xs) xs ++ (o.allocate_frames n s).1 ++ drop (length xs) xs
            ≡ xs ++ fs =
          opened_lem (o.allocate_frames n s).1 ∙ ap (λ (l : List ℕ). xs ++ l) (sym given) in
        rw ended (
          subst
            (λ (l : List ℕ). IsMapped mmu p l (o.map_frames mapping fs (o.allocate_frames n s).2).1)
            list
            (IsMapped-opened mmu p xs s is (length xs) n (omega arith) (length xs) mapping fs
              (o.allocate_frames n s).2 at some_byte
              (opened-Lower mmu p xs s is (length xs) n (omega arith) (length xs) (omega arith))
              (λ f owned. owned) (mapped mapping fs _)
              (sym (ap (drop (length xs)) list ∙ drop-append (length xs) xs fs refl))))
  ]

  -- The frames are mapped behind those that were.
  pub Adds-IsMapped :
      (s s' : o.State) → Adds o mapping fs s s' → IsMapped mmu p xs s → IsMapped mmu p (xs ++ fs) s'
  Adds-IsMapped s s' (nothing empty) is = rw (empty, append-nil xs) is
  Adds-IsMapped s s' (heap n rest) is =
      Adds-IsMapped (o.heap_alloc n s).1 s' rest (heap_lem mmu p xs s _ (inr (n, refl)) is)
  Adds-IsMapped s s' (asked n given done) is = asked_lem n s s' given done is
