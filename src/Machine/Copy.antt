-- ===== src/Machine/Copy.antt =====
-- memmove within a page: the bytes of a frame from an offset on are written to another frame, at
-- the same offset.
use native.Mathlib.Nat.{mul-add-div_right, mul-add-mod_self_right, div-eq_of_lt, mod-eq_of_lt}
use vcmalloc_bench.Base.{
  ℕ, zero, suc, ◌+◌, ◌*◌, ◌/◌, ◌%◌, ◌^◌, ◌≤◌, ◌<◌, ◌≡◌, refl, ap, ◌∙◌, arith, Bool, some, List, [],
  ◌∷◌, length, leb, ltb, ◌==◌, ◌&&◌, if◌then◌else◌, inl, inr, Bool-cases,
}
use vcmalloc_bench.Machine.Os.{Os}
use vcmalloc_bench.Machine.Memory.{
  Memory, translate, read_byte, write_byte, read_bytes, write_bytes, memmove,
}

-- The page and the offset of an address.
pub page_split :
    (p j size : ℕ) → j < size → ((p * size + j) / size ≡ p) × ((p * size + j) % size ≡ j)
page_split p j size lt = (
  mul-add-div_right (omega arith) p j ∙ ap (λ (q : ℕ). p + q) (div-eq_of_lt lt) ∙ omega arith,
  mul-add-mod_self_right p size j ∙ mod-eq_of_lt lt,
)

-- The bytes of a frame from an offset on.
abbrev pub bytes_from : (ℕ → ℕ) → (j n : ℕ) → List ℕ
bytes_from bytes j zero = []
bytes_from bytes j (suc n) = bytes j ∷ bytes_from bytes (j + 1) n

-- The memory with bytes written to a frame from an offset on.
abbrev pub pasted : Memory → (f j : ℕ) → List ℕ → Memory
pasted m f j [] = m
pasted m f j (v ∷ vs) = pasted (λ g i. if (g == f) && (i == j) then v else m g i) f (j + 1) vs

-- Whether an offset is one of `n` from `j` on.
abbrev pub in_span : (j n i : ℕ) → Bool
in_span j n i = leb j i && ltb i (j + n)

pub pasted-lem :
    (h : ℕ → ℕ) (m : Memory) (f j n g i : ℕ)
    → pasted m f j (bytes_from h j n) g i ≡ (if (g == f) && in_span j n i then h i else m g i)
pasted-lem h m f j zero g i = ground arith
pasted-lem h m f j (suc n) g i =
    let rest = pasted-lem h (λ k l. if (k == f) && (l == j) then h j else m k l) f (j + 1) n g i in
    elim (Bool-cases (i == j)) [
      | inl here ↦ let e : i ≡ j = ground arith in ground (arith, rest, ap h e)
      | inr other ↦ ground (arith, rest)
    ]

module _ (o : Os) (s : o.State) where
  abbrev size : ℕ
  size = 2 ^ o.page_shift

  pub read_byte-page :
      (m : Memory) (p f j : ℕ)
      → o.frame_at s p ≡ some f
      → j < size
      → read_byte o s m (p * size + j) ≡ some (m f j)
  unfolding read_byte translate
  read_byte-page m p f j at lt =
      let (page, offset) = page_split p j size lt in
      rw (page, at, read_byte, translate) (rw offset refl)

  write_byte-page :
      (m : Memory) (p f j v : ℕ)
      → o.frame_at s p ≡ some f
      → j < size
      → write_byte o s m (p * size + j) v ≡ some (λ g i. if (g == f) && (i == j) then v else m g i)
  unfolding write_byte translate
  write_byte-page m p f j v at lt =
      let (page, offset) = page_split p j size lt in
      rw (page, at, write_byte, translate) (rw offset refl)

  read_bytes-page :
      (m : Memory) (p f j n : ℕ)
      → o.frame_at s p ≡ some f
      → j + n ≤ size
      → read_bytes o s m n (p * size + j) ≡ some (bytes_from (m f) j n)
  unfolding read_bytes
  read_bytes-page m p f j zero at le = refl
  read_bytes-page m p f j (suc n) at le =
      let next : p * size + j + 1 ≡ p * size + (j + 1) = omega arith in
      rw (read_byte-page m p f j at (omega arith), read_bytes)
        (rw next (rw (read_bytes-page m p f (j + 1) n at (omega arith)) refl))

  write_bytes-page :
      (m : Memory) (p f j : ℕ) (vs : List ℕ)
      → o.frame_at s p ≡ some f
      → j + length vs ≤ size
      → write_bytes o s m (p * size + j) vs ≡ some (pasted m f j vs)
  unfolding write_bytes
  write_bytes-page m p f j [] at le = refl
  write_bytes-page m p f j (v ∷ vs) at le =
      let next : p * size + j + 1 ≡ p * size + (j + 1) = omega arith in
      rw (write_byte-page m p f j v at (omega arith), write_bytes)
        (rw next (
          write_bytes-page (λ g i. if (g == f) && (i == j) then v else m g i) p f (j + 1) vs at
            (omega arith)))

  length-bytes_from : (h : ℕ → ℕ) (j n : ℕ) → length (bytes_from h j n) ≡ n
  length-bytes_from h j zero = refl
  length-bytes_from h j (suc n) = ap suc (length-bytes_from h (j + 1) n)

  pub memmove-page :
      (m : Memory) (pd fd ps fs j n : ℕ)
      → o.frame_at s pd ≡ some fd
      → o.frame_at s ps ≡ some fs
      → j + n ≤ size
      → memmove o s m (pd * size + j) (ps * size + j) n
        ≡ some (pasted m fd j (bytes_from (m fs) j n))
  unfolding memmove
  memmove-page m pd fd ps fs j n to from le =
      rw (read_bytes-page m ps fs j n from le, memmove)
        (write_bytes-page m pd fd j (bytes_from (m fs) j n) to
          (omega (arith, length-bytes_from (m fs) j n)))
