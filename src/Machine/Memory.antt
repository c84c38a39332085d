-- ===== src/Machine/Memory.antt =====
-- Physical memory as contents of frames, reached through the page tables, and `memmove` on it.
use vcmalloc_bench.Base.{
  ℕ, zero, suc, ◌+◌, ◌/◌, ◌%◌, ◌^◌, ◌&&◌, Option, none, some, List, [], ◌∷◌, ◌==◌, if◌then◌else◌,
}
use vcmalloc_bench.Machine.Os.{Os}

-- the byte at an offset of a frame
abbrev pub Memory : Type 0
Memory = ℕ → ℕ → ℕ

module _ (o : Os) where
  -- The frame and the offset of a virtual address.
  unfoldable pub translate : o.State → ℕ → Option (ℕ × ℕ)
  translate s a = elim (o.frame_at s (a / 2 ^ o.page_shift)) [
    | none ↦ none
    | some f ↦ some (f, a % 2 ^ o.page_shift)
  ]

  unfoldable pub read_byte : o.State → Memory → ℕ → Option ℕ
  unfolding translate
  read_byte s m a = elim (translate s a) [ none ↦ none | some (f, i) ↦ some (m f i) ]

  unfoldable pub write_byte : o.State → Memory → ℕ → ℕ → Option Memory
  unfolding translate
  write_byte s m a v = elim (translate s a) [
    | none ↦ none
    | some (f, i) ↦ some (λ g j. if (g == f) && (j == i) then v else m g j)
  ]

  unfoldable pub read_bytes : o.State → Memory → ℕ → ℕ → Option (List ℕ)
  unfolding read_byte
  read_bytes s m zero a = some []
  read_bytes s m (suc n) a = elim (read_byte s m a) [
    | none ↦ none
    | some v ↦ elim (read_bytes s m n (a + 1)) [ none ↦ none | some vs ↦ some (v ∷ vs) ]
  ]

  unfoldable pub write_bytes : o.State → Memory → ℕ → List ℕ → Option Memory
  unfolding write_byte
  write_bytes s m a [] = some m
  write_bytes s m a (v ∷ vs) = elim (write_byte s m a v) [
    | none ↦ none
    | some m' ↦ write_bytes s m' (a + 1) vs
  ]

  -- `memmove(dst, src, n)`: `none` is an access to an address that is not mapped.
  unfoldable pub memmove : o.State → Memory → (dst src n : ℕ) → Option Memory
  unfolding read_bytes write_bytes
  memmove s m dst src n = elim (read_bytes s m n src) [
    | none ↦ none
    | some vs ↦ write_bytes s m dst vs
  ]
