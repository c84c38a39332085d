-- ===== src/Realloc/Moves.antt =====
-- What ContainerRealloc needs of the machine, and the copying of the guest's bytes on it.
use native.Mathlib.Decide.{dec_lt}
use vcmalloc_bench.Base.{
  ℕ, ◌+◌, ◌-◌, ◌*◌, ◌^◌, ◌≤◌, ◌≡◌, refl, ap, ◌∙◌, arith, true, false, some, List, length, get_or,
  get_elem?-eq-get_or, ◌==◌, ◌⊎◌, inl, inr,
}
use vcmalloc_bench.Machine.Os.{Os}
use vcmalloc_bench.Machine.Memory.{Memory, memmove, read_bytes, write_bytes}
use vcmalloc_bench.Machine.Mmu.{IsMmu}
use vcmalloc_bench.Machine.Remap.{Lower}
use vcmalloc_bench.Machine.Copy.{pasted, bytes_from, memmove-page}
use vcmalloc_bench.Machine.Run.{ok}
use vcmalloc_bench.Context.{Scene}
use vcmalloc_bench.Alloc.Frames.{IsWilling}
use vcmalloc_bench.Realloc.{copy_guest}

-- An operating system that grants what it is asked for and takes back what it is given, with the
-- page tables that Windows documents.
pub record IsObliging (o : Os) : Type 0 where
  pub willing : IsWilling o
  pub mmu : IsMmu o
  pub unmapped : (a n : ℕ) (s : o.State) → (o.unmap_pages a n s).0 ≡ true
  pub freed : (fs : List ℕ) (s : o.State) → (o.free_frames fs s).0 ≡ true
  pub returned : (fs : List ℕ) (s : o.State) → (o.free_frames fs s).1 ≡ length fs

module _ (o : Os) where
  -- `n` bytes from `a` on, if there are any, are the last ones of page `q`, which is the frame `f`.
  abbrev pub Ends : (n a q f : ℕ) → o.State → Type 0
  Ends n a q f s =
      (n ≡ 0) ⊎ ((a + n ≡ q * 2 ^ o.page_shift + 2 ^ o.page_shift) × (o.frame_at s q ≡ some f))

  -- The memory with the last `n` bytes of a frame on another one.
  abbrev pub guest_memory : Memory → (to from n : ℕ) → Memory
  guest_memory m to from n =
      pasted m to (2 ^ o.page_shift - n) (bytes_from (m from) (2 ^ o.page_shift - n) n)

  moved_page :
      (s : o.State) (m : Memory) (dst src n pd fd ps fs : ℕ)
      → n ≤ 2 ^ o.page_shift
      → Ends n dst pd fd s
      → Ends n src ps fs s
      → memmove o s m dst src n ≡ some (guest_memory m fd fs n)
  unfolding memmove read_bytes write_bytes
  moved_page s m dst src n pd fd ps fs le (inl none_left) from = rw none_left refl
  moved_page s m dst src n pd fd ps fs le (inr to) (inl none_left) = rw none_left refl
  moved_page s m dst src n pd fd ps fs le (inr (to, at)) (inr (from, held)) =
      let target : dst ≡ pd * 2 ^ o.page_shift + (2 ^ o.page_shift - n) = omega arith in
      let source : src ≡ ps * 2 ^ o.page_shift + (2 ^ o.page_shift - n) = omega arith in
      ap (λ (a : ℕ). memmove o s m a src n) target
      ∙ ap (λ (a : ℕ). memmove o s m (pd * 2 ^ o.page_shift + (2 ^ o.page_shift - n)) a n) source
      ∙ memmove-page o s m pd fd ps fs (2 ^ o.page_shift - n) n at held (omega arith)

-- Bytes that end with the first k pages of a mapping, on the last one of them.
pub Lower-Ends :
    {o : Os} (mmu : IsMmu o) (p k : ℕ) (fs : List ℕ) (s : o.State) (a n : ℕ)
    → Lower mmu p k fs s
    → k ≤ length fs
    → a + n ≡ (p + k) * 2 ^ o.page_shift
    → p * 2 ^ o.page_shift ≤ a
    → Ends o n a (p + (k - 1)) (get_or fs (k - 1) 0) s
Lower-Ends {o} mmu p k fs s a n lower le e above = elim (dec_lt 0 k) [
  | no none_below ↦
      let only : p + k ≡ p = omega arith in
      inl (omega (arith, ap (λ (q : ℕ). q * 2 ^ o.page_shift) only))
  | yes some_below ↦
      let last : p + k ≡ p + (k - 1) + 1 = omega arith in
      let split : (p + (k - 1) + 1) * 2 ^ o.page_shift
          ≡ (p + (k - 1)) * 2 ^ o.page_shift + 2 ^ o.page_shift =
        omega arith in
      inr (
        e ∙ ap (λ (q : ℕ). q * 2 ^ o.page_shift) last ∙ split,
        lower (k - 1) (get_or fs (k - 1) 0) (omega arith)
            (get_elem?-eq-get_or fs (k - 1) 0 (omega arith)),
      )
]

-- The guest's bytes are copied from the end of one page to the end of another, unless to address
-- 0; only the memory changes.
pub copy_guest_lem :
    {o : Os} (dst src n : ℕ) (w : Scene o) (pd fd ps fs : ℕ)
    → n ≤ 2 ^ o.page_shift
    → Ends o n dst pd fd w.os
    → Ends o n src ps fs w.os
    → (dst == 0) ≡ false
    → copy_guest dst src n w ≡ ok tt (record w { memory = guest_memory o w.memory fd fs n })
unfolding copy_guest
copy_guest_lem {o} dst src n w pd fd ps fs le to from lands =
    rw (moved_page o w.os w.memory dst src n pd fd ps fs le to from) (rw lands refl)
