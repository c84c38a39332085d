-- ===== src/Machine/Mmu.antt =====
-- What Windows documents of the page tables: MapUserPhysicalPages puts frames behind pages or takes
-- them away, AllocateUserPhysicalPages gives frames that the process does not have yet, and
-- FreeUserPhysicalPages takes frames back.
use vcmalloc_bench.Base.{
  ℕ, ◌+◌, ◌-◌, ◌/◌, ◌%◌, ◌^◌, ◌≡◌, ◌≢◌, Bool, true, false, none, some, List, length, leb, ltb, ◌&&◌,
  if◌then◌else◌, get_elem?,
}
use vcmalloc_bench.Machine.Os.{Os}

-- Page `q` is one of the `n` pages from page `p` on.
abbrev pub in_range : (p n q : ℕ) → Bool
in_range p n q = leb p q && ltb q (p + n)

-- `owned s f`: the frame f is allocated to the process.
pub record IsMmu (o : Os) : Type 0 where
  pub owned : o.State → ℕ → Bool
  pub mapped_at :
      (a : ℕ) (fs : List ℕ) (s : o.State) (q : ℕ)
      → a % 2 ^ o.page_shift ≡ 0
      → (o.map_frames a fs s).0 ≡ true
      → o.frame_at (o.map_frames a fs s).1 q ≡ (
          if in_range (a / 2 ^ o.page_shift) (length fs) q
          then get_elem? fs (q - a / 2 ^ o.page_shift)
          else o.frame_at s q)
  pub unmapped_at :
      (a n : ℕ) (s : o.State) (q : ℕ)
      → a % 2 ^ o.page_shift ≡ 0
      → (o.unmap_pages a n s).0 ≡ true
      → o.frame_at (o.unmap_pages a n s).1 q
        ≡ (if in_range (a / 2 ^ o.page_shift) n q then none else o.frame_at s q)
  pub heap_kept : (n : ℕ) (s : o.State) (q : ℕ) → o.frame_at (o.heap_alloc n s).1 q ≡ o.frame_at s q
  pub allocate_kept :
      (n : ℕ) (s : o.State) (q : ℕ) → o.frame_at (o.allocate_frames n s).2 q ≡ o.frame_at s q
  pub free_kept :
      (fs : List ℕ) (s : o.State) (q f : ℕ)
      → o.frame_at s q ≡ some f
      → ((i : ℕ) → get_elem? fs i ≢ some f)
      → o.frame_at (o.free_frames fs s).2 q ≡ some f
  pub allocate_fresh :
      (n : ℕ) (s : o.State) (i f : ℕ)
      → get_elem? (o.allocate_frames n s).1 i ≡ some f
      → owned s f ≡ false
  pub allocate_distinct :
      (n : ℕ) (s : o.State) (i j f : ℕ)
      → get_elem? (o.allocate_frames n s).1 i ≡ some f
      → get_elem? (o.allocate_frames n s).1 j ≡ some f
      → i ≡ j
  pub allocate_owned :
      (n : ℕ) (s : o.State) (i f : ℕ)
      → get_elem? (o.allocate_frames n s).1 i ≡ some f
      → owned (o.allocate_frames n s).2 f ≡ true
  pub allocate_owns :
      (n : ℕ) (s : o.State) (f : ℕ) → owned s f ≡ true → owned (o.allocate_frames n s).2 f ≡ true
  pub heap_owns :
      (n : ℕ) (s : o.State) (f : ℕ) → owned s f ≡ true → owned (o.heap_alloc n s).1 f ≡ true
  pub map_owns :
      (a : ℕ) (fs : List ℕ) (s : o.State) (f : ℕ)
      → owned s f ≡ true
      → owned (o.map_frames a fs s).1 f ≡ true
  pub unmap_owns :
      (a n : ℕ) (s : o.State) (f : ℕ) → owned s f ≡ true → owned (o.unmap_pages a n s).1 f ≡ true
  pub free_owns :
      (fs : List ℕ) (s : o.State) (f : ℕ)
      → owned s f ≡ true
      → ((i : ℕ) → get_elem? fs i ≢ some f)
      → owned (o.free_frames fs s).2 f ≡ true

-- The pages from page `p` on are the frames of a list, which are different, and the process has
-- them.
pub record IsMapped {o : Os} (mmu : IsMmu o) (p : ℕ) (fs : List ℕ) (s : o.State) : Type 0 where
  pub pages : (i f : ℕ) → get_elem? fs i ≡ some f → o.frame_at s (p + i) ≡ some f
  pub distinct : (i j f : ℕ) → get_elem? fs i ≡ some f → get_elem? fs j ≡ some f → i ≡ j
  pub held : (i f : ℕ) → get_elem? fs i ≡ some f → mmu.owned s f ≡ true
