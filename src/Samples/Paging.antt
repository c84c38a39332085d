-- ===== src/Samples/Paging.antt =====
-- A machine with page tables: frames are given out in ascending order.
use mathlib.Core.Option.{some-injective, none-ne-some}
use vcmalloc_bench.Base.{
  ℕ, zero, suc, ◌+◌, ◌-◌, ◌/◌, ◌^◌, ◌<◌, ◌≡◌, refl, arith, true, false, Option, none, some, [],
  length, get_elem?, ltb, if◌then◌else◌,
}
use vcmalloc_bench.Machine.Os.{Os}
use vcmalloc_bench.Machine.Mmu.{in_range, IsMmu, IsMapped}
use vcmalloc_bench.Realloc.Moves.{IsObliging}
use vcmalloc_bench.Samples.{frames_from, length-frames_from, is_free, place}

-- The first frame that was never given out, and the frames of the pages.
pub record Tables : Type 0 where
  pub next_frame : ℕ
  pub table : ℕ → Option ℕ

abbrev pub paging : Os
paging = record {
  State = Tables;
  page_shift = 12;
  granularity = 0x10000;
  heap_alloc = λ n s. (true, s);
  heap_free = λ s. (true, s);
  allocate_frames =
      λ n s. (true, frames_from s.next_frame n, record s { next_frame = s.next_frame + n });
  free_frames = λ fs s. (true, length fs, s);
  map_frames = λ a fs s. (
    true,
    record s {
      table = λ q.
          if in_range (a / 2 ^ 12) (length fs) q then get_elem? fs (q - a / 2 ^ 12) else s.table q;
    },
  );
  unmap_pages = λ a n s.
      (true, record s { table = λ q. if in_range (a / 2 ^ 12) n q then none else s.table q });
  virtual_alloc = λ r n s. ((if is_free r n then some (place r) else none), s);
  virtual_free = λ a s. (true, s);
  lock_privilege = λ s. (true, s);
  frame_at = λ s q. s.table q;
}

pub frames_from-get : (a n i f : ℕ) → get_elem? (frames_from a n) i ≡ some f → (f ≡ a + i) × (i < n)
frames_from-get a zero i f e = absurd (none-ne-some f e)
frames_from-get a (suc n) zero f e =
    let same = some-injective a f e in (omega (arith, same), omega arith)
frames_from-get a (suc n) (suc i) f e =
    let (same, lt) = frames_from-get (suc a) n i f e in (omega (arith, same), omega (arith, lt))

pub unowned : (a n i f : ℕ) → get_elem? (frames_from a n) i ≡ some f → ltb f a ≡ false
unowned a n i f e = let (same, lt) = frames_from-get a n i f e in ground (arith, same)

pub owned_now : (a n i f : ℕ) → get_elem? (frames_from a n) i ≡ some f → ltb f (a + n) ≡ true
owned_now a n i f e = let (same, lt) = frames_from-get a n i f e in ground (arith, same, lt)

pub owned_still : (a n f : ℕ) → ltb f a ≡ true → ltb f (a + n) ≡ true
owned_still a n f owned = ground (arith, owned)

pub same_index :
    (a n i j f : ℕ)
    → get_elem? (frames_from a n) i ≡ some f
    → get_elem? (frames_from a n) j ≡ some f
    → i ≡ j
same_index a n i j f e e' =
    omega (arith, (frames_from-get a n i f e).0, (frames_from-get a n j f e').0)

abbrev pub paging_mmu : IsMmu paging
paging_mmu = record {
  owned = λ s f. ltb f s.next_frame;
  mapped_at = λ a fs s q aligned done. refl;
  unmapped_at = λ a n s q aligned done. refl;
  heap_kept = λ n s q. refl;
  allocate_kept = λ n s q. refl;
  free_kept = λ fs s q f at other. at;
  allocate_fresh = λ n s. unowned s.next_frame n;
  allocate_distinct = λ n s. same_index s.next_frame n;
  allocate_owned = λ n s. owned_now s.next_frame n;
  allocate_owns = λ n s f. owned_still s.next_frame n f;
  heap_owns = λ n s f owned. owned;
  map_owns = λ a fs s f owned. owned;
  unmap_owns = λ a n s f owned. owned;
  free_owns = λ fs s f owned other. owned;
}

abbrev pub paging_obliging : IsObliging paging
paging_obliging = record {
  willing = record {
    heap = λ n s. refl;
    granted = λ n s. refl;
    complete = λ n s. length-frames_from s.next_frame n;
    mapped = λ a fs s. refl;
  };
  mmu = paging_mmu;
  unmapped = λ a n s. refl;
  freed = λ fs s. refl;
  returned = λ fs s. refl;
}

-- The first frames at the pages from 0x10000 on.
abbrev pub paged : ℕ → Tables
paged n = record { next_frame = n; table = λ q. if in_range 16 n q then some (q - 16) else none }

pub paged-IsMapped : (n : ℕ) → IsMapped paging_mmu 16 (frames_from 0 n) (paged n)
paged-IsMapped n = record {
  pages = λ i f e. let (same, lt) = frames_from-get 0 n i f e in ground (arith, same, lt);
  distinct = same_index 0 n;
  held = λ i f e. let (same, lt) = frames_from-get 0 n i f e in ground (arith, same, lt);
}

-- The same machine without any frame that it could give out.
abbrev pub bare : Os
bare = record paging { allocate_frames = λ n s. (false, [], s) }

abbrev pub bare_mmu : IsMmu bare
bare_mmu = record {
  owned = λ s f. ltb f s.next_frame;
  mapped_at = λ a fs s q aligned done. refl;
  unmapped_at = λ a n s q aligned done. refl;
  heap_kept = λ n s q. refl;
  allocate_kept = λ n s q. refl;
  free_kept = λ fs s q f at other. at;
  allocate_fresh = λ n s i f e. absurd (none-ne-some f e);
  allocate_distinct = λ n s i j f e e'. absurd (none-ne-some f e);
  allocate_owned = λ n s i f e. absurd (none-ne-some f e);
  allocate_owns = λ n s f owned. owned;
  heap_owns = λ n s f owned. owned;
  map_owns = λ a fs s f owned. owned;
  unmap_owns = λ a n s f owned. owned;
  free_owns = λ fs s f owned other. owned;
}

pub paged-bare : (n : ℕ) → IsMapped bare_mmu 16 (frames_from 0 n) (paged n)
paged-bare n = record {
  pages = (paged-IsMapped n).pages;
  distinct = same_index 0 n;
  held = (paged-IsMapped n).held;
}
