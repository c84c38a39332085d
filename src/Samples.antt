-- ===== src/Samples.antt =====
-- Concrete machines and arrays at which the theorems are applied.
mod Paging
mod Realloc
mod Interface
mod Lists
mod Queues
mod Trees
mod Doubly
use vcmalloc_bench.Base.{
  ℕ, zero, suc, ◌+◌, ◌-◌, ◌*◌, ◌/◌, ◌%◌, ◌^◌, ◌≤◌, ◌<◌, ◌≡◌, refl, arith, true, List, [], ◌∷◌,
  length, none, some, sign64, leb, ltb, Bool, ◌&&◌, ◌||◌, ◌==◌, sub64, add64, mul64, if◌then◌else◌,
}
use vcmalloc_bench.Machine.Os.{Os}
use vcmalloc_bench.Machine.Returns.{Returns}
use vcmalloc_bench.Search.{binary_search, fault, out_of_fuel, msb, msb_loop}
use vcmalloc_bench.Search.Msb.{IsMsb, msb-IsMsb}
use vcmalloc_bench.Search.Down.{◌!◌, IsTable}
use vcmalloc_bench.Search.Linear.{linear_search, binary_search-linear_search, binary_search-empty}
use vcmalloc_bench.Search.Below.{binary_search-below}
use vcmalloc_bench.Container.{
  ContainerContext, nbr_of_pages, prior_free_bytes, page_offset, page_base, next_address,
  next_mapping_address, mapping_address,
}
use vcmalloc_bench.Container.Masks.{page_offset-mod, page_base-div}
use vcmalloc_bench.Container.Layout.{Layout, Fits-Layout}
use vcmalloc_bench.Pages.{ceil_pages, ceil_pages-bounds}
use vcmalloc_bench.Context.{Scene}
use vcmalloc_bench.Context.Storage.{assert_pfns_storage, insert}
use vcmalloc_bench.Context.Room.{HasRoom, IsStored, assert_pfns_storage-HasRoom}
use vcmalloc_bench.Context.Insert.{Inserted, IsCounted, insert-Inserted}
use vcmalloc_bench.Context.Consistent.{IsConsistent}
use vcmalloc_bench.Alloc.{add_frames, container_alloc, place_of}
use vcmalloc_bench.Alloc.Frames.{IsWilling, HasFrames, add_frames-HasFrames}
use vcmalloc_bench.Alloc.Position.{place_at, place_of-chain_end, new_pages}
use vcmalloc_bench.Alloc.Correct.{IsRequest, Allocated, container_alloc-Allocated}

abbrev addresses : List ℕ
addresses = 10 ∷ 20 ∷ 30 ∷ []

ascending : (i j : ℕ) → i < j → j < 3 → addresses ! i < addresses ! j
ascending i zero l r = absurd (omega arith)
ascending zero (suc zero) l r = omega arith
ascending (suc i) (suc zero) l r = absurd (omega arith)
ascending zero (suc (suc zero)) l r = omega arith
ascending (suc zero) (suc (suc zero)) l r = omega arith
ascending (suc (suc i)) (suc (suc zero)) l r = absurd (omega arith)
ascending i (suc (suc (suc j))) l r = absurd (omega arith)

low : (i : ℕ) → i < 3 → addresses ! i < sign64
low zero r = omega arith
low (suc zero) r = omega arith
low (suc (suc zero)) r = omega arith
low (suc (suc (suc i))) r = absurd (omega arith)

addresses-IsTable : IsTable addresses
addresses-IsTable = record { ascending = ascending; low = low; short = omega arith }

search_example : binary_search 3 addresses 20 ≡ linear_search 0 addresses 20
search_example =
    binary_search-linear_search addresses 20 addresses-IsTable (omega arith) (omega arith)
      (omega arith)

below_example : binary_search 3 addresses 5 ≡ fault
below_example = binary_search-below addresses-IsTable 5 (omega arith) (omega arith) (omega arith)

empty_example :
    (binary_search 0 [] 5 ≡ out_of_fuel) × ((fuel : ℕ) → msb_loop fuel (sub64 0 1) 1 ≡ none)
empty_example = binary_search-empty 5

msb_example : (m : ℕ) × (msb 100 ≡ some m) × IsMsb 100 m
msb_example = msb-IsMsb 100 (omega arith)

-- A machine with pages of 4096 bytes that grants everything; its state is the next frame.
abbrev pub frames_from : ℕ → ℕ → List ℕ
frames_from a zero = []
frames_from a (suc n) = a ∷ frames_from (suc a) n

pub length-frames_from : (a n : ℕ) → length (frames_from a n) ≡ n
length-frames_from a zero = refl
length-frames_from a (suc n) = omega (arith, length-frames_from (suc a) n)

-- Addresses are free from 0x140000 on, and the system chooses 0x10000 if none is asked for.
abbrev pub is_free : (r n : ℕ) → Bool
is_free r n = ltb (r + n) 0x4000_0000_0000 && (r == 0 || leb 0x140000 r)

abbrev pub place : ℕ → ℕ
place r = if r == 0 then 0x10000 else r / 0x10000 * 0x10000

abbrev pub generous : Os
generous = record {
  State = ℕ;
  page_shift = 12;
  granularity = 0x10000;
  heap_alloc = λ n s. (true, s);
  heap_free = λ s. (true, s);
  allocate_frames = λ n s. (true, frames_from s n, s + n);
  free_frames = λ fs s. (true, length fs, s);
  map_frames = λ a fs s. (true, s);
  unmap_pages = λ a n s. (true, s);
  virtual_alloc = λ r n s. ((if is_free r n then some (place r) else none), s);
  virtual_free = λ a s. (true, s);
  lock_privilege = λ s. (true, s);
  frame_at = λ s a. none;
}

pub generous-IsWilling : IsWilling generous
generous-IsWilling = record {
  heap = λ n s. refl;
  granted = λ n s. refl;
  complete = λ n s. length-frames_from s n;
  mapped = λ a fs s. refl;
}

-- A hyper-container at 0x10000 with one container of 1000 elements of 8 bytes, behind pointer
-- variable 0.
abbrev pub first_container : ContainerContext
first_container = record { reference = 0; type_size = 8; elements_num = 1000 }

abbrev pub one_container : Scene generous
one_container = record {
  os = 2;
  memory = λ f i. 0;
  vars = λ x. if leb x 0 then 0x10000 else 0;
  context = record {
    containercontext_storage = first_container ∷ [];
    pfns_storage = 0 ∷ 1 ∷ [];
    containers_num = 1;
    containers_max = 1;
    pfns_num = 2;
    pfns_max = 2;
    hypercontainer_size = 0x100000;
  };
}

pub one-IsStored : IsStored one_container.context
one-IsStored = record {
  cells = refl;
  fits = omega arith;
  some_cell = omega arith;
  bounded = omega arith;
}

one-IsCounted : IsCounted one_container.context
one-IsCounted = record { counted = refl; fits = omega arith }

layout_example : Layout 12 0x10000 8 1000
layout_example = Fits-Layout (record { shift = omega arith; room = omega arith })

pub one-IsConsistent : IsConsistent 12 one_container.vars 0x10000 one_container.context
unfolding nbr_of_pages sub64 next_mapping_address page_offset next_address add64 mul64 page_base
    mapping_address
one-IsConsistent = record {
  aligned = refl;
  chain = (refl, record { shift = omega arith; room = omega arith }, tt);
  backed = refl;
  counted = one-IsCounted;
  stored = one-IsStored;
}

-- 500 elements of 8 bytes behind pointer variable 1
one-IsRequest : IsRequest 0x10000 1 8 500 one_container
unfolding nbr_of_pages sub64 next_mapping_address page_offset next_address add64 mul64 page_base
    mapping_address
one-IsRequest = record {
  fresh = ((λ e. omega (arith, e)), tt);
  fits = record { shift = omega arith; room = omega arith };
  bytes = omega arith;
  pages = omega arith;
  frames = omega arith;
  few = omega arith;
  page = omega arith;
  low_page = omega arith;
  low_base = omega arith;
}

room_example : Returns (λ _ w. HasRoom 5 one_container w) (assert_pfns_storage 5 one_container)
room_example =
    assert_pfns_storage-HasRoom 5 one_container one-IsStored generous-IsWilling.heap (omega arith)

alloc_example :
    Returns
      (λ _ w. Allocated 0x10000 1 8 500 one_container w)
      (container_alloc 0x10000 1 8 500 one_container)
alloc_example =
    container_alloc-Allocated 0x10000 1 8 500 one_container one-IsConsistent one-IsRequest
      generous-IsWilling

ceil_example : (5000 ≤ ceil_pages 12 5000 * 2 ^ 12) × (ceil_pages 12 5000 * 2 ^ 12 < 5000 + 2 ^ 12)
ceil_example = ceil_pages-bounds 12 5000 (omega arith)
