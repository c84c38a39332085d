-- ===== src/Samples/Realloc.antt =====
-- A container that is resized, on a machine with page tables, and a machine that has
-- no frames.
pub mod Resize
use vcmalloc_bench.Base.{
  ℕ, ◌+◌, ◌*◌, ◌+◌, ◌^◌, ◌≤◌, ◌≡◌, refl, arith, false, [], ◌∷◌, some, add64, sub64, mul64,
  is_negative,
}
use vcmalloc_bench.Machine.Os.{Os}
use vcmalloc_bench.Machine.Run.{frames_unavailable}
use vcmalloc_bench.Machine.Returns.{Returns}
use vcmalloc_bench.Container.{
  nbr_of_pages, guest_bytes, prior_free_bytes, page_offset, page_base, next_address,
  next_mapping_address, mapping_address,
}
use vcmalloc_bench.Container.Layout.{IsCeiling}
use vcmalloc_bench.Pages.{ceil_pages, to_double, to_double_from, round_even}
use vcmalloc_bench.Context.{Scene}
use vcmalloc_bench.Alloc.{container_alloc}
use vcmalloc_bench.Alloc.Correct.{IsRequest}
use vcmalloc_bench.Alloc.Refused.{Throws, Orphaned, container_alloc-Orphaned}
use vcmalloc_bench.Realloc.{Plan, plan_of, requested_bytes, new_elements_num, grow, shrink}
use vcmalloc_bench.Realloc.Capacity.{IsResize, new_elements_num-capacity, new_elements_num-exact}
use vcmalloc_bench.Realloc.Inside.{plan_of-inside}
use vcmalloc_bench.Realloc.Moves.{IsObliging}
use vcmalloc_bench.Realloc.Growth.{Grown}
use vcmalloc_bench.Realloc.Grow.{grow-Grown}
use vcmalloc_bench.Realloc.Reduction.{Shrunk}
use vcmalloc_bench.Realloc.Shrink.{shrink-Shrunk}
use vcmalloc_bench.Samples.Paging.{paging, paging_obliging, paged, paged-IsMapped}
use vcmalloc_bench.Interface.{rounded_size}
use vcmalloc_bench.Interface.Size.{rounded_size-IsCeiling}
use vcmalloc_bench.Samples.{
  generous, length-frames_from, first_container, one_container, one-IsStored, one-IsConsistent,
}

abbrev paged_container : Scene paging
paged_container = record {
  os = paged 2;
  memory = one_container.memory;
  vars = one_container.vars;
  context = one_container.context;
}

-- From two pages to the given number.
abbrev plan_to : ℕ → Plan
plan_to n = record {
  index = 0;
  type_size = 8;
  mapping = 0x10000;
  next = 0x11f40;
  prior = 0;
  guest = 192;
  pages = 2;
  start_pfn = 0;
  requested = n;
}

grow_example :
    Returns
      (λ _ w. Grown paging_obliging 16 (plan_to 4) paged_container w)
      (grow (plan_to 4) paged_container)
grow_example = grow-Grown paging_obliging 16 (plan_to 4) paged_container one-IsStored (record {
  more = omega arith;
  inside = omega arith;
  few = omega arith;
  mapped = paged-IsMapped 2;
  placed = refl;
  guest_at = refl;
  above = omega arith;
  small = omega arith;
  high = omega arith;
  some_address = omega arith;
})

shrink_example :
    Returns
      (λ _ w. Shrunk paging_obliging 16 (plan_to 1) paged_container w)
      (shrink (plan_to 1) paged_container)
shrink_example = shrink-Shrunk paging_obliging 16 (plan_to 1) paged_container one-IsStored (record {
  less = omega arith;
  inside = omega arith;
  mapped = paged-IsMapped 2;
  placed = refl;
  guest_at = refl;
  above = omega arith;
  small = omega arith;
  high = omega arith;
  some_address = omega arith;
})

resize : IsResize 12 one_container.vars (first_container ∷ []) 0 2000 first_container
resize = record {
  fits = record { shift = omega arith; room = omega arith };
  page = omega arith;
  typed = omega arith;
  bytes = omega arith;
}

abbrev resize_plan : Plan
resize_plan = plan_of 12 one_container.vars (first_container ∷ []) 0 first_container 8 2000

capacity_example :
    (2000 ≤ new_elements_num 12 resize_plan)
    × (new_elements_num 12 resize_plan * 8 + resize_plan.guest
        ≤ resize_plan.requested * 2 ^ 12 + resize_plan.prior)
capacity_example =
    new_elements_num-capacity 12 one_container.vars (first_container ∷ []) 0 2000 first_container
      resize

exact_example :
    (nbr_of_pages 12 0x10000 8 (new_elements_num 12 resize_plan) ≡ resize_plan.requested)
    × (guest_bytes 12 0x10000 8 (new_elements_num 12 resize_plan) ≡ resize_plan.guest)
unfolding plan_of new_elements_num ceil_pages to_double to_double_from round_even requested_bytes
    is_negative nbr_of_pages guest_bytes prior_free_bytes sub64 next_mapping_address page_offset
    next_address add64 mul64 page_base mapping_address
exact_example =
    new_elements_num-exact 12 one_container.vars (first_container ∷ []) 0 2000 first_container
      resize 2024 refl (record { shift = omega arith; room = omega arith })

abbrev exhausted : Os
exhausted = record generous { allocate_frames = λ n s. (false, [], s) }

abbrev starved : Scene exhausted
starved = record {
  os = 2;
  memory = one_container.memory;
  vars = one_container.vars;
  context = one_container.context;
}

starved-IsRequest : IsRequest 0x10000 1 8 500 starved
unfolding nbr_of_pages sub64 next_mapping_address page_offset next_address add64 mul64 page_base
    mapping_address
starved-IsRequest = record {
  fresh = ((λ e. omega (arith, e)), tt);
  fits = record { shift = omega arith; room = omega arith };
  bytes = omega arith;
  pages = omega arith;
  frames = omega arith;
  few = omega arith;
  page = omega arith;
  low_page = omega arith;
  low_base = omega arith;
}

refused_example :
    Throws frames_unavailable
      (λ w. Orphaned 0x10000 1 8 500 starved w)
      (container_alloc 0x10000 1 8 500 starved)
unfolding prior_free_bytes sub64 page_offset next_address add64 mul64 page_base mapping_address
refused_example =
    container_alloc-Orphaned 0x10000 1 8 500 starved one-IsConsistent starved-IsRequest
      (record { heap = λ n s. refl; refused = λ n s. refl }) refl

size_example : IsCeiling 0x10000 100000 (rounded_size 0x10000 100000)
size_example = rounded_size-IsCeiling 0x10000 100000 (omega arith) (omega arith)

inside_example : resize_plan.start_pfn + resize_plan.pages ≤ 2
inside_example =
    plan_of-inside 12 one_container.vars 0x10000 one_container.context 0 first_container 8 2000
      one-IsConsistent refl
