-- ===== src/Samples/Realloc/Resize.antt =====
-- A hyper-container of two containers, of which the first one is resized.
use vcmalloc_bench.Base.{
  ◌≡◌, refl, arith, [], ◌∷◌, some, leb, add64, sub64, mul64, is_negative, if◌then◌else◌,
}
use vcmalloc_bench.Machine.Run.{ok, extra_frames_failed}
use vcmalloc_bench.Alloc.Refused.{Throws}
use vcmalloc_bench.Realloc.Refused.{Shifted, container_realloc-Shifted}
use vcmalloc_bench.Machine.Returns.{Returns}
use vcmalloc_bench.Container.{
  ContainerContext, nbr_of_pages, guest_bytes, prior_free_bytes, page_offset, page_base,
  next_address, next_mapping_address, mapping_address,
}
use vcmalloc_bench.Pages.{ceil_pages, to_double, to_double_from, round_even}
use vcmalloc_bench.Context.{Scene}
use vcmalloc_bench.Context.Storage.{find_container}
use vcmalloc_bench.Context.Consistent.{IsConsistent}
use vcmalloc_bench.Realloc.{plan_of, requested_bytes, container_realloc}
use vcmalloc_bench.Realloc.Found.{IsSearchable, find_container-found}
use vcmalloc_bench.Realloc.Request.{IsResizable}
use vcmalloc_bench.Realloc.Outcome.{Resized}
use vcmalloc_bench.Realloc.Correct.{container_realloc-Resized}
use vcmalloc_bench.Samples.{first_container}
use vcmalloc_bench.Samples.Paging.{
  paging, paging_obliging, paged, paged-IsMapped, bare, bare_mmu, paged-bare,
}

-- 500 elements of 8 bytes, 192 of the bytes on the page that the first container ends on.
abbrev pub second_container : ContainerContext
second_container = record { reference = 1; type_size = 8; elements_num = 500 }

abbrev pub two_containers : Scene paging
two_containers = record {
  os = paged 3;
  memory = λ f i. 0;
  vars = λ x. if leb x 0 then 0x10000 else 0x11f40;
  context = record {
    containercontext_storage = first_container ∷ second_container ∷ [];
    pfns_storage = 0 ∷ 1 ∷ 2 ∷ [];
    containers_num = 2;
    containers_max = 2;
    pfns_num = 3;
    pfns_max = 3;
    hypercontainer_size = 0x100000;
  };
}

pub two-IsConsistent : IsConsistent 12 two_containers.vars 0x10000 two_containers.context
unfolding nbr_of_pages sub64 next_mapping_address page_offset next_address add64 mul64 page_base
    mapping_address
two-IsConsistent = record {
  aligned = refl;
  chain = (
    refl,
    record { shift = omega arith; room = omega arith },
    (refl, record { shift = omega arith; room = omega arith }, tt),
  );
  backed = refl;
  counted = record { counted = refl; fits = omega arith };
  stored = record {
    cells = refl;
    fits = omega arith;
    some_cell = omega arith;
    bounded = omega arith;
  };
}

-- 3000 elements instead of 1000
pub two-IsResizable :
    IsResizable 0x10000 3000 two_containers [] first_container (second_container ∷ [])
unfolding plan_of ceil_pages to_double to_double_from round_even requested_bytes is_negative
    nbr_of_pages guest_bytes prior_free_bytes sub64 next_mapping_address page_offset next_address
    add64 mul64 page_base mapping_address
two-IsResizable = record {
  split = refl;
  apart = (((λ e. omega (arith, e)), tt), (tt, tt));
  filled = (omega arith, (omega arith, tt));
  few = omega arith;
  per_page = 512;
  whole = refl;
  small_page = omega arith;
  bytes = omega arith;
  some_base = omega arith;
  high = omega arith;
  frames = omega arith;
}

realloc_example :
    Returns
      (λ _ w.
        Resized paging_obliging 0x10000 3000 two_containers [] first_container
          (second_container ∷ [])
          two-IsConsistent
          two-IsResizable
          w)
      (container_realloc 0 8 3000 two_containers)
realloc_example =
    container_realloc-Resized paging_obliging 0x10000 3000 two_containers [] first_container
      (second_container ∷ []) two-IsConsistent two-IsResizable (paged-IsMapped 3)

two-IsSearchable :
    IsSearchable 12 two_containers.vars 0x10000 (first_container ∷ second_container ∷ [])
unfolding next_address add64 mul64
two-IsSearchable = record {
  chain = two-IsConsistent.chain;
  filled = (omega arith, (omega arith, tt));
  low = omega arith;
  few = omega arith;
}

found_example : find_container 0x11f40 two_containers ≡ ok (some 1) two_containers
found_example =
    find_container-found two_containers 0x10000 (first_container ∷ []) second_container [] refl refl
      two-IsSearchable

-- The same hyper-container where there are no frames left.
abbrev stuck : Scene bare
stuck = record {
  os = paged 3;
  memory = two_containers.memory;
  vars = two_containers.vars;
  context = two_containers.context;
}

stuck-IsResizable : IsResizable 0x10000 3000 stuck [] first_container (second_container ∷ [])
stuck-IsResizable = record {
  split = refl;
  apart = two-IsResizable.apart;
  filled = two-IsResizable.filled;
  few = two-IsResizable.few;
  per_page = two-IsResizable.per_page;
  whole = two-IsResizable.whole;
  small_page = two-IsResizable.small_page;
  bytes = two-IsResizable.bytes;
  some_base = two-IsResizable.some_base;
  high = two-IsResizable.high;
  frames = two-IsResizable.frames;
}

refused_realloc_example :
    Throws extra_frames_failed
      (λ w.
        Shifted bare_mmu 16
          (plan_of 12 stuck.vars stuck.context.containercontext_storage 0 first_container 8 3000)
          stuck
          w)
      (container_realloc 0 8 3000 stuck)
unfolding plan_of ceil_pages to_double to_double_from round_even requested_bytes is_negative
    nbr_of_pages guest_bytes prior_free_bytes sub64 next_mapping_address page_offset next_address
    add64 mul64 page_base mapping_address
refused_realloc_example =
    container_realloc-Shifted bare_mmu 0x10000 3000 stuck [] first_container (second_container ∷ [])
      two-IsConsistent stuck-IsResizable (omega arith) (paged-bare 3)
      (record { heap = λ n s. refl; refused = λ n s. refl })
