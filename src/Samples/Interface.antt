-- ===== src/Samples/Interface.antt =====
-- A process with two hyper-containers, on the machine with page tables.
use native.Mathlib.Nat.{div-add-mod'}
use mathlib.Core.Option.{some-injective, none-ne-some}
use vcmalloc_bench.Base.{
  ℕ, zero, suc, ◌+◌, ◌-◌, ◌/◌, ◌%◌, Option, leb, ltb, ◌&&◌, ◌≤◌, ◌<◌, ◌≡◌, ◌≢◌, refl, ap, sym,
  arith, Bool, true, false, none, some, [], ◌∷◌, if◌then◌else◌, add64, sub64, mul64,
}
use vcmalloc_bench.Machine.Run.{throw, container_not_found}
use vcmalloc_bench.Machine.Returns.{Returns, outcome}
use vcmalloc_bench.Container.{
  nbr_of_pages, page_offset, page_base, next_address, next_mapping_address, mapping_address,
}
use vcmalloc_bench.Context.{Scene}
use vcmalloc_bench.Search.Down.{◌!◌}
use vcmalloc_bench.Alloc.{container_alloc}
use vcmalloc_bench.Alloc.Correct.{IsRequest, Allocated}
use vcmalloc_bench.Alloc.Backed.{Backed, container_alloc-Backed}
use vcmalloc_bench.Realloc.Outcome.{Resized}
use vcmalloc_bench.Manager.{World, new_manager}
use vcmalloc_bench.Interface.{
  scene_of, world_of, with_context, requested_address, vcmalloc, vcrealloc, vccfree, vccalloc,
}
use vcmalloc_bench.Interface.Managed.{IsManaged}
use vcmalloc_bench.Interface.Lookup.{
  consistent_here, vcmalloc-IsManaged, vcrealloc-IsManaged, with_context-missing,
}
use vcmalloc_bench.Interface.Contexts.{contexts, update}
use vcmalloc_bench.Interface.Refines.{with_context-update}
use vcmalloc_bench.Context.Storage.{assert_pfns_storage}
use vcmalloc_bench.Context.Room.{HasRoom, assert_pfns_storage-HasRoom}
use vcmalloc_bench.Interface.Release.{IsReleasing, Released, vccfree-Released}
use vcmalloc_bench.Interface.Reserve.{attempt, IsGranted, IsReserving}
use vcmalloc_bench.Interface.Addition.{made, made-IsConsistent}
use vcmalloc_bench.Interface.Steps.{
  IsWorking, Reaches, start, behind, released, new_manager-Reaches,
}
use vcmalloc_bench.Interface.Reserved.{IsAmple, Reserved, vccalloc-Reserved}
use vcmalloc_bench.Samples.{is_free, place, first_container}
use vcmalloc_bench.Samples.Paging.{paging, paging_mmu, paging_obliging, paged, paged-IsMapped}
use vcmalloc_bench.Samples.Realloc.Resize.{
  second_container, two_containers, two-IsConsistent, two-IsResizable,
}

abbrev process : World paging
process = record {
  os = paged 3;
  memory = two_containers.memory;
  vars = two_containers.vars;
  hcm = record {
    hyper_containers_storage = two_containers.context ∷ made paging 0x10000 ∷ [];
    pointers_storage = 0x10000 ∷ 0x110000 ∷ [];
    hypercontainers_num = 2;
    hypercontainers_max = 73;
    default_container = some 1;
  };
}

paging-IsAmple : IsAmple paging
paging-IsAmple = record { heap = λ n s. refl; page = omega arith; low_page = omega arith }

process-IsManaged : IsManaged process
process-IsManaged = record {
  entries = (
    record {
      above = omega arith;
      sized = omega arith;
      low = omega arith;
      consistent = two-IsConsistent;
      unit = refl;
      units = refl;
    },
    (
      record {
        above = omega arith;
        sized = omega arith;
        low = omega arith;
        consistent =
            made-IsConsistent paging paging-IsAmple.heap paging-IsAmple.page paging-IsAmple.low_page
              0x10000 0x110000 process.vars refl;
        unit = refl;
        units = refl;
      },
      tt,
    ),
  );
  counted = refl;
  fits = omega arith;
}

-- 500 elements of 8 bytes more behind pointer variable 2
process-IsRequest : IsRequest 0x10000 2 8 500 (scene_of process two_containers.context)
unfolding nbr_of_pages sub64 next_mapping_address page_offset next_address add64 mul64 page_base
    mapping_address
process-IsRequest = record {
  fresh = ((λ e. omega (arith, e)), ((λ e. omega (arith, e)), tt));
  fits = record { shift = omega arith; room = omega arith };
  bytes = omega arith;
  pages = omega arith;
  frames = omega arith;
  few = omega arith;
  page = omega arith;
  low_page = omega arith;
  low_base = omega arith;
}

-- Pointer variable 2 and the two of the containers stand one behind the other in the first page.
abbrev in_first_page : ℕ → Option (ℕ × ℕ)
in_first_page a =
    if leb 0x10040 a && ltb a 0x10058 then some ((a - 0x10040) / 8, (a - 0x10040) % 8) else none

backed_example :
    Returns
      (λ _ w'.
        Backed paging_obliging.mmu in_first_page 0x10000 2 8 500
          (scene_of process two_containers.context)
          two-IsConsistent
          process-IsRequest
          (paged-IsMapped 3)
          w')
      (container_alloc 0x10000 2 8 500 (scene_of process two_containers.context))
backed_example =
    container_alloc-Backed paging_obliging.mmu in_first_page 0x10000 2 8 500
      (scene_of process two_containers.context) two-IsConsistent process-IsRequest
      (paged-IsMapped 3) paging_obliging.willing

vcmalloc_example :
    Returns
      (λ _ w'.
        IsManaged w'
        × (c : Scene paging) × Allocated 0x10000 2 8 500 (scene_of process two_containers.context) c
        × (w' ≡ world_of process 0 c))
      (vcmalloc 0x10000 2 8 500 process)
vcmalloc_example =
    vcmalloc-IsManaged process process-IsManaged 0 0x10000 two_containers.context (refl, refl) 2 8
      500 process-IsRequest (tt, tt) paging_obliging.willing

vcrealloc_example :
    Returns
      (λ _ w'.
        IsManaged w'
        × (v : Scene paging) × Resized paging_obliging 0x10000 3000 two_containers []
            first_container
            (second_container ∷ [])
            (consistent_here process process-IsManaged 0 0x10000 two_containers.context
              (refl, refl))
            two-IsResizable
            v
        × (w' ≡ world_of process 0 v))
      (vcrealloc 0x10000 0 8 3000 process)
vcrealloc_example =
    vcrealloc-IsManaged process process-IsManaged 0 0x10000 two_containers.context (refl, refl)
      paging_obliging 3000 [] first_container (second_container ∷ []) two-IsResizable
      (paged-IsMapped 3) (tt, tt)

no_entry : (i : ℕ) → i < 2 → process.hcm.pointers_storage ! i ≢ 0x50000
no_entry zero lt e = omega (arith, e)
no_entry (suc zero) lt e = omega (arith, e)
no_entry (suc (suc i)) lt e = absurd (omega arith)

missing_example :
    with_context 0x50000 (container_alloc 0x50000 2 8 500) process
    ≡ throw container_not_found process
missing_example =
    with_context-missing process process-IsManaged (container_alloc 0x50000 2 8 500) 0x50000
      (omega arith) (omega arith) (omega arith) no_entry

paging-IsReleasing : IsReleasing paging
paging-IsReleasing = record { freed = λ fs s. refl; counted = λ fs s. refl; released = λ a s. refl }

vccfree_example :
    Returns (λ _ w'. Released process 0 0x10000 two_containers.context w') (vccfree 0x10000 process)
vccfree_example =
    vccfree-Released process 0 0x10000 two_containers.context process-IsManaged (refl, refl)
      paging-IsReleasing

-- ExtendPfnsStorage on the first hyper-container
update_example :
    Returns
      (λ _ w'.
        (c : Scene paging) × HasRoom 5 two_containers c
        × (scene_of w' c.context ≡ c)
        × ((b : ℕ) → contexts w' b ≡ update (contexts process) 0x10000 (some c.context) b))
      (with_context 0x10000 (assert_pfns_storage 5) process)
update_example =
    with_context-update process process-IsManaged (assert_pfns_storage 5) 0x10000
      two_containers.context refl
      (assert_pfns_storage-HasRoom 5 two_containers two-IsConsistent.stored
        paging_obliging.willing.heap (omega arith))

granted_lem : (b : Bool) (x a : ℕ) → (if b then some x else none) ≡ some a → (b ≡ true) × (x ≡ a)
granted_lem true x a e = (refl, some-injective x a e)
granted_lem false x a e = absurd (none-ne-some a e)

paging-IsReserving : IsReserving paging
paging-IsReserving = record {
  rounded = λ r size a s pos e.
      let (test, at) = granted_lem (is_free r size) (place r) a e in ground (arith, at);
  anywhere = λ size a s e.
      let (test, at) = granted_lem (is_free 0 size) (place 0) a e in
      (omega (arith, at), ap (λ (x : ℕ). x % 0x10000) (sym at));
  low = λ r size a s e.
      let (test, at) = granted_lem (is_free r size) (place r) a e in
      let bound : r + size < 0x4000_0000_0000 = ground (arith, test) in
      let below : place r ≤ r + 0x10000 = ground (arith, div-add-mod' r 0x10000) in
      omega (arith, at);
  pages_per_unit = 16;
  whole = refl;
  some_unit = omega arith;
}

-- The end of the second hyper-container and the unit behind it are not free.
process-IsGranted : IsGranted paging 2 0x120000 100000 0x140000 process.os
unfolding add64
process-IsGranted = record { refused = refused; granted = refl }
  where
    refused : (j : ℕ) → j < 2 → (attempt paging j 0x120000 100000 (paged 3)).0 ≡ none
    refused zero lt = refl
    refused (suc zero) lt = refl
    refused (suc (suc j)) lt = absurd (omega arith)

vccalloc_example :
    Returns
      (λ b w'. (b ≡ 0x140000) × Reserved 100000 0x140000 process w')
      (vccalloc 3 100000 process)
unfolding requested_address add64
vccalloc_example =
    vccalloc-Reserved 100000 0x140000 process 3 2 0x120000 process-IsManaged paging-IsAmple
      paging-IsReserving (omega arith) refl (omega arith) (omega arith) process-IsGranted

paging-IsWorking : IsWorking paging
paging-IsWorking = record {
  ample = paging-IsAmple;
  reserving = paging-IsReserving;
  obliging = paging_obliging;
  releasing = paging-IsReleasing;
}

-- The process gives its first hyper-container back.
process_step : (w : World paging) × Reaches paging_mmu process w
process_step =
    let (a, w, e, after) = outcome vccfree_example in
    (w, behind start (released 0 0x10000 two_containers.context (refl, refl) e))

reaches_example :
    Returns
      (λ m s'.
        (w : World paging)
        → Reaches paging-IsWorking.obliging.mmu
            (record {
              os = s';
              memory = two_containers.memory;
              vars = two_containers.vars;
              hcm = m;
            })
            w
        → IsManaged w)
      (new_manager paging (paged 3))
reaches_example =
    new_manager-Reaches paging-IsWorking (paged 3) two_containers.memory two_containers.vars refl
