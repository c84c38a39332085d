-- ===== src/Interface/Steps.antt =====
-- A process that calls the functions of the interface: the states that it reaches.
use vcmalloc_bench.Base.{ℕ, ◌/◌, ◌^◌, ◌+◌, ◌*◌, ◌<◌, ◌≡◌, refl, subst, arith, true, some, List, w64}
use vcmalloc_bench.Machine.Os.{Os}
use vcmalloc_bench.Machine.Run.{Run, ok}
use vcmalloc_bench.Machine.Mmu.{IsMmu, IsMapped}
use vcmalloc_bench.Context.Room.{live}
use vcmalloc_bench.Machine.Returns.{Returns, returns, mono}
use vcmalloc_bench.Machine.Memory.{Memory}
use vcmalloc_bench.Container.{ContainerContext}
use vcmalloc_bench.Context.{HyperContainerContext}
use vcmalloc_bench.Context.Consistent.{IsFresh}
use vcmalloc_bench.Alloc.Correct.{IsRequest}
use vcmalloc_bench.Realloc.Moves.{IsObliging}
use vcmalloc_bench.Realloc.Request.{IsResizable}
use vcmalloc_bench.Manager.{World, new_manager}
use vcmalloc_bench.Interface.{scene_of, requested_address, vcmalloc, vcrealloc, vccalloc, vccfree}
use vcmalloc_bench.Interface.Managed.{IsManaged, At}
use vcmalloc_bench.Interface.Entries.{Others}
use vcmalloc_bench.Interface.Lookup.{Disjoint, vcmalloc-IsManaged, vcrealloc-IsManaged}
use vcmalloc_bench.Interface.Release.{IsReleasing, vccfree-Released}
use vcmalloc_bench.Interface.Reserve.{IsReserving, IsGranted}
use vcmalloc_bench.Interface.Reserved.{IsAmple, vccalloc-Reserved}

-- A machine that grants what it is asked for, and takes back what it is given.
pub record IsWorking (o : Os) : Type 0 where
  pub ample : IsAmple o
  pub reserving : IsReserving o
  pub obliging : IsObliging o
  pub releasing : IsReleasing o

module _ {o : Os} (mmu : IsMmu o) where
  -- A call that ends: each function of the interface, under the conditions that its theorem names.
  pub data Step (w w' : World o) : Type 0 where
    reserved :
        (fuel k r size a : ℕ)
        → 0 < size
        → requested_address w.hcm ≡ some r
        → r + k * o.granularity < w64
        → k < fuel
        → IsGranted o k r size a w.os
        → vccalloc fuel size w ≡ ok a w'
        → Step w w'
    allocated :
        (i a x ts n : ℕ) (h : HyperContainerContext)
        → At i a h w.hcm.pointers_storage w.hcm.hyper_containers_storage
        → IsRequest a x ts n (scene_of w h)
        → Others (λ g. IsFresh x g.containercontext_storage) i w.hcm.hyper_containers_storage
        → vcmalloc a x ts n w ≡ ok tt w'
        → Step w w'
    resized :
        (i a new_size : ℕ) (h : HyperContainerContext) (pre : List ContainerContext)
        (c : ContainerContext) (post : List ContainerContext)
        → At i a h w.hcm.pointers_storage w.hcm.hyper_containers_storage
        → IsResizable a new_size (scene_of w h) pre c post
        → IsMapped mmu (a / 2 ^ o.page_shift) (live h) w.os
        → Others (λ g. Disjoint post g.containercontext_storage) i w.hcm.hyper_containers_storage
        → vcrealloc a c.reference c.type_size new_size w ≡ ok tt w'
        → Step w w'
    released :
        (i a : ℕ) (h : HyperContainerContext)
        → At i a h w.hcm.pointers_storage w.hcm.hyper_containers_storage
        → vccfree a w ≡ ok tt w'
        → Step w w'

  -- Any number of calls, one after the other.
  pub data Reaches (w : World o) : World o → Type 0 where
    start : Reaches w w
    behind : {v w' : World o} → Reaches w v → Step v w' → Reaches w w'

from_ok : {S A : Type 0} {P : A → S → Type 0} {a : A} {s : S} → Returns P (ok a s) → P a s
from_ok (returns p) = p

result :
    {S A : Type 0} {P : A → S → Type 0} {r : Run S A} {a : A} {s : S}
    → r ≡ ok a s
    → Returns P r
    → P a s
result {S} {A} {P} e done = from_ok (subst (λ (q : Run S A). Returns P q) e done)

module _ {o : Os} (working : IsWorking o) where
  abbrev mmu : IsMmu o
  mmu = working.obliging.mmu

  Step-IsManaged : {w w' : World o} → IsManaged w → Step mmu w w' → IsManaged w'
  Step-IsManaged {w} is (reserved fuel k r size a pos request low lt granted e) =
      (result e (
        vccalloc-Reserved size a w fuel k r is working.ample working.reserving pos request low lt
          granted)).1.managed
  Step-IsManaged {w} is (allocated i a x ts n h at request fresh e) =
      (result e (vcmalloc-IsManaged w is i a h at x ts n request fresh working.obliging.willing)).0
  Step-IsManaged {w} is (resized i a new_size h pre c post at request mapped disjoint e) =
      (result e (
        vcrealloc-IsManaged w is i a h at working.obliging new_size pre c post request mapped
          disjoint)).0
  Step-IsManaged {w} is (released i a h at e) =
      (result e (vccfree-Released w i a h is at working.releasing)).managed

  Reaches-IsManaged : {w w' : World o} → IsManaged w → Reaches mmu w w' → IsManaged w'
  Reaches-IsManaged is start = is
  Reaches-IsManaged is (behind calls call) = Step-IsManaged (Reaches-IsManaged is calls) call

  -- The manager before the first call.
  new_manager-IsManaged :
      (s : o.State) (memory : Memory) (vars : ℕ → ℕ)
      → (o.lock_privilege s).0 ≡ true
      → Returns
          (λ m s'. IsManaged {o = o} (record { os = s'; memory = memory; vars = vars; hcm = m }))
          (new_manager o s)
  unfolding new_manager
  new_manager-IsManaged s memory vars granted =
      rw (granted, working.ample.heap _ _, working.ample.heap _ _)
        (returns (record {
          entries = tt;
          counted = refl;
          fits = let page = working.ample.page in omega arith;
        }))

  -- On a machine that grants what it is asked for and takes back what it is given, with page tables
  -- as Windows documents them, where the privilege to lock pages is granted, the constructor of
  -- HyperContainerManager ends, and every state that a process reaches from there by calls of
  -- vccalloc, vcmalloc, vcrealloc and vccfree that end, each under the conditions of its step, is
  -- well formed: the hyper-containers stand in ascending disjoint ranges below 2 ^ 63, each one is
  -- well formed, and the arrays have room for what is counted.
  pub new_manager-Reaches :
      (s : o.State) (memory : Memory) (vars : ℕ → ℕ)
      → (o.lock_privilege s).0 ≡ true
      → Returns
          (λ m s'.
            (w : World o)
            → Reaches working.obliging.mmu
                (record { os = s'; memory = memory; vars = vars; hcm = m })
                w
            → IsManaged w)
          (new_manager o s)
  new_manager-Reaches s memory vars granted =
      mono (new_manager-IsManaged s memory vars granted)
        λ m s' is w calls. Reaches-IsManaged is calls
