-- ===== src/Alloc/Frames.antt =====
-- The frames of a new container: what the operating system grants is entered behind the frames so
-- far.
use vcmalloc_bench.Base.{
  ℕ, ◌+◌, ◌≤◌, ◌≡◌, ap, ◌∙◌, refl, arith, true, inl, inr, Bool-cases, List, ◌++◌, length, take,
  drop, ◌==◌, sign64, add64, add64-exact,
}
use vcmalloc_bench.Machine.Os.{Os}
use vcmalloc_bench.Machine.Adding.{Adds, asked, Adds-behind}
use vcmalloc_bench.Machine.Returns.{Returns, returns, bind}
use vcmalloc_bench.Context.{HyperContainerContext, Scene}
use vcmalloc_bench.Context.Room.{GrantsHeap, live, IsStored, HasRoom, assert_pfns_storage-HasRoom}
use vcmalloc_bench.Context.Gap.{write_at-some, length-written, take-written}
use vcmalloc_bench.Alloc.{add_frames}

-- An operating system that grants memory for the arrays, all the frames that are asked for, and
-- their mapping.
pub record IsWilling (o : Os) : Type 0 where
  pub heap : GrantsHeap o
  pub granted : (n : ℕ) (s : o.State) → (o.allocate_frames n s).0 ≡ true
  pub complete : (n : ℕ) (s : o.State) → length (o.allocate_frames n s).1 ≡ n
  pub mapped : (a : ℕ) (fs : List ℕ) (s : o.State) → (o.map_frames a fs s).0 ≡ true

-- The state after frames were added: only the frames have changed, by `requested` more.
pub record HasFrames {o : Os} (mapping requested : ℕ) (w w' : Scene o) : Type 0 where
  pub frames : List ℕ
  pub asked : length frames ≡ requested
  pub added : live w'.context ≡ live w.context ++ frames
  pub stored : IsStored w'.context
  pub num : w'.context.pfns_num ≡ w.context.pfns_num + requested
  pub containers : w'.context.containercontext_storage ≡ w.context.containercontext_storage
  pub containers_num : w'.context.containers_num ≡ w.context.containers_num
  pub containers_max : w'.context.containers_max ≡ w.context.containers_max
  pub size : w'.context.hypercontainer_size ≡ w.context.hypercontainer_size
  pub machine : Adds o mapping frames w.os w'.os
  pub vars : w'.vars ≡ w.vars
  pub memory : w'.memory ≡ w.memory

-- The cells of the array, with the frames written behind the live ones.
abbrev entered : HyperContainerContext → List ℕ → List ℕ
entered h fs = take h.pfns_num h.pfns_storage ++ fs ++ drop (h.pfns_num + length fs) h.pfns_storage

module _ {o : Os} (mapping requested : ℕ) (w v : Scene o) (room : HasRoom requested w v)
    (fs : List ℕ) (complete : length fs ≡ requested)
    (bound : w.context.pfns_num + requested ≤ sign64) where
  fits : v.context.pfns_num + length fs ≤ length v.context.pfns_storage
  fits = omega (arith, room.num, room.room, room.stored.cells)

  next_num : add64 v.context.pfns_num requested ≡ v.context.pfns_num + requested
  next_num = add64-exact v.context.pfns_num requested (omega (arith, room.num))

  -- With the frames written and counted.
  HasFrames-entered :
      (s : o.State)
      → Adds o mapping fs v.os s
      → HasFrames mapping requested w (record v {
        os = s;
        context = record v.context {
          pfns_storage = entered v.context fs;
          pfns_num = add64 v.context.pfns_num requested;
        };
      })
  HasFrames-entered s adds = record {
    frames = fs;
    asked = complete;
    added =
        take-written v.context.pfns_storage v.context.pfns_num fs fits _ (rw (next_num, complete))
        ∙ ap (λ (l : List ℕ). l ++ fs) room.kept;
    stored = record {
      cells = length-written v.context.pfns_storage v.context.pfns_num fs fits ∙ room.stored.cells;
      fits = omega (arith, next_num, room.num, room.room);
      some_cell = room.stored.some_cell;
      bounded = room.stored.bounded;
    };
    num = omega (arith, next_num, room.num);
    containers = room.containers;
    containers_num = room.containers_num;
    containers_max = room.containers_max;
    size = room.size;
    machine = Adds-behind room.machine adds;
    vars = room.vars;
    memory = room.memory;
  }

module _ {o : Os} (willing : IsWilling o) (mapping requested : ℕ) (w : Scene o)
    (is : IsStored w.context) where
  -- With an operating system that grants what it is asked for, on a well-formed array of frames,
  -- the frames that ContainerAlloc asks for are entered behind the frames so far, in number those
  -- that were asked for, and only the frames change.
  pub add_frames-HasFrames :
      w.context.pfns_num + requested ≤ sign64
      → Returns (λ _ w'. HasFrames mapping requested w w') (add_frames mapping requested w)
  unfolding add_frames
  add_frames-HasFrames bound =
      bind (assert_pfns_storage-HasRoom requested w is willing.heap bound) λ _ v room.
        let complete = willing.complete requested v.os in
        let counts : (length (o.allocate_frames requested v.os).1 == requested) ≡ true =
          ground arith in
        let done =
          HasFrames-entered mapping requested w v room (o.allocate_frames requested v.os).1 complete
            bound in
        rw (willing.granted requested v.os) (
          rw
            (write_at-some v.context.pfns_storage v.context.pfns_num _
              (fits mapping requested w v room _ complete bound))
            (rw counts (elim (Bool-cases (requested == 0)) [
              | inl idle ↦ rw idle (returns (done _ (asked requested refl (rw idle refl))))
              | inr busy ↦ rw busy (
                  rw (willing.mapped mapping _ _)
                    (returns (done _ (asked requested refl (rw busy refl)))))
            ])))
