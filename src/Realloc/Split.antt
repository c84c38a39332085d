-- ===== src/Realloc/Split.antt =====
-- A chain of containers around one of them, before and after that one has got another size.
use vcmalloc_bench.Base.{
  ℕ, suc, ◌+◌, ◌*◌, ◌^◌, ◌≤◌, ◌<◌, ◌≡◌, refl, ap, arith, Bool, true, false, List, [], ◌∷◌, ◌++◌,
  w64, length, drop,
}
use vcmalloc_bench.Container.{ContainerContext, next_address}
use vcmalloc_bench.Container.Layout.{Fits, Fits-Layout}
use vcmalloc_bench.Container.Shift.{Shift, next_address-Shift}
use vcmalloc_bench.Context.Storage.{start_of}
use vcmalloc_bench.Context.Consistent.{Chain, chain_end, IsFresh}
use vcmalloc_bench.Realloc.{set_elements, move_pointers}
use vcmalloc_bench.Realloc.Moved.{Apart, Moved, Inside, move_pointers_ne}

-- The list with the element behind the first ones changed, and the list behind it.
pub set_elements-append :
    (pre : List ContainerContext) (c : ContainerContext) (post : List ContainerContext) (n : ℕ)
    → set_elements (pre ++ c ∷ post) (length pre) n ≡ pre ++ (record c { elements_num = n }) ∷ post
set_elements-append [] c post n = refl
set_elements-append (d ∷ pre) c post n = ap (◌∷◌ d) (set_elements-append pre c post n)

pub drop-behind :
    (pre : List ContainerContext) (c : ContainerContext) (post : List ContainerContext)
    → drop (suc (length pre)) (pre ++ c ∷ post) ≡ post
drop-behind [] c post = refl
drop-behind (d ∷ pre) c post = drop-behind pre c post

pub chain_end-append :
    (at : ℕ) (pre : List ContainerContext) (c : ContainerContext) (post : List ContainerContext)
    → chain_end at (pre ++ c ∷ post)
      ≡ chain_end (next_address (chain_end at pre) c.type_size c.elements_num) post
chain_end-append at [] c post = refl
chain_end-append at (d ∷ pre) c post =
    chain_end-append (next_address at d.type_size d.elements_num) pre c post

-- A chain that ends far enough below the end of the address space stays inside when it is
-- raised, and any chain when it is lowered.
abbrev pub IsHigh : (s : ℕ) → Bool → (d e : ℕ) → Type 0
IsHigh s true d e = e + d + 2 ^ s < w64
IsHigh s false d e = Unit

module _ (s : ℕ) (vars : ℕ → ℕ) where
  -- A chain around a container.
  pub record Around (at : ℕ) (pre : List ContainerContext) (c : ContainerContext)
      (post : List ContainerContext) : Type 0 where
    pub before : Chain s vars at pre
    pub start : start_of vars c ≡ chain_end at pre
    pub fits : Fits s (chain_end at pre) c.type_size c.elements_num
    pub behind : Chain s vars (next_address (chain_end at pre) c.type_size c.elements_num) post

  Around-first :
      (at : ℕ) (d : ContainerContext) (pre : List ContainerContext) (c : ContainerContext)
      (post : List ContainerContext)
      → start_of vars d ≡ at
      → Fits s at d.type_size d.elements_num
      → Around (next_address at d.type_size d.elements_num) pre c post
      → Around at (d ∷ pre) c post
  Around-first at d pre c post e f a = record {
    before = (e, f, a.before);
    start = a.start;
    fits = a.fits;
    behind = a.behind;
  }

  pub Chain-Around :
      (at : ℕ) (pre : List ContainerContext) (c : ContainerContext) (post : List ContainerContext)
      → Chain s vars at (pre ++ c ∷ post)
      → Around at pre c post
  Chain-Around at [] c post (e, f, behind) = record {
    before = tt;
    start = e;
    fits = f;
    behind = behind;
  }
  Chain-Around at (d ∷ pre) c post (e, f, behind) =
      Around-first at d pre c post e f
        (Chain-Around (next_address at d.type_size d.elements_num) pre c post behind)

  pub Around-Chain :
      (at : ℕ) (pre : List ContainerContext) (c : ContainerContext) (post : List ContainerContext)
      → Around at pre c post
      → Chain s vars at (pre ++ c ∷ post)
  Around-Chain at [] c post a = (a.start, a.fits, a.behind)
  Around-Chain at (d ∷ pre) c post a = (
    a.before.0,
    a.before.1,
    Around-Chain (next_address at d.type_size d.elements_num) pre c post
        (record { before = a.before.2; start = a.start; fits = a.fits; behind = a.behind }),
  )

  pub chain_end_above :
      (at : ℕ) (cs : List ContainerContext) → Chain s vars at cs → at ≤ chain_end at cs
  chain_end_above at [] chain = omega arith
  chain_end_above at (c ∷ cs) (e, f, behind) = omega (
    arith,
    (Fits-Layout f).next,
    chain_end_above (next_address at c.type_size c.elements_num) cs behind,
  )

  pub Chain-Inside : (at : ℕ) (cs : List ContainerContext) → Chain s vars at cs → Inside s at cs
  Chain-Inside at [] chain = tt
  Chain-Inside at (c ∷ cs) (e, f, behind) =
      (f, Chain-Inside (next_address at c.type_size c.elements_num) cs behind)

  Fits-Shift :
      (up : Bool) (d at at' ts n e : ℕ)
      → Shift up d at at'
      → Fits s at ts n
      → at + ts * n ≤ e
      → IsHigh s up d e
      → Fits s at' ts n
  Fits-Shift true d at at' ts n e sh f le high = record { shift = f.shift; room = omega arith }
  Fits-Shift false d at at' ts n e sh f le high = record {
    shift = f.shift;
    room = omega (arith, f.room);
  }

  pub Inside-Shift :
      (up : Bool) (d at at' : ℕ) (cs : List ContainerContext)
      → Shift up d at at'
      → Chain s vars at cs
      → IsHigh s up d (chain_end at cs)
      → Inside s at' cs
  Inside-Shift up d at at' [] sh chain high = tt
  Inside-Shift up d at at' (c ∷ cs) sh (e, f, behind) high =
      let f' =
        Fits-Shift up d at at' c.type_size c.elements_num
          (chain_end (next_address at c.type_size c.elements_num) cs) sh f
          (omega (
            arith,
            (Fits-Layout f).next,
            chain_end_above (next_address at c.type_size c.elements_num) cs behind,
          ))
          high in
      (
        f',
        Inside-Shift up d (next_address at c.type_size c.elements_num)
            (next_address at' c.type_size c.elements_num) cs
            (next_address-Shift up s d at at' c.type_size c.elements_num f f' sh) behind high,
      )

IsFresh-append :
    (x : ℕ) (pre : List ContainerContext) (c : ContainerContext) (post : List ContainerContext)
    → IsFresh x (pre ++ c ∷ post)
    → IsFresh x (c ∷ post)
IsFresh-append x [] c post fresh = fresh
IsFresh-append x (d ∷ pre) c post fresh = IsFresh-append x pre c post fresh.1

pub Apart-behind :
    (pre : List ContainerContext) (c : ContainerContext) (post : List ContainerContext)
    → Apart (pre ++ c ∷ post)
    → Apart (c ∷ post)
Apart-behind [] c post apart = apart
Apart-behind (d ∷ pre) c post apart = Apart-behind pre c post apart.1

-- The pointers before a container stay, when those behind it move.
pub before-Moved :
    (s : ℕ) (move : ℕ → ℕ) (vars : ℕ → ℕ) (pre : List ContainerContext) (c : ContainerContext)
    (post : List ContainerContext)
    → Apart (pre ++ c ∷ post)
    → Moved (Shift true (0 * 2 ^ s)) vars (move_pointers move vars post) pre
before-Moved s move vars [] c post apart = tt
before-Moved s move vars (d ∷ pre) c post apart = (
  omega (
    arith,
    move_pointers_ne move vars d.reference post (IsFresh-append d.reference pre c post apart.0).1,
  ),
  before-Moved s move vars pre c post apart.1,
)
