-- ===== src/Alloc/Backed.antt =====
-- The pages and the bytes that ContainerAlloc leaves.
use native.Mathlib.Nat.{one-le-pow, div-add-mod'}
use vcmalloc_bench.Base.{
  ℕ, ◌+◌, ◌*◌, ◌/◌, ◌%◌, ◌^◌, ◌≤◌, ◌<◌, ◌≡◌, ◌≢◌, refl, false, ◌==◌, Option, none, some, ap, ◌∙◌,
  arith, List, ◌++◌, length, length-take, get_elem?-lt, get_elem?-append_left,
}
use vcmalloc_bench.Machine.Os.{Os}
use vcmalloc_bench.Machine.Memory.{Memory, read_byte}
use vcmalloc_bench.Machine.Mmu.{IsMmu, IsMapped}
use vcmalloc_bench.Machine.Adding.{Adds-IsMapped}
use vcmalloc_bench.Machine.Content.{IsRepaged, kept_at}
use vcmalloc_bench.Machine.Returns.{Returns, mono}
use vcmalloc_bench.Container.{mapping_address}
use vcmalloc_bench.Container.Layout.{Fits}
use vcmalloc_bench.Context.{Scene, assign}
use vcmalloc_bench.Context.Room.{live}
use vcmalloc_bench.Context.Consistent.{IsConsistent}
use vcmalloc_bench.Context.Ends.{mapping_address-chain_end, mapping_address-aligned}
use vcmalloc_bench.Alloc.{container_alloc}
use vcmalloc_bench.Alloc.Frames.{IsWilling}
use vcmalloc_bench.Alloc.Correct.{IsRequest, Allocated, at, container_alloc-Allocated}
use vcmalloc_bench.Realloc.Split.{chain_end_above}

-- Frames behind the others leave every byte before them.
module _ {o : Os} (mmu : IsMmu o) (p : ℕ) (xs ys : List ℕ) (s t : o.State) (m : Memory)
    (before : IsMapped mmu p xs s) (now : IsMapped mmu p (xs ++ ys) t) where
  appended : IsRepaged mmu p xs (xs ++ ys) s t m (length xs) (length xs) 0 0 0
  appended = record {
    before = before;
    now = now;
    front = λ i f below below' e. get_elem?-append_left xs ys i below ∙ e;
    behind = λ i i' f above shift e. absurd (omega (arith, get_elem?-lt xs i f e));
    to_at = λ some_left. absurd (omega arith);
    from_at = λ some_left. absurd (omega arith);
    within = omega arith;
    small = one-le-pow o.page_shift 2 (omega arith);
  }

  appended_kept :
      (a : ℕ)
      → p * 2 ^ o.page_shift ≤ a
      → a < (p + length xs) * 2 ^ o.page_shift
      → read_byte o t m a ≡ read_byte o s m a
  appended_kept a lo hi =
      kept_at mmu p xs (xs ++ ys) s t m (length xs) (length xs) 0 0 0 appended a lo (omega arith)
        (omega arith)

-- Where the user's pointer variables are: at an address, a variable and the number of one of its
-- bytes, or none.
abbrev pub Places : Type 0
Places = ℕ → Option (ℕ × ℕ)

module _ {o : Os} where
  -- What a program reads at an address: a byte of the pointer variable that is there, or else of
  -- the memory.
  abbrev pub seen_at : Option (ℕ × ℕ) → Scene o → ℕ → Option ℕ
  seen_at none w a = read_byte o w.os w.memory a
  seen_at (some (y, i)) w a = some (w.vars y / 256 ^ i % 256)

  abbrev pub seen : Places → Scene o → ℕ → Option ℕ
  seen places w a = seen_at (places a) w a

  -- The assignment to a pointer variable leaves the bytes of the others.
  seen_at-assign :
      (w w' : Scene o) (x v a : ℕ) (place : Option (ℕ × ℕ))
      → w'.vars ≡ assign w.vars x v
      → read_byte o w'.os w'.memory a ≡ read_byte o w.os w.memory a
      → ((i : ℕ) → place ≢ some (x, i))
      → seen_at place w' a ≡ seen_at place w a
  seen_at-assign w w' x v a none pointer bytes other = bytes
  seen_at-assign w w' x v a (some (y, i)) pointer bytes other =
      let differs : y ≢ x = λ same. other i (ap (λ (z : ℕ). some (z, i)) same) in
      let miss : (y == x) ≡ false = ground (arith, differs) in
      rw (ap (λ (vars : ℕ → ℕ). vars y) pointer, miss) refl

module _ {o : Os} (mmu : IsMmu o) (places : Places) (base x ts n : ℕ) (w : Scene o)
    (is : IsConsistent o.page_shift w.vars base w.context) (r : IsRequest base x ts n w)
    (backing : IsMapped mmu (base / 2 ^ o.page_shift) (live w.context) w.os) where
  abbrev size : ℕ
  size = 2 ^ o.page_shift

  -- The frames are mapped at the pages in order, and a program reads the bytes of the pages from
  -- before as before, but those of the pointer variable of the new container.
  pub record Backed (w' : Scene o) : Type 0 where
    pub allocated : Allocated base x ts n w w'
    pub mapped : IsMapped mmu (base / size) (live w'.context) w'.os
    pub kept :
        (a : ℕ)
        → base ≤ a
        → a < base + w.context.pfns_num * size
        → ((i : ℕ) → places a ≢ some (x, i))
        → seen places w' a ≡ seen places w a

  some_byte : 0 < size
  some_byte = one-le-pow o.page_shift 2 (omega arith)

  whole : base / size * size ≡ base
  whole = omega (arith, div-add-mod' base size, is.aligned)

  counted : length (live w.context) ≡ w.context.pfns_num
  counted = omega (
    arith,
    length-take w.context.pfns_num w.context.pfns_storage,
    is.stored.cells,
    is.stored.fits,
  )

  pages_end : (base / size + length (live w.context)) * size ≡ base + w.context.pfns_num * size
  pages_end = ap (λ (q : ℕ). (base / size + q) * size) counted ∙ omega (arith, whole)

  behind :
      mapping_address o.page_shift (at base x ts n w)
      ≡ (base / size + length (live w.context)) * size
  behind =
      let above =
        chain_end_above o.page_shift w.vars base w.context.containercontext_storage is.chain in
      let here : Fits o.page_shift base 0 0 = record {
        shift = r.fits.shift;
        room = omega (arith, above, r.fits.room);
      } in
      let chain =
        mapping_address-chain_end o.page_shift w.vars base w.context.containercontext_storage
          is.chain in
      let aligned = mapping_address-aligned o.page_shift base is.aligned here in
      let pages = ap (λ (q : ℕ). q * size) is.backed in
      omega (arith, chain, aligned, pages, pages_end)

  Allocated-Backed : (w' : Scene o) → IsWilling o → Allocated base x ts n w w' → Backed w'
  Allocated-Backed w' willing done =
      let all =
        Adds-IsMapped mmu willing.complete willing.mapped (base / size)
          (mapping_address o.page_shift (at base x ts n w)) (live w.context) done.frames behind
          some_byte w.os w'.os done.machine backing in
      record {
        allocated = done;
        mapped = rw done.added all;
        kept = λ a lo hi. seen_at-assign w w' x (at base x ts n w) a (places a) done.pointer (
            ap (λ (m : Memory). read_byte o w'.os m a) done.memory
            ∙ appended_kept mmu (base / size) (live w.context) done.frames w.os w'.os w.memory
                backing all a (omega (arith, whole)) (omega (arith, pages_end)));
      }

  -- On a well-formed hyper-container whose frames are different, allocated to the process and
  -- mapped in order at its pages, with an operating system that grants what it is asked for and
  -- page tables as Windows documents them, for a request within the bounds of the arithmetic,
  -- ContainerAlloc ends with the new container allocated, all frames, the new ones behind the
  -- others, are different and mapped in order at the pages, and every byte of the pages from before
  -- that is not one of the user's pointer variable reads as before, wherever the pointer variables
  -- are, in those pages or outside.
  pub container_alloc-Backed :
      IsWilling o → Returns (λ _ w'. Backed w') (container_alloc base x ts n w)
  container_alloc-Backed willing =
      mono (container_alloc-Allocated base x ts n w is r willing)
        λ _ w' done. Allocated-Backed w' willing done
