-- ===== src/Realloc/Resized.antt =====
-- The chain of a hyper-container, when one container has got another size and those behind it have
-- moved.
use vcmalloc_bench.Base.{ℕ, ◌+◌, ◌*◌, ◌^◌, ◌≤◌, ◌≡◌, ◌∙◌, arith, Bool, true, List, [], ◌∷◌, ◌++◌}
use vcmalloc_bench.Container.{ContainerContext, nbr_of_pages, next_address}
use vcmalloc_bench.Container.Layout.{Fits, Fits-Layout}
use vcmalloc_bench.Container.Shift.{Shift}
use vcmalloc_bench.Context.Storage.{start_of}
use vcmalloc_bench.Context.Consistent.{Chain, chain_end, pages_of, pages_of-append}
use vcmalloc_bench.Realloc.{move_pointers}
use vcmalloc_bench.Realloc.Moved.{Apart, Moved, Chain-Moved, move_pointers_ne, move_pointers-Moved}
use vcmalloc_bench.Realloc.Split.{
  Around, IsHigh, Inside-Shift, Chain-Inside, Apart-behind, before-Moved, chain_end_above,
}

-- A move that is exact on the addresses of a chain.
Moved-Shift :
    (s d : ℕ) (up : Bool) (vars vars' move : ℕ → ℕ) (lo hi at : ℕ) (cs : List ContainerContext)
    → ((a : ℕ) → lo ≤ a → a ≤ hi → Shift up d a (move a))
    → lo ≤ at
    → chain_end at cs ≤ hi
    → Chain s vars at cs
    → Moved (λ a a'. a' ≡ move a) vars vars' cs
    → Moved (Shift up d) vars vars' cs
Moved-Shift s d up vars vars' move lo hi at [] lift above below chain moved = tt
Moved-Shift s d up vars vars' move lo hi at (c ∷ cs) lift above below (e, f, behind) (here, moved) =
    let next = next_address at c.type_size c.elements_num in
    let grown : at ≤ next = omega (arith, (Fits-Layout f).next) in
    let end_above = chain_end_above s vars next cs behind in
    (
      rw here (lift (start_of vars c) (omega (arith, e)) (omega (arith, e))),
      Moved-Shift s d up vars vars' move lo hi next cs lift (omega arith) below behind moved,
    )

module _ (s k : ℕ) (up : Bool) (vars move : ℕ → ℕ) (base : ℕ) (pre : List ContainerContext)
    (c : ContainerContext) (post : List ContainerContext) (n : ℕ) where
  abbrev pub start : ℕ
  start = chain_end base pre

  abbrev pub old_next : ℕ
  old_next = next_address start c.type_size c.elements_num

  abbrev pub new_next : ℕ
  new_next = next_address start c.type_size n

  abbrev pub resized : ContainerContext
  resized = record c { elements_num = n }

  abbrev pub vars' : ℕ → ℕ
  vars' = move_pointers move vars post

  -- The move fits the new size: by whole pages, as far as the end of the container moves, and
  -- exact on the addresses behind it.
  pub record IsMove : Type 0 where
    pub exact :
        (a : ℕ) → old_next ≤ a → a ≤ chain_end old_next post → Shift up (k * 2 ^ s) a (move a)
    pub fits : Fits s start c.type_size n
    pub ends : Shift up (k * 2 ^ s) old_next new_next
    pub high : IsHigh s up (k * 2 ^ s) (chain_end old_next post)

  module _ (a : Around s vars base pre c post) (apart : Apart (pre ++ c ∷ post)) (m : IsMove) where
    behind_moved : Chain s vars' new_next post × (pages_of s vars' post ≡ pages_of s vars post)
    behind_moved =
        Chain-Moved s k up vars vars' old_next new_next post m.ends a.behind
          (Inside-Shift s vars up (k * 2 ^ s) old_next new_next post m.ends a.behind m.high)
          (Moved-Shift s (k * 2 ^ s) up vars vars' move old_next (chain_end old_next post) old_next
            post m.exact (omega arith) (omega arith) a.behind
            (move_pointers-Moved move vars post (Apart-behind pre c post apart).1))

    before_kept : Chain s vars' base pre × (pages_of s vars' pre ≡ pages_of s vars pre)
    before_kept =
        Chain-Moved s 0 true vars vars' base base pre (omega arith) a.before
          (Chain-Inside s vars base pre a.before) (before-Moved s move vars pre c post apart)

    pub start_kept : vars' c.reference ≡ start
    start_kept =
        move_pointers_ne move vars c.reference post (Apart-behind pre c post apart).0 ∙ a.start

    pub resized-Around : Around s vars' base pre resized post
    resized-Around = record {
      before = before_kept.0;
      start = start_kept;
      fits = m.fits;
      behind = behind_moved.0;
    }

    pub pages_of-resized :
        pages_of s vars' (pre ++ resized ∷ post)
        ≡ pages_of s vars pre + (nbr_of_pages s start c.type_size n + pages_of s vars post)
    pages_of-resized =
        pages_of-append s vars' pre (resized ∷ post)
        ∙ rw start_kept (omega (arith, before_kept.1, behind_moved.1))
