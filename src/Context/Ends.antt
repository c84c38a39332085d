-- ===== src/Context/Ends.antt =====
-- Where a chain of containers ends among the pages.
use native.Mathlib.Nat.{one-le-pow, div-add-mod'}
use vcmalloc_bench.Base.{ℕ, ◌+◌, ◌*◌, ◌/◌, ◌%◌, ◌^◌, ◌≡◌, refl, arith, List, [], ◌∷◌}
use vcmalloc_bench.Container.{ContainerContext, mapping_address, next_mapping_address, next_address}
use vcmalloc_bench.Container.Layout.{Fits, Fits-Layout, IsCeiling-unique, mapping_address-IsCeiling}
use vcmalloc_bench.Context.Consistent.{Chain, chain_end, pages_of}

mapping_address-next :
    (s at ts n : ℕ) → mapping_address s (next_address at ts n) ≡ next_mapping_address s at ts n
unfolding mapping_address next_mapping_address
mapping_address-next s at ts n = refl

-- The first own page of what stands behind a chain is as many pages on as the chain has.
pub mapping_address-chain_end :
    (s : ℕ) (vars : ℕ → ℕ) (at : ℕ) (cs : List ContainerContext)
    → Chain s vars at cs
    → mapping_address s (chain_end at cs) ≡ mapping_address s at + pages_of s vars cs * 2 ^ s
mapping_address-chain_end s vars at [] chain = omega arith
mapping_address-chain_end s vars at (c ∷ cs) (e, f, behind) =
    let rest =
      mapping_address-chain_end s vars (next_address at c.type_size c.elements_num) cs behind in
    let next = mapping_address-next s at c.type_size c.elements_num in
    let layout = Fits-Layout f in
    rw e (omega (arith, rest, next, layout.next, layout.mapped, layout.mapped_end, layout.balance))

-- An address at the start of a page is the first mapped one.
pub mapping_address-aligned : (s a : ℕ) → a % 2 ^ s ≡ 0 → Fits s a 0 0 → mapping_address s a ≡ a
mapping_address-aligned s a aligned here =
    let parts = div-add-mod' a (2 ^ s) in
    let some_byte = one-le-pow s 2 (omega arith) in
    IsCeiling-unique (mapping_address-IsCeiling here) (record {
      multiple = a / 2 ^ s;
      exact = omega arith;
      above = omega arith;
      near = omega arith;
    })
