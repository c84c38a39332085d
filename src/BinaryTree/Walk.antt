-- ===== src/BinaryTree/Walk.antt =====
-- The traversals and the search of a tree, against the tree that its nodes spell.
use vcmalloc_bench.Base.{
  ℕ, zero, suc, ◌<◌, ◌≡◌, ◌≢◌, refl, ap, ◌∙◌, arith, Bool, true, false, List, [], ◌∷◌, ◌++◌, ltb,
  ◌==◌, if◌then◌else◌, inl, inr, Bool-cases,
}
use vcmalloc_bench.Machine.Run.{ok}
use vcmalloc_bench.BinaryTree.{BinaryTreeType, load_branch, inorder, search_tree_from, search_tree}
use vcmalloc_bench.BinaryTree.Shape.{
  Tree, leaf, branch, address, depth, IsTree, Distinct, Ordered, has_item, has_item-Above,
  has_item-Below,
}

-- A search tree: the nodes from the root of bSearchTreeType spell an ordered tree, each at its own
-- address.
pub record IsSearchTree (s : BinaryTreeType) (t : Tree) : Type 0 where
  pub rooted : s.search_root ≡ address t
  pub shape : IsTree s.nodes t
  pub distinct : Distinct t
  pub ordered : Ordered t

pub nonzero : (q : ℕ) → q ≢ 0 → (q == 0) ≡ false
nonzero q ne = elim (Bool-cases (q == 0)) [
  | inl null ↦ absurd (ne (ground arith))
  | inr some_node ↦ some_node
]

abbrev pub items : Tree → List ℕ
items leaf = []
items (branch q l x r) = items l ++ x ∷ items r

settled : (b : Bool) → b ≡ (if b then true else false)
settled true = refl
settled false = refl

module _ (s : BinaryTreeType) where
  pub inorder-items :
      (fuel : ℕ) (t : Tree)
      → depth t < fuel
      → IsTree s.nodes t
      → inorder fuel (address t) s ≡ ok (items t) s
  unfolding inorder
  inorder-items zero t lt is = absurd (omega arith)
  inorder-items (suc fuel) leaf lt is = refl
  inorder-items (suc fuel) (branch q l x r) lt (ne, here, left, right) = rw (nonzero q ne) (
      rw (here, load_branch)
        (rw (inorder-items fuel l (omega arith) left)
          (rw (inorder-items fuel r (omega arith) right) refl)))

  search_tree_from-has_item :
      (fuel item : ℕ) (t : Tree)
      → depth t < fuel
      → IsTree s.nodes t
      → Ordered t
      → search_tree_from fuel (address t) item s ≡ ok (has_item item t) s
  unfolding search_tree_from has_item
  search_tree_from-has_item zero item t lt is ordered = absurd (omega arith)
  search_tree_from-has_item (suc fuel) item leaf lt is ordered = refl
  search_tree_from-has_item (suc fuel) item (branch q l x r) lt (ne, here, left, right)
        (below, above, ordered_l, ordered_r) =
      rw (nonzero q ne) (
        rw (here, load_branch)
          (elim (Bool-cases (x == item)) [
            | inl same ↦ rw same refl
            | inr other ↦ elim (Bool-cases (ltb item x)) [
              | inl less ↦
                  rw (other, less)
                    (search_tree_from-has_item fuel item l (omega arith) left ordered_l
                      ∙ ap (λ (b : Bool). ok b s)
                          (rw (has_item-Above item x r (ground arith) above)
                            (settled (has_item item l))))
              | inr not_less ↦
                  rw (other, not_less)
                    (search_tree_from-has_item fuel item r (omega arith) right ordered_r
                      ∙ ap (λ (b : Bool). ok b s)
                          (rw (has_item-Below item x l (ground arith) below) refl))
            ]
          ]))

  -- On a search tree, with more fuel than there are nodes, search ends with the answer whether the
  -- item is anywhere in the tree, and changes nothing.
  pub search_tree-has_item :
      (fuel item : ℕ) (t : Tree)
      → depth t < fuel
      → IsSearchTree s t
      → search_tree fuel item s ≡ ok (has_item item t) s
  unfolding search_tree has_item
  search_tree-has_item fuel item leaf lt is =
      let empty : (s.search_root == 0) ≡ true = ground (arith, is.rooted) in rw empty refl
  search_tree-has_item fuel item (branch q l x r) lt is =
      let some_root : (s.search_root == 0) ≡ false =
        ap (λ (p : ℕ). p == 0) is.rooted ∙ nonzero q is.shape.0 in
      rw some_root (
        ap (λ (p : ℕ). search_tree_from fuel p item s) is.rooted
        ∙ search_tree_from-has_item fuel item (branch q l x r) lt is.shape is.ordered)
