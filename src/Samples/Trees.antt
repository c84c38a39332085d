-- ===== src/Samples/Trees.antt =====
-- A tree of three nodes, with the items 3, 5 and 8, that an object of bSearchTreeType has at its own
-- root and an object of binaryTreeType at its.
use vcmalloc_bench.Base.{
  ℕ, ◌+◌, ◌≡◌, refl, arith, none, some, List, [], ◌∷◌, if◌then◌else◌, ◌==◌, inl, inr, ◌≢◌, sym, ◌∙◌,
}
use vcmalloc_bench.Machine.Run.{ok, ◌>>=◌, ◌>>◌, Cmd, get}
use vcmalloc_bench.Machine.Returns.{Returns, returns}
use vcmalloc_bench.BinaryTree.{
  BinaryTreeType, set_root, visit_inorder, inorder, preorder, postorder, height, search_tree,
  insert_item, trail_from, attach, destroy_tree, destroy,
}
use vcmalloc_bench.BinaryTree.Delete.{
  delete_node, copy_tree, locate, delete_from_tree, read_place, write_place, delete_inner,
  rightmost,
}
use vcmalloc_bench.BinaryTree.Shape.{Tree, leaf, branch, In, Distinct, has_item}
use vcmalloc_bench.BinaryTree.Walk.{IsSearchTree, search_tree-has_item}
use vcmalloc_bench.BinaryTree.Insert.{Entered, insert_item-Entered}
use vcmalloc_bench.BinaryTree.Stacked.{
  non_recursive_in_traversal, non_recursive_pre_traversal, non_recursive_in_traversal-inorder,
}
use vcmalloc_bench.BinaryTree.Order.{Ascending, is_member, inorder-Ascending}

abbrev three_nodes : BinaryTreeType
three_nodes = record {
  nodes = λ p.
      if p == 100
      then some (record { info = 5; r_link = 300; l_link = 200 })
      else if p == 200
      then some (record { info = 3; r_link = 0; l_link = 0 })
      else if p == 300
      then some (record { info = 8; r_link = 0; l_link = 0 })
      else none;
  root = 0;
  search_root = 100;
}

-- An object of binaryTreeType, which has no second root.
abbrev base_object : BinaryTreeType
base_object = record three_nodes { root = 100; search_root = 0 }

abbrev three : Tree
three = branch 100 (branch 200 leaf 3 leaf) 5 (branch 300 leaf 8 leaf)

not_alone : (a q x : ℕ) → a ≢ q → In a (branch q leaf x leaf) → ⊥
not_alone a q x ne (inl e) = ne e
not_alone a q x ne (inr (inl i)) = i
not_alone a q x ne (inr (inr i)) = i

both_alone : (a p q x y : ℕ) → p ≢ q → In a (branch p leaf x leaf) → In a (branch q leaf y leaf) → ⊥
both_alone a p q x y ne (inl e) j = not_alone a q y (λ f. ne (sym e ∙ f)) j
both_alone a p q x y ne (inr (inl i)) j = i
both_alone a p q x y ne (inr (inr i)) j = i

not-In-three : In 400 three → ⊥
not-In-three (inl e) = omega (arith, e)
not-In-three (inr (inl i)) = not_alone 400 200 3 (λ e. omega (arith, e)) i
not-In-three (inr (inr i)) = not_alone 400 300 8 (λ e. omega (arith, e)) i

single : (q x : ℕ) → Distinct (branch q leaf x leaf)
single q x = ((λ i. i), (λ i. i), (λ a i j. i), tt, tt)

three-IsSearchTree : IsSearchTree three_nodes three
three-IsSearchTree = record {
  rooted = refl;
  shape = (
    (λ e. omega (arith, e)),
    refl,
    ((λ e. omega (arith, e)), refl, tt, tt),
    ((λ e. omega (arith, e)), refl, tt, tt),
  );
  distinct = (
    not_alone 100 200 3 (λ e. omega (arith, e)),
    not_alone 100 300 8 (λ e. omega (arith, e)),
    (λ a i j. both_alone a 200 300 3 8 (λ e. omega (arith, e)) i j),
    single 200 3,
    single 300 8,
  );
  ordered = ((omega arith, tt, tt), (omega arith, tt, tt), (tt, tt, tt, tt), (tt, tt, tt, tt));
}

search_tree_example : search_tree 4 8 three_nodes ≡ ok (has_item 8 three) three_nodes
search_tree_example = search_tree-has_item three_nodes 4 8 three (omega arith) three-IsSearchTree

insert_tree_example :
    Returns
      (λ _ s. Entered 400 4 (λ e. omega (arith, e)) three_nodes three s)
      (insert_item 4 4 400 three_nodes)
insert_tree_example =
    insert_item-Entered 400 4 (λ e. omega (arith, e)) three_nodes 4 three (omega arith) not-In-three
      three-IsSearchTree

inorder_example :
    Returns
      (λ xs s. (s ≡ base_object) × Ascending xs × ((b : ℕ) → is_member b xs ≡ has_item b three))
      (inorder 4 100 base_object)
inorder_example =
    inorder-Ascending base_object 4 three (omega arith) refl three-IsSearchTree.shape
      three-IsSearchTree.ordered

-- The traversal of the base class, on the search tree after an insert.
shows_nothing :
    Returns (λ xs s. xs ≡ []) ((do insert_item 4 4 400; s ← get; inorder 4 s.root) three_nodes)
unfolding insert_item trail_from attach inorder
shows_nothing = returns refl

shows_four :
    Returns
      (λ xs s. xs ≡ 3 ∷ 4 ∷ 5 ∷ 8 ∷ [])
      ((do insert_item 4 4 400; s ← get; inorder 4 s.search_root) three_nodes)
unfolding insert_item trail_from attach inorder
shows_four = returns refl

-- The items that are left in the search tree, in order.
LeftAfter : ℕ → List ℕ → Cmd BinaryTreeType (Unit {0}) → Type 0
LeftAfter fuel xs command =
    Returns (λ ys s. ys ≡ xs) ((do command; s ← get; inorder fuel s.search_root) three_nodes)

delete_root : LeftAfter 4 (3 ∷ 8 ∷ []) (delete_node 4 5)
unfolding LeftAfter delete_node locate delete_from_tree read_place write_place delete_inner
    rightmost inorder
delete_root = returns refl

delete_leaf : LeftAfter 4 (3 ∷ 5 ∷ []) (delete_node 4 8)
unfolding LeftAfter delete_node locate delete_from_tree read_place write_place delete_inner
    rightmost inorder
delete_leaf = returns refl

delete_missing : LeftAfter 4 (3 ∷ 5 ∷ 8 ∷ []) (delete_node 4 7)
unfolding LeftAfter delete_node locate delete_from_tree read_place write_place delete_inner
    rightmost inorder
delete_missing = returns refl

copied :
    Returns
      (λ ys s. ys ≡ 3 ∷ 5 ∷ 8 ∷ [])
      ((do
        (p, rest) ← copy_tree 4 (500 ∷ 501 ∷ 502 ∷ []) 100
        destroy_tree 4
        set_root p
        s ← get
        inorder 4 s.root)
        base_object)
unfolding copy_tree destroy_tree destroy inorder
copied = returns refl

traversed : Returns (λ xs s. xs ≡ 3 ∷ 8 ∷ 5 ∷ []) (postorder 4 100 three_nodes)
unfolding postorder
traversed = returns refl

foremost : Returns (λ xs s. xs ≡ 5 ∷ 3 ∷ 8 ∷ []) (preorder 4 100 three_nodes)
unfolding preorder
foremost = returns refl

two_high : Returns (λ n s. n ≡ 2) (height 4 100 three_nodes)
unfolding height
two_high = returns refl

stacked_example :
    (non_recursive_in_traversal 7 base_object ≡ inorder 4 100 base_object)
    × (non_recursive_pre_traversal 7 base_object ≡ preorder 4 100 base_object)
stacked_example =
    non_recursive_in_traversal-inorder base_object 7 4 three three-IsSearchTree.shape refl
      (omega arith) (omega arith)

doubled : LeftAfter 4 (6 ∷ 10 ∷ 16 ∷ []) (visit_inorder (λ x. x + x) 4 100)
unfolding LeftAfter visit_inorder inorder
doubled = returns refl
