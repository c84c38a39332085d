-- ===== src/BinaryTree.antt =====
-- The binary trees of libs_src/data_structures/binaryTree.h and the search trees of
-- binarySearchTree.h, with numbers as items. `operator new` is not part of the repository: the
-- address that it returns is an argument, as in the overload of insert with `addr`.
pub mod Delete
pub mod Shape
pub mod Walk
pub mod Insert
pub mod Order
pub mod Stacked
use vcmalloc_bench.Base.{
  ℕ, zero, suc, ◌+◌, Bool, true, false, Option, none, some, List, [], ◌∷◌, ◌++◌, ltb, ◌==◌,
  if◌then◌else◌,
}
use vcmalloc_bench.Machine.Run.{Run, ok, fault, out_of_fuel, Cmd, pure, ◌>>=◌, ◌>>◌, get, put}

-- A pointer is the address of a node, 0 for nullptr.
pub record BinaryTreeNodeType : Type 0 where
  pub info : ℕ
  pub r_link : ℕ
  pub l_link : ℕ

-- The nodes that exist, and the object that a member function works on. `root` is the member of
-- binaryTreeType, and `search_root` the `root` that bSearchTreeType declares besides it: the
-- members of binaryTreeType work on the first one, those of bSearchTreeType on the second one.
pub record BinaryTreeType : Type 0 where
  pub nodes : ℕ → Option BinaryTreeNodeType
  pub root : ℕ
  pub search_root : ℕ

abbrev pub set_tree_node :
    (ℕ → Option BinaryTreeNodeType) → ℕ → Option BinaryTreeNodeType → ℕ → Option BinaryTreeNodeType
set_tree_node nodes p node q = if q == p then node else nodes q

-- `*p`, undefined where there is no node.
abbrev pub load_branch : ℕ → Cmd BinaryTreeType BinaryTreeNodeType
load_branch p s = elim (s.nodes p) [ none ↦ fault | some node ↦ ok node s ]

abbrev pub store_branch : ℕ → BinaryTreeNodeType → Cmd BinaryTreeType (Unit {0})
store_branch p node s = ok tt (record s { nodes = set_tree_node s.nodes p (some node) })

abbrev pub set_root : ℕ → Cmd BinaryTreeType (Unit {0})
set_root p s = ok tt (record s { root = p })

abbrev pub set_search_root : ℕ → Cmd BinaryTreeType (Unit {0})
set_search_root p s = ok tt (record s { search_root = p })

-- `delete p`
abbrev pub delete_branch : ℕ → Cmd BinaryTreeType (Unit {0})
delete_branch p = do
  node ← load_branch p
  s ← get
  put (record s { nodes = set_tree_node s.nodes p none })

unfoldable pub is_empty : BinaryTreeType → Bool
is_empty s = s.root == 0

-- The items that the traversals show, with the depth of the recursion as fuel.
unfoldable pub inorder : (fuel p : ℕ) → Cmd BinaryTreeType (List ℕ)
inorder zero p s = out_of_fuel
inorder (suc fuel) p s =
    if p == 0
    then ok [] s
    else (do
      node ← load_branch p
      left ← inorder fuel node.l_link
      right ← inorder fuel node.r_link
      pure (left ++ node.info ∷ right))
        s

unfoldable pub preorder : (fuel p : ℕ) → Cmd BinaryTreeType (List ℕ)
preorder zero p s = out_of_fuel
preorder (suc fuel) p s =
    if p == 0
    then ok [] s
    else (do
      node ← load_branch p
      left ← preorder fuel node.l_link
      right ← preorder fuel node.r_link
      pure (node.info ∷ left ++ right))
        s

unfoldable pub postorder : (fuel p : ℕ) → Cmd BinaryTreeType (List ℕ)
postorder zero p s = out_of_fuel
postorder (suc fuel) p s =
    if p == 0
    then ok [] s
    else (do
      node ← load_branch p
      left ← postorder fuel node.l_link
      right ← postorder fuel node.r_link
      pure (left ++ right ++ node.info ∷ []))
        s

unfoldable pub height : (fuel p : ℕ) → Cmd BinaryTreeType ℕ
height zero p s = out_of_fuel
height (suc fuel) p s =
    if p == 0
    then ok 0 s
    else (do
      node ← load_branch p
      left ← height fuel node.l_link
      right ← height fuel node.r_link
      pure (1 + (if ltb left right then right else left)))
        s

-- `inorder(p, visit)`, where the function that is passed may change the item.
unfoldable pub visit_inorder : (ℕ → ℕ) → (fuel p : ℕ) → Cmd BinaryTreeType (Unit {0})
visit_inorder visit zero p s = out_of_fuel
visit_inorder visit (suc fuel) p s =
    if p == 0
    then ok tt s
    else (do
      node ← load_branch p
      visit_inorder visit fuel node.l_link
      middle ← load_branch p
      store_branch p (record middle { info = visit middle.info })
      visited ← load_branch p
      visit_inorder visit fuel visited.r_link)
        s

-- `destroy(p)`; the pointer itself becomes nullptr in `destroyTree`.
unfoldable pub destroy : (fuel p : ℕ) → Cmd BinaryTreeType (Unit {0})
destroy zero p s = out_of_fuel
destroy (suc fuel) p s =
    if p == 0
    then ok tt s
    else (do
      node ← load_branch p
      destroy fuel node.l_link
      destroy fuel node.r_link
      delete_branch p)
        s

unfoldable pub destroy_tree : (fuel : ℕ) → Cmd BinaryTreeType (Unit {0})
unfolding destroy
destroy_tree fuel = do s ← get; destroy fuel s.root; set_root 0

-- bSearchTreeType: the loop of `search`.
unfoldable pub search_tree_from : (fuel current item : ℕ) → Cmd BinaryTreeType Bool
search_tree_from zero current item s = out_of_fuel
search_tree_from (suc fuel) current item s =
    if current == 0
    then ok false s
    else (do
      node ← load_branch current
      if node.info == item
          then pure true
          else if ltb item node.info
          then search_tree_from fuel node.l_link item
          else search_tree_from fuel node.r_link item)
        s

-- `search`; its message for the empty tree is left out.
unfoldable pub search_tree : (fuel item : ℕ) → Cmd BinaryTreeType Bool
unfolding search_tree_from
search_tree fuel item s =
    if s.search_root == 0 then ok false s else search_tree_from fuel s.search_root item s

-- The loop of `insert`: the node that gets the new one, or none if the item is there.
unfoldable pub trail_from : (fuel current trail item : ℕ) → Cmd BinaryTreeType (Option ℕ)
trail_from zero current trail item s = out_of_fuel
trail_from (suc fuel) current trail item s =
    if current == 0
    then ok (some trail) s
    else (do
      node ← load_branch current
      if node.info == item
          then pure none
          else if ltb item node.info
          then trail_from fuel node.l_link current item
          else trail_from fuel node.r_link current item)
        s

-- `if (trailCurrent->info > insertItem) ... else ...`
unfoldable pub attach : (addr item trail : ℕ) → Cmd BinaryTreeType (Unit {0})
attach addr item trail = do
  node ← load_branch trail
  if ltb item node.info
      then store_branch trail (record node { l_link = addr })
      else store_branch trail (record node { r_link = addr })

-- Both overloads of `insert`, and `perTypeAppend`. The new node is written before it is known
-- whether the item is there already.
unfoldable pub insert_item : (fuel item addr : ℕ) → Cmd BinaryTreeType (Unit {0})
unfolding trail_from attach
insert_item fuel item addr = do
  store_branch addr (record { info = item; r_link = 0; l_link = 0 })
  s ← get
  if s.search_root == 0 then set_search_root addr else (do
    found ← trail_from fuel s.search_root 0 item
    elim found [ none ↦ pure tt | some trail ↦ attach addr item trail ])
