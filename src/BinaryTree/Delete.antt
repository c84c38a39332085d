-- ===== src/BinaryTree/Delete.antt =====
-- deleteFromTree and deleteNode of libs_src/data_structures/binarySearchTree.h, and copyTree of
-- binaryTree.h.
use vcmalloc_bench.Base.{ℕ, zero, suc, List, [], ◌∷◌, ltb, ◌==◌, ◌&&◌, if◌then◌else◌}
use vcmalloc_bench.Machine.Run.{ok, out_of_fuel, Cmd, pure, ◌>>=◌, ◌>>◌, get}
use vcmalloc_bench.BinaryTree.{
  BinaryTreeType, load_branch, store_branch, set_root, set_search_root, delete_branch, destroy_tree,
}

-- A pointer that is passed by reference: the root of bSearchTreeType, or a link of a node.
pub data Target : Type 0 where
  at_root : Target
  at_left : ℕ → Target
  at_right : ℕ → Target

unfoldable pub read_place : Target → Cmd BinaryTreeType ℕ
read_place at_root s = ok s.search_root s
read_place (at_left p) s = (do node ← load_branch p; pure node.l_link) s
read_place (at_right p) s = (do node ← load_branch p; pure node.r_link) s

unfoldable pub write_place : Target → ℕ → Cmd BinaryTreeType (Unit {0})
write_place at_root q s = set_search_root q s
write_place (at_left p) q s =
    (do node ← load_branch p; store_branch p (record node { l_link = q })) s
write_place (at_right p) q s =
    (do node ← load_branch p; store_branch p (record node { r_link = q })) s

-- The loop to the last node on the right, with the node before it, 0 if it did not move.
unfoldable pub rightmost : (fuel current trail : ℕ) → Cmd BinaryTreeType (ℕ × ℕ)
rightmost zero current trail s = out_of_fuel
rightmost (suc fuel) current trail s =
    (do
      node ← load_branch current
      if node.r_link == 0 then pure (current, trail) else rightmost fuel node.r_link current)
      s

-- The last branch of `deleteFromTree`, for the node at `p` with two subtrees.
unfoldable pub delete_inner : (fuel p : ℕ) → Cmd BinaryTreeType (Unit {0})
unfolding rightmost
delete_inner fuel p = do
  node ← load_branch p
  (current, trail) ← rightmost fuel node.l_link 0
  last ← load_branch current
  store_branch p (record node { info = last.info })
  if trail == 0
      then (do top ← load_branch p; store_branch p (record top { l_link = last.l_link }))
      else (do
        before ← load_branch trail
        store_branch trail (record before { r_link = last.l_link }))
  delete_branch current

-- `deleteFromTree(p)`; its message is left out.
unfoldable pub delete_from_tree : (fuel : ℕ) → Target → Cmd BinaryTreeType (Unit {0})
unfolding read_place write_place delete_inner
delete_from_tree fuel place = do
  p ← read_place place
  if p == 0 then pure tt else (do
    node ← load_branch p
    if (node.l_link == 0) && (node.r_link == 0)
        then (do write_place place 0; delete_branch p)
        else if node.l_link == 0
        then (do write_place place node.r_link; delete_branch p)
        else if node.r_link == 0
        then (do write_place place node.l_link; delete_branch p)
        else delete_inner fuel p)

-- The loop of `deleteNode`: the node with the item, 0 if there is none, and the one before it.
unfoldable pub locate : (fuel current trail item : ℕ) → Cmd BinaryTreeType (ℕ × ℕ)
locate zero current trail item s = out_of_fuel
locate (suc fuel) current trail item s =
    if current == 0
    then ok (current, trail) s
    else (do
      node ← load_branch current
      if node.info == item
          then pure (current, trail)
          else if ltb item node.info
          then locate fuel node.l_link current item
          else locate fuel node.r_link current item)
        s

-- `deleteNode`; its messages are left out.
unfoldable pub delete_node : (fuel item : ℕ) → Cmd BinaryTreeType (Unit {0})
unfolding locate delete_from_tree
delete_node fuel item = do
  s ← get
  if s.search_root == 0 then pure tt else (do
    (current, trail) ← locate fuel s.search_root s.search_root item
    if current == 0
        then pure tt
        else if current == s.search_root
        then delete_from_tree fuel at_root
        else (do
          before ← load_branch trail
          if ltb item before.info
              then delete_from_tree fuel (at_left trail)
              else delete_from_tree fuel (at_right trail)))

-- `copyTree`: the copy of the tree at a pointer, at the addresses that `operator new` returns one
-- after the other, and the addresses that are left. Without an address the fuel is out.
unfoldable pub copy_tree : (fuel : ℕ) → List ℕ → (other : ℕ) → Cmd BinaryTreeType (ℕ × List ℕ)
copy_tree zero addresses other s = out_of_fuel
copy_tree (suc fuel) addresses other s =
    if other == 0 then ok (0, addresses) s else elim addresses [
      | [] ↦ out_of_fuel
      | addr ∷ rest ↦
          (do
            node ← load_branch other
            store_branch addr (record { info = node.info; r_link = 0; l_link = 0 })
            (left, behind) ← copy_tree fuel rest node.l_link
            store_branch addr (record { info = node.info; r_link = 0; l_link = left })
            (right, unused) ← copy_tree fuel behind node.r_link
            store_branch addr (record { info = node.info; r_link = right; l_link = left })
            pure (addr, unused))
            s
    ]

-- `operator=` with another tree.
unfoldable pub assign_tree : (fuel : ℕ) → List ℕ → (other : ℕ) → Cmd BinaryTreeType (Unit {0})
unfolding copy_tree
assign_tree fuel addresses other = do
  s ← get
  (if s.root == 0 then pure tt else destroy_tree fuel)
  if other == 0
      then set_root 0
      else (do (copied, unused) ← copy_tree fuel addresses other; set_root copied)
