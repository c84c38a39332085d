-- ===== src/BinaryTree/Stacked.antt =====
-- nonRecursiveInTraversal and nonRecursivePreTraversal of libs_src/data_structures/binaryTree.h. Their
-- stack of pointers, a linkedStackType that lives only in the call, is a list with the top first.
use mathlib.Core.List.{append-nil}
use vcmalloc_bench.Base.{
  ℕ, zero, suc, ◌+◌, ◌-◌, ◌<◌, ◌≡◌, refl, sym, ap, ◌∙◌, arith, List, [], ◌∷◌, ◌++◌, ◌==◌,
  if◌then◌else◌,
}
use vcmalloc_bench.Machine.Run.{ok, out_of_fuel, Cmd, pure, ◌>>=◌}
use vcmalloc_bench.BinaryTree.{BinaryTreeType, load_branch, inorder, preorder}
use vcmalloc_bench.BinaryTree.Shape.{Tree, leaf, branch, address, depth, IsTree}
use vcmalloc_bench.BinaryTree.Walk.{nonzero, items, inorder-items}

-- What is shown from `current` and the stack on, with the rounds of the loop as fuel.
unfoldable pub inorder_loop : (fuel current : ℕ) → List ℕ → Cmd BinaryTreeType (List ℕ)
inorder_loop zero current stack s = out_of_fuel
inorder_loop (suc fuel) current stack s =
    if current == 0
    then elim stack [
      | [] ↦ ok [] s
      | p ∷ below ↦
          (do
            node ← load_branch p
            rest ← inorder_loop fuel node.r_link below
            pure (node.info ∷ rest))
            s
    ]
    else (do node ← load_branch current; inorder_loop fuel node.l_link (current ∷ stack)) s

unfoldable pub non_recursive_in_traversal : (fuel : ℕ) → Cmd BinaryTreeType (List ℕ)
unfolding inorder_loop
non_recursive_in_traversal fuel s = inorder_loop fuel s.root [] s

unfoldable pub preorder_loop : (fuel current : ℕ) → List ℕ → Cmd BinaryTreeType (List ℕ)
preorder_loop zero current stack s = out_of_fuel
preorder_loop (suc fuel) current stack s =
    if current == 0
    then elim stack [
      | [] ↦ ok [] s
      | p ∷ below ↦ (do node ← load_branch p; preorder_loop fuel node.r_link below) s
    ]
    else (do
      node ← load_branch current
      rest ← preorder_loop fuel node.l_link (current ∷ stack)
      pure (node.info ∷ rest))
        s

unfoldable pub non_recursive_pre_traversal : (fuel : ℕ) → Cmd BinaryTreeType (List ℕ)
unfolding preorder_loop
non_recursive_pre_traversal fuel s = preorder_loop fuel s.root [] s

-- Two rounds for each node.
abbrev pub rounds : Tree → ℕ
rounds leaf = 0
rounds (branch q l x r) = 2 + (rounds l + rounds r)

abbrev pub preorder_items : Tree → List ℕ
preorder_items leaf = []
preorder_items (branch q l x r) = x ∷ preorder_items l ++ preorder_items r

append_assoc : (xs ys zs : List ℕ) → (xs ++ ys) ++ zs ≡ xs ++ (ys ++ zs)
append_assoc [] ys zs = refl
append_assoc (x ∷ xs) ys zs = ap (λ (l : List ℕ). x ∷ l) (append_assoc xs ys zs)

module _ (s : BinaryTreeType) where
  -- The loop shows the tree at its pointer, and goes on with the stack.
  inorder_loop-items :
      (fuel : ℕ) (t : Tree) (stack ys : List ℕ)
      → IsTree s.nodes t
      → inorder_loop fuel 0 stack s ≡ ok ys s
      → inorder_loop (rounds t + fuel) (address t) stack s ≡ ok (items t ++ ys) s
  unfolding inorder_loop
  inorder_loop-items fuel leaf stack ys is done =
      ap (λ (n : ℕ). inorder_loop n 0 stack s) (omega arith) ∙ done
  inorder_loop-items fuel (branch q l x r) stack ys (ne, here, left, right) done =
      let behind : inorder_loop (suc (rounds r + fuel)) 0 (q ∷ stack) s
          ≡ ok (x ∷ (items r ++ ys)) s =
        rw (here, load_branch) (rw (inorder_loop-items fuel r stack ys right done) refl) in
      let below : inorder_loop (rounds l + suc (rounds r + fuel)) (address l) (q ∷ stack) s
          ≡ ok (items l ++ (x ∷ (items r ++ ys))) s =
        inorder_loop-items (suc (rounds r + fuel)) l (q ∷ stack) (x ∷ (items r ++ ys)) left
          behind in
      let more : 2 + (rounds l + rounds r) + fuel ≡ suc (rounds l + suc (rounds r + fuel)) =
        omega arith in
      ap (λ (n : ℕ). inorder_loop n q stack s) more
      ∙ rw (nonzero q ne) (rw (here, load_branch) below)
      ∙ ap (λ (l : List ℕ). ok l s) (sym (append_assoc (items l) (x ∷ items r) ys))

  preorder_loop-items :
      (fuel : ℕ) (t : Tree) (stack ys : List ℕ)
      → IsTree s.nodes t
      → preorder_loop fuel 0 stack s ≡ ok ys s
      → preorder_loop (rounds t + fuel) (address t) stack s ≡ ok (preorder_items t ++ ys) s
  unfolding preorder_loop
  preorder_loop-items fuel leaf stack ys is done =
      ap (λ (n : ℕ). preorder_loop n 0 stack s) (omega arith) ∙ done
  preorder_loop-items fuel (branch q l x r) stack ys (ne, here, left, right) done =
      let behind : preorder_loop (suc (rounds r + fuel)) 0 (q ∷ stack) s
          ≡ ok (preorder_items r ++ ys) s =
        rw (here, load_branch) (preorder_loop-items fuel r stack ys right done) in
      let below : preorder_loop (rounds l + suc (rounds r + fuel)) (address l) (q ∷ stack) s
          ≡ ok (preorder_items l ++ (preorder_items r ++ ys)) s =
        preorder_loop-items (suc (rounds r + fuel)) l (q ∷ stack) (preorder_items r ++ ys) left
          behind in
      let more : 2 + (rounds l + rounds r) + fuel ≡ suc (rounds l + suc (rounds r + fuel)) =
        omega arith in
      let order : x ∷ (preorder_items l ++ (preorder_items r ++ ys))
          ≡ x ∷ ((preorder_items l ++ preorder_items r) ++ ys) =
        ap (λ (k : List ℕ). x ∷ k) (sym (append_assoc (preorder_items l) (preorder_items r) ys)) in
      ap (λ (n : ℕ). preorder_loop n q stack s) more
      ∙ rw (nonzero q ne) (rw (here, load_branch) (rw below (ap (λ (k : List ℕ). ok k s) order)))

  preorder-items :
      (fuel : ℕ) (t : Tree)
      → depth t < fuel
      → IsTree s.nodes t
      → preorder fuel (address t) s ≡ ok (preorder_items t) s
  unfolding preorder
  preorder-items zero t lt is = absurd (omega arith)
  preorder-items (suc fuel) leaf lt is = refl
  preorder-items (suc fuel) (branch q l x r) lt (ne, here, left, right) = rw (nonzero q ne) (
      rw (here, load_branch)
        (rw (preorder-items fuel l (omega arith) left)
          (rw (preorder-items fuel r (omega arith) right) refl)))

  -- On nodes that spell a tree, with more rounds than two for each node and more recursion depth
  -- than there are nodes, the inorder and the preorder traversal with a stack end, and show what
  -- the recursive ones show.
  pub non_recursive_in_traversal-inorder :
      (fuel k : ℕ) (t : Tree)
      → IsTree s.nodes t
      → s.root ≡ address t
      → rounds t < fuel
      → depth t < k
      → (non_recursive_in_traversal fuel s ≡ inorder k s.root s)
        × (non_recursive_pre_traversal fuel s ≡ preorder k s.root s)
  unfolding non_recursive_in_traversal non_recursive_pre_traversal inorder_loop preorder_loop
  non_recursive_in_traversal-inorder fuel k t is rooted enough lt =
      let split : fuel ≡ rounds t + suc (fuel - rounds t - 1) = omega arith in
      let rest = fuel - rounds t - 1 in
      (
        ap (λ (n : ℕ). inorder_loop n s.root [] s) split
            ∙ ap (λ (p : ℕ). inorder_loop (rounds t + suc rest) p [] s) rooted
            ∙ inorder_loop-items (suc rest) t [] [] is refl
            ∙ ap (λ (k : List ℕ). ok k s) (append-nil (items t))
            ∙ sym (inorder-items s k t lt is)
            ∙ ap (λ (p : ℕ). inorder k p s) (sym rooted),
        ap (λ (n : ℕ). preorder_loop n s.root [] s) split
            ∙ ap (λ (p : ℕ). preorder_loop (rounds t + suc rest) p [] s) rooted
            ∙ preorder_loop-items (suc rest) t [] [] is refl
            ∙ ap (λ (k : List ℕ). ok k s) (append-nil (preorder_items t))
            ∙ sym (preorder-items k t lt is)
            ∙ ap (λ (p : ℕ). preorder k p s) (sym rooted),
      )
