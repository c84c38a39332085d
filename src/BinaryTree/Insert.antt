-- ===== src/BinaryTree/Insert.antt =====
-- insert of a search tree: the new node is hung in where the search for its item ends.
use vcmalloc_bench.Base.{
  ℕ, zero, suc, ◌<◌, ◌≡◌, ◌≢◌, refl, sym, ap, subst, ◌∙◌, arith, true, false, none, some, Option,
  ltb, ◌==◌, if◌then◌else◌, ◌⊎◌, inl, inr, Bool-cases,
}
use vcmalloc_bench.Machine.Run.{ok}
use vcmalloc_bench.Machine.Returns.{Returns, returns}
use vcmalloc_bench.BinaryTree.{
  BinaryTreeNodeType, BinaryTreeType, set_tree_node, load_branch, trail_from, attach, insert_item,
}
use vcmalloc_bench.BinaryTree.Shape.{
  Tree, leaf, branch, address, depth, IsTree, In, Distinct, has_item, inserted,
  IsTree-set_tree_node, Ordered-inserted, Distinct-inserted, has_item-inserted,
}
use vcmalloc_bench.BinaryTree.Walk.{IsSearchTree, nonzero}

-- The node that gets the new one.
abbrev linked : (addr item : ℕ) → BinaryTreeNodeType → BinaryTreeNodeType
linked addr item node =
    if ltb item node.info then record node { l_link = addr } else record node { r_link = addr }

same_address : (q : ℕ) → (q == q) ≡ true
same_address q = ground arith

module _ (addr item : ℕ) (s : BinaryTreeType) (ne : addr ≢ 0)
    (fresh : s.nodes addr ≡ some (record { info = item; r_link = 0; l_link = 0 })) where
  -- The walk finds the item in the tree.
  abbrev Present : (fuel trail : ℕ) → Tree → Type 0
  Present fuel trail t =
      (trail_from fuel (address t) trail item s ≡ ok none s) × (inserted addr item t ≡ t)

  -- It ends at a node of the tree, and the tree with the new node differs in that one.
  abbrev Hung : (fuel trail : ℕ) → Tree → Type 0
  Hung fuel trail t =
      (z : ℕ) × (node : BinaryTreeNodeType) × (trail_from fuel (address t) trail item s
        ≡ ok (some z) s)
      × (s.nodes z ≡ some node)
      × In z t
      × (address (inserted addr item t) ≡ address t)
      × IsTree (set_tree_node s.nodes z (some (linked addr item node))) (inserted addr item t)

  -- It ends at once, at the node before.
  abbrev Ended : (fuel trail : ℕ) → Tree → Type 0
  Ended fuel trail t =
      (trail_from fuel (address t) trail item s ≡ ok (some trail) s)
      × (address (inserted addr item t) ≡ addr)
      × ((z : ℕ) (node : Option BinaryTreeNodeType)
          → z ≢ addr
          → IsTree (set_tree_node s.nodes z node) (inserted addr item t))

  differs : (p q : ℕ) → p ≢ q → (p == q) ≡ false
  differs p q other = elim (Bool-cases (p == q)) [
    | inl same ↦ absurd (other (ground arith))
    | inr differ ↦ differ
  ]

  -- A leaf becomes the new node.
  ended : (fuel trail : ℕ) → Ended (suc fuel) trail leaf
  unfolding trail_from inserted
  ended fuel trail =
      (refl, refl, λ z node other. (ne, rw (differs addr z (λ e. other (sym e))) fresh, tt, tt))

  module _ (fuel trail q : ℕ) (l : Tree) (x : ℕ) (r : Tree) (away : In addr (branch q l x r) → ⊥)
      (distinct : Distinct (branch q l x r)) (is : IsTree s.nodes (branch q l x r))
      (other : (x == item) ≡ false) where
    from_left :
        ltb item x ≡ true
        → Present fuel q l ⊎ (Hung fuel q l ⊎ Ended fuel q l)
        → Present (suc fuel) trail (branch q l x r) ⊎ Hung (suc fuel) trail (branch q l x r)
    unfolding trail_from inserted
    from_left less (inl (e, same)) = inl (
      rw (nonzero q is.0) (rw (is.1, load_branch) (rw (other, less) e)),
      rw (other, less) (ap (λ (t : Tree). branch q t x r) same),
    )
    from_left less (inr (inl (z, node, e, at, i, same, tree))) = inr (
      z,
      node,
      rw (nonzero q is.0) (rw (is.1, load_branch) (rw (other, less) e)),
      at,
      inr (inl i),
      rw (other, less) refl,
      rw (other, less)
          (
            is.0,
            rw (differs q z (λ f. distinct.0 (subst (λ (a : ℕ). In a l) (sym f) i))) (rw same is.1),
            tree,
            IsTree-set_tree_node s.nodes z _ r (distinct.2 z i) is.3,
          ),
    )
    from_left less (inr (inr (e, new, tree))) = inr (
      q,
      record { info = x; r_link = address r; l_link = address l },
      rw (nonzero q is.0) (rw (is.1, load_branch) (rw (other, less) e)),
      is.1,
      inl refl,
      rw (other, less) refl,
      rw (other, less)
          (
            is.0,
            rw (same_address q) (rw new refl),
            tree q _ (λ f. away (inl (sym f))),
            IsTree-set_tree_node s.nodes q _ r distinct.1 is.3,
          ),
    )

    from_right :
        ltb item x ≡ false
        → Present fuel q r ⊎ (Hung fuel q r ⊎ Ended fuel q r)
        → Present (suc fuel) trail (branch q l x r) ⊎ Hung (suc fuel) trail (branch q l x r)
    unfolding trail_from inserted
    from_right less (inl (e, same)) = inl (
      rw (nonzero q is.0) (rw (is.1, load_branch) (rw (other, less) e)),
      rw (other, less) (ap (λ (t : Tree). branch q l x t) same),
    )
    from_right less (inr (inl (z, node, e, at, i, same, tree))) = inr (
      z,
      node,
      rw (nonzero q is.0) (rw (is.1, load_branch) (rw (other, less) e)),
      at,
      inr (inr i),
      rw (other, less) refl,
      rw (other, less)
          (
            is.0,
            rw (differs q z (λ f. distinct.1 (subst (λ (a : ℕ). In a r) (sym f) i))) (rw same is.1),
            IsTree-set_tree_node s.nodes z _ l (λ j. distinct.2 z j i) is.2,
            tree,
          ),
    )
    from_right less (inr (inr (e, new, tree))) = inr (
      q,
      record { info = x; r_link = address r; l_link = address l },
      rw (nonzero q is.0) (rw (is.1, load_branch) (rw (other, less) e)),
      is.1,
      inl refl,
      rw (other, less) refl,
      rw (other, less)
          (
            is.0,
            rw (same_address q) (rw new refl),
            IsTree-set_tree_node s.nodes q _ l distinct.0 is.2,
            tree q _ (λ f. away (inl (sym f))),
          ),
    )

  -- What the walks through the subtrees come to, for the tree.
  step :
      (fuel trail q : ℕ) (l : Tree) (x : ℕ) (r : Tree)
      → (In addr (branch q l x r) → ⊥)
      → Distinct (branch q l x r)
      → IsTree s.nodes (branch q l x r)
      → Present fuel q l ⊎ (Hung fuel q l ⊎ Ended fuel q l)
      → Present fuel q r ⊎ (Hung fuel q r ⊎ Ended fuel q r)
      → Present (suc fuel) trail (branch q l x r) ⊎ Hung (suc fuel) trail (branch q l x r)
  unfolding trail_from inserted
  step fuel trail q l x r away distinct is left right = elim (Bool-cases (x == item)) [
    | inl same ↦ inl (rw (nonzero q is.0) (rw (is.1, load_branch) (rw same refl)), rw same refl)
    | inr other ↦ elim (Bool-cases (ltb item x)) [
      | inl less ↦ from_left fuel trail q l x r away distinct is other less left
      | inr not_less ↦ from_right fuel trail q l x r away distinct is other not_less right
    ]
  ]

  widen : {B C D : Type 0} → B ⊎ C → B ⊎ (C ⊎ D)
  widen (inl b) = inl b
  widen (inr c) = inr (inl c)

  walk :
      (fuel trail : ℕ) (t : Tree)
      → depth t < fuel
      → (In addr t → ⊥)
      → Distinct t
      → IsTree s.nodes t
      → Present fuel trail t ⊎ (Hung fuel trail t ⊎ Ended fuel trail t)
  walk zero trail t lt away distinct is = absurd (omega arith)
  walk (suc fuel) trail leaf lt away distinct is = inr (inr (ended fuel trail))
  walk (suc fuel) trail (branch q l x r) lt away distinct is = widen (
      step fuel trail q l x r away distinct is
        (walk fuel q l (omega arith) (λ i. away (inr (inl i))) distinct.3 is.2)
        (walk fuel q r (omega arith) (λ i. away (inr (inr i))) distinct.4 is.3))

  walk_branch :
      (fuel trail q : ℕ) (l : Tree) (x : ℕ) (r : Tree)
      → depth (branch q l x r) < fuel
      → (In addr (branch q l x r) → ⊥)
      → Distinct (branch q l x r)
      → IsTree s.nodes (branch q l x r)
      → Present fuel trail (branch q l x r) ⊎ Hung fuel trail (branch q l x r)
  walk_branch zero trail q l x r lt away distinct is = absurd (omega arith)
  walk_branch (suc fuel) trail q l x r lt away distinct is =
      step fuel trail q l x r away distinct is
        (walk fuel q l (omega arith) (λ i. away (inr (inl i))) distinct.3 is.2)
        (walk fuel q r (omega arith) (λ i. away (inr (inr i))) distinct.4 is.3)

module _ (addr item : ℕ) (ne : addr ≢ 0) (s : BinaryTreeType) where
  -- The state with the new node, which no link points to.
  abbrev noded : BinaryTreeType
  noded = record s {
    nodes = set_tree_node s.nodes addr (some (record { info = item; r_link = 0; l_link = 0 }));
  }

  fresh : noded.nodes addr ≡ some (record { info = item; r_link = 0; l_link = 0 })
  fresh = rw (same_address addr) refl

  -- The state after the call: the search tree has the items from before and the new one.
  pub record Entered (t : Tree) (s' : BinaryTreeType) : Type 0 where
    pub tree : Tree
    pub searchable : IsSearchTree s' tree
    pub held : (b : ℕ) → has_item b tree ≡ (if item == b then true else has_item b t)

  module _ (t : Tree) (away : In addr t → ⊥) (is : IsSearchTree s t) where
    entered :
        (s' : BinaryTreeType)
        → s'.search_root ≡ address (inserted addr item t)
        → IsTree s'.nodes (inserted addr item t)
        → Entered t s'
    entered s' rooted shape = record {
      tree = inserted addr item t;
      searchable = record {
        rooted = rooted;
        shape = shape;
        distinct = Distinct-inserted addr item t away is.distinct;
        ordered = Ordered-inserted addr item t is.ordered;
      };
      held = λ b. has_item-inserted addr item b t;
    }

    -- The end of the call, by what the walk came to.
    finish :
        (fuel : ℕ)
        → (s.search_root == 0) ≡ false
        → Present addr item noded ne fresh fuel 0 t ⊎ Hung addr item noded ne fresh fuel 0 t
        → Returns (λ _ s'. Entered t s') (insert_item fuel item addr s)
    unfolding insert_item attach
    finish fuel some_root (inl (e, same)) =
        let walked : trail_from fuel s.search_root 0 item noded ≡ ok none noded =
          ap (λ (p : ℕ). trail_from fuel p 0 item noded) is.rooted ∙ e in
        rw some_root (
          rw walked (
            returns (
              entered noded (is.rooted ∙ ap address (sym same))
                (rw same (IsTree-set_tree_node s.nodes addr _ t away is.shape)))))
    finish fuel some_root (inr (z, node, e, at, i, same, shape)) =
        let walked : trail_from fuel s.search_root 0 item noded ≡ ok (some z) noded =
          ap (λ (p : ℕ). trail_from fuel p 0 item noded) is.rooted ∙ e in
        rw some_root (
          rw walked (
            rw (at, load_branch)
              (elim (Bool-cases (ltb item node.info)) [
                | inl less ↦ rw less (returns (entered _ (is.rooted ∙ sym same) (rw less at shape)))
                | inr not_less ↦
                    rw not_less (returns (entered _ (is.rooted ∙ sym same) (rw not_less at shape)))
              ])))

  -- On a search tree whose nodes spell an ordered tree, with a new address other than 0 that is not
  -- that of one of its nodes and more fuel than there are nodes, insert ends with a search tree
  -- that has the items from before and the new one.
  pub insert_item-Entered :
      (fuel : ℕ) (t : Tree)
      → depth t < fuel
      → (In addr t → ⊥)
      → IsSearchTree s t
      → Returns (λ _ s'. Entered t s') (insert_item fuel item addr s)
  unfolding insert_item inserted
  insert_item-Entered fuel leaf lt away is =
      let empty : (s.search_root == 0) ≡ true = ground (arith, is.rooted) in
      rw empty (returns (entered leaf away is _ refl (ne, fresh, tt, tt)))
  insert_item-Entered fuel (branch q l x r) lt away is =
      let some_root : (s.search_root == 0) ≡ false =
        ap (λ (p : ℕ). p == 0) is.rooted ∙ nonzero q is.shape.0 in
      finish (branch q l x r) away is fuel some_root (
        walk_branch addr item noded ne fresh fuel 0 q l x r lt away is.distinct
          (IsTree-set_tree_node s.nodes addr _ (branch q l x r) away is.shape))
