-- ===== src/BinaryTree/Shape.antt =====
-- The trees that the nodes spell, and the order of a search tree.
use vcmalloc_bench.Base.{
  ℕ, ◌+◌, ◌≤◌, ◌<◌, ◌≡◌, ◌≢◌, refl, sym, subst, arith, Bool, true, false, some, ltb, ◌==◌,
  if◌then◌else◌, ◌⊎◌, inl, inr, Bool-cases, Option,
}
use vcmalloc_bench.BinaryTree.{BinaryTreeNodeType, set_tree_node}

-- A node is at its address, with its item between the subtrees.
pub data Tree : Type 0 where
  leaf : Tree
  branch : ℕ → Tree → ℕ → Tree → Tree

abbrev pub address : Tree → ℕ
address leaf = 0
address (branch q l x r) = q

abbrev pub depth : Tree → ℕ
depth leaf = 0
depth (branch q l x r) = 1 + (depth l + depth r)

abbrev pub IsTree : (ℕ → Option BinaryTreeNodeType) → Tree → Type 0
IsTree nodes leaf = Unit
IsTree nodes (branch q l x r) =
    (q ≢ 0)
    × (nodes q ≡ some (record { info = x; r_link = address r; l_link = address l }))
    × IsTree nodes l
    × IsTree nodes r

-- `a` is the address of a node of the tree.
abbrev pub In : ℕ → Tree → Type 0
In a leaf = ⊥
In a (branch q l x r) = (a ≡ q) ⊎ (In a l ⊎ In a r)

-- No two nodes are at one address.
abbrev pub Distinct : Tree → Type 0
Distinct leaf = Unit
Distinct (branch q l x r) =
    (In q l → ⊥) × (In q r → ⊥) × ((a : ℕ) → In a l → In a r → ⊥) × Distinct l × Distinct r

abbrev pub Below : ℕ → Tree → Type 0
Below b leaf = Unit
Below b (branch q l x r) = (x < b) × Below b l × Below b r

abbrev pub Above : ℕ → Tree → Type 0
Above b leaf = Unit
Above b (branch q l x r) = (b < x) × Above b l × Above b r

-- Smaller items are on the left, greater ones on the right.
abbrev pub Ordered : Tree → Type 0
Ordered leaf = Unit
Ordered (branch q l x r) = Below x l × Above x r × Ordered l × Ordered r

-- Whether the item is anywhere in the tree.
unfoldable pub has_item : ℕ → Tree → Bool
has_item item leaf = false
has_item item (branch q l x r) =
    if x == item then true else if has_item item l then true else has_item item r

-- The tree with an item hung in at its place.
unfoldable pub inserted : (addr item : ℕ) → Tree → Tree
inserted addr item leaf = branch addr leaf item leaf
inserted addr item (branch q l x r) =
    if x == item
    then branch q l x r
    else if ltb item x
    then branch q (inserted addr item l) x r
    else branch q l x (inserted addr item r)

pub has_item-Above : (item b : ℕ) (t : Tree) → item ≤ b → Above b t → has_item item t ≡ false
unfolding has_item
has_item-Above item b leaf le above = refl
has_item-Above item b (branch q l x r) le (here, left, right) =
    let other : (x == item) ≡ false = ground arith in
    rw (other, has_item-Above item b l le left) (has_item-Above item b r le right)

pub has_item-Below : (item b : ℕ) (t : Tree) → b ≤ item → Below b t → has_item item t ≡ false
unfolding has_item
has_item-Below item b leaf le below = refl
has_item-Below item b (branch q l x r) le (here, left, right) =
    let other : (x == item) ≡ false = ground arith in
    rw (other, has_item-Below item b l le left) (has_item-Below item b r le right)

module _ (nodes : ℕ → Option BinaryTreeNodeType) (z : ℕ) (node : Option BinaryTreeNodeType) where
  -- A write elsewhere leaves the tree alone.
  pub IsTree-set_tree_node :
      (t : Tree) → (In z t → ⊥) → IsTree nodes t → IsTree (set_tree_node nodes z node) t
  IsTree-set_tree_node leaf away is = tt
  IsTree-set_tree_node (branch q l x r) away (ne, here, left, right) =
      let other : (q == z) ≡ false = elim (Bool-cases (q == z)) [
        | inl same ↦ absurd (away (inl (ground arith)))
        | inr other ↦ other
      ] in
      (
        ne,
        rw other here,
        IsTree-set_tree_node l (λ i. away (inr (inl i))) left,
        IsTree-set_tree_node r (λ i. away (inr (inr i))) right,
      )

either : {A B C : Type 0} → A ⊎ B → (A → C) → (B → C) → C
either (inl a) f g = f a
either (inr b) f g = g b

either_true : (b : Bool) → (if b then true else true) ≡ true
either_true true = refl
either_true false = refl

moved_left :
    {N : Type 0} (a q : ℕ) (l r : Tree) {L : Type 0}
    → (L → N ⊎ In a l)
    → (a ≡ q) ⊎ (L ⊎ In a r)
    → N ⊎ ((a ≡ q) ⊎ (In a l ⊎ In a r))
moved_left a q l r back (inl e) = inr (inl e)
moved_left a q l r back (inr (inl i)) = either (back i) inl (λ k. inr (inr (inl k)))
moved_left a q l r back (inr (inr j)) = inr (inr (inr j))

moved_right :
    {N : Type 0} (a q : ℕ) (l r : Tree) {R : Type 0}
    → (R → N ⊎ In a r)
    → (a ≡ q) ⊎ (In a l ⊎ R)
    → N ⊎ ((a ≡ q) ⊎ (In a l ⊎ In a r))
moved_right a q l r back (inl e) = inr (inl e)
moved_right a q l r back (inr (inl i)) = inr (inr (inl i))
moved_right a q l r back (inr (inr j)) = either (back j) inl (λ k. inr (inr (inr k)))

module _ (addr item : ℕ) where
  pub Below-inserted : (b : ℕ) (t : Tree) → item < b → Below b t → Below b (inserted addr item t)
  unfolding inserted
  Below-inserted b leaf lt is = (lt, tt, tt)
  Below-inserted b (branch q l x r) lt (here, left, right) = elim (Bool-cases (x == item)) [
    | inl same ↦ rw same (here, left, right)
    | inr other ↦ elim (Bool-cases (ltb item x)) [
      | inl less ↦ rw (other, less) (here, Below-inserted b l lt left, right)
      | inr not_less ↦ rw (other, not_less) (here, left, Below-inserted b r lt right)
    ]
  ]

  pub Above-inserted : (b : ℕ) (t : Tree) → b < item → Above b t → Above b (inserted addr item t)
  unfolding inserted
  Above-inserted b leaf lt is = (lt, tt, tt)
  Above-inserted b (branch q l x r) lt (here, left, right) = elim (Bool-cases (x == item)) [
    | inl same ↦ rw same (here, left, right)
    | inr other ↦ elim (Bool-cases (ltb item x)) [
      | inl less ↦ rw (other, less) (here, Above-inserted b l lt left, right)
      | inr not_less ↦ rw (other, not_less) (here, left, Above-inserted b r lt right)
    ]
  ]

  pub Ordered-inserted : (t : Tree) → Ordered t → Ordered (inserted addr item t)
  unfolding inserted
  Ordered-inserted leaf is = (tt, tt, tt, tt)
  Ordered-inserted (branch q l x r) (below, above, left, right) = elim (Bool-cases (x == item)) [
    | inl same ↦ rw same (below, above, left, right)
    | inr other ↦ elim (Bool-cases (ltb item x)) [
      | inl less ↦
          rw (other, less)
            (Below-inserted x l (ground arith) below, above, Ordered-inserted l left, right)
      | inr not_less ↦
          rw (other, not_less)
            (below, Above-inserted x r (ground arith) above, left, Ordered-inserted r right)
    ]
  ]

  -- The addresses of the tree then are those from before and the new one.
  pub In-inserted : (a : ℕ) (t : Tree) → In a (inserted addr item t) → (a ≡ addr) ⊎ In a t
  unfolding inserted
  In-inserted a leaf (inl e) = inl e
  In-inserted a leaf (inr (inl i)) = absurd i
  In-inserted a leaf (inr (inr i)) = absurd i
  In-inserted a (branch q l x r) i = elim (Bool-cases (x == item)) [
    | inl same ↦ inr (rw same at i)
    | inr other ↦ elim (Bool-cases (ltb item x)) [
      | inl less ↦ moved_left a q l r (In-inserted a l) (rw (other, less) at i)
      | inr not_less ↦ moved_right a q l r (In-inserted a r) (rw (other, not_less) at i)
    ]
  ]

  pub Distinct-inserted :
      (t : Tree) → (In addr t → ⊥) → Distinct t → Distinct (inserted addr item t)
  unfolding inserted
  Distinct-inserted leaf away is = ((λ i. i), (λ i. i), (λ a i j. i), tt, tt)
  Distinct-inserted (branch q l x r) away (here_l, here_r, apart, left, right) =
      let ne : q ≢ addr = λ e. away (inl (sym e)) in
      elim (Bool-cases (x == item)) [
        | inl same ↦ rw same (here_l, here_r, apart, left, right)
        | inr other ↦ elim (Bool-cases (ltb item x)) [
          | inl less ↦
              rw (other, less)
                (
                  (λ i. either (In-inserted q l i) ne here_l),
                  here_r,
                  (λ a i j.
                      either (In-inserted a l i)
                        (λ e. away (inr (inr (subst (λ (b : ℕ). In b r) e j)))) (λ k. apart a k j)),
                  Distinct-inserted l (λ i. away (inr (inl i))) left,
                  right,
                )
          | inr not_less ↦
              rw (other, not_less)
                (
                  here_l,
                  (λ i. either (In-inserted q r i) ne here_r),
                  (λ a i j.
                      either (In-inserted a r j)
                        (λ e. away (inr (inl (subst (λ (b : ℕ). In b l) e i)))) (λ k. apart a i k)),
                  left,
                  Distinct-inserted r (λ i. away (inr (inr i))) right,
                )
        ]
      ]

  -- The items are those from before and the new one.
  pub has_item-inserted :
      (b : ℕ) (t : Tree)
      → has_item b (inserted addr item t) ≡ (if item == b then true else has_item b t)
  unfolding has_item inserted
  has_item-inserted b leaf = refl
  has_item-inserted b (branch q l x r) = elim (Bool-cases (x == item)) [
    | inl same ↦ elim (Bool-cases (item == b)) [
      | inl here ↦ let found : (x == b) ≡ true = ground arith in rw (same, here, found) refl
      | inr differs ↦ rw (same, differs) refl
    ]
    | inr other ↦ elim (Bool-cases (item == b)) [
      | inl here ↦
          let differs : (x == b) ≡ false = ground arith in
          elim (Bool-cases (ltb item x)) [
            | inl less ↦ rw (other, less, differs, has_item-inserted b l, here) refl
            | inr not_less ↦
                rw (other, not_less, differs, has_item-inserted b r, here)
                  (either_true (has_item b l))
          ]
      | inr differs ↦ elim (Bool-cases (ltb item x)) [
        | inl less ↦ rw (other, less, has_item-inserted b l, differs) refl
        | inr not_less ↦ rw (other, not_less, has_item-inserted b r, differs) refl
      ]
    ]
  ]
