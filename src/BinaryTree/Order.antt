-- ===== src/BinaryTree/Order.antt =====
-- The inorder traversal of an object of binaryTreeType whose nodes spell an ordered tree.
use vcmalloc_bench.Base.{
  ℕ, ◌<◌, ◌≡◌, refl, ap, ◌∙◌, arith, Bool, true, false, List, [], ◌∷◌, ◌++◌, ◌==◌, if◌then◌else◌,
  inl, inr, Bool-cases,
}
use vcmalloc_bench.Machine.Returns.{Returns, returns}
use vcmalloc_bench.BinaryTree.{BinaryTreeType, inorder}
use vcmalloc_bench.BinaryTree.Shape.{
  Tree, leaf, branch, address, depth, IsTree, Below, Above, Ordered, has_item,
}
use vcmalloc_bench.BinaryTree.Walk.{items, inorder-items}

abbrev AllBelow : ℕ → List ℕ → Type 0
AllBelow b [] = Unit
AllBelow b (x ∷ xs) = (x < b) × AllBelow b xs

abbrev AllAbove : ℕ → List ℕ → Type 0
AllAbove b [] = Unit
AllAbove b (x ∷ xs) = (b < x) × AllAbove b xs

abbrev pub Ascending : List ℕ → Type 0
Ascending [] = Unit
Ascending (x ∷ xs) = AllAbove x xs × Ascending xs

abbrev pub is_member : ℕ → List ℕ → Bool
is_member b [] = false
is_member b (x ∷ xs) = if x == b then true else is_member b xs

AllBelow-append : (b : ℕ) (xs ys : List ℕ) → AllBelow b xs → AllBelow b ys → AllBelow b (xs ++ ys)
AllBelow-append b [] ys is js = js
AllBelow-append b (x ∷ xs) ys (lt, is) js = (lt, AllBelow-append b xs ys is js)

AllAbove-append : (b : ℕ) (xs ys : List ℕ) → AllAbove b xs → AllAbove b ys → AllAbove b (xs ++ ys)
AllAbove-append b [] ys is js = js
AllAbove-append b (x ∷ xs) ys (lt, is) js = (lt, AllAbove-append b xs ys is js)

AllAbove-weaken : (b c : ℕ) (xs : List ℕ) → b < c → AllAbove c xs → AllAbove b xs
AllAbove-weaken b c [] lt is = tt
AllAbove-weaken b c (x ∷ xs) lt (here, is) = (omega arith, AllAbove-weaken b c xs lt is)

-- Ascending items below a pivot, the pivot, and ascending items above it.
Ascending-append :
    (p : ℕ) (xs ys : List ℕ)
    → Ascending xs
    → AllBelow p xs
    → Ascending ys
    → AllAbove p ys
    → Ascending (xs ++ p ∷ ys)
Ascending-append p [] ys is below js above = (above, js)
Ascending-append p (x ∷ xs) ys (front, is) (lt, below) js above = (
  AllAbove-append x xs (p ∷ ys) front (lt, AllAbove-weaken x p ys lt above),
  Ascending-append p xs ys is below js above,
)

Below-items : (b : ℕ) (t : Tree) → Below b t → AllBelow b (items t)
Below-items b leaf is = tt
Below-items b (branch q l x r) (here, left, right) =
    AllBelow-append b (items l) (x ∷ items r) (Below-items b l left) (here, Below-items b r right)

Above-items : (b : ℕ) (t : Tree) → Above b t → AllAbove b (items t)
Above-items b leaf is = tt
Above-items b (branch q l x r) (here, left, right) =
    AllAbove-append b (items l) (x ∷ items r) (Above-items b l left) (here, Above-items b r right)

items-Ascending : (t : Tree) → Ordered t → Ascending (items t)
items-Ascending leaf is = tt
items-Ascending (branch q l x r) (below, above, left, right) =
    Ascending-append x (items l) (items r) (items-Ascending l left) (Below-items x l below)
      (items-Ascending r right) (Above-items x r above)

is_member-append :
    (b x : ℕ) (xs ys : List ℕ)
    → is_member b (xs ++ x ∷ ys)
      ≡ (if x == b then true else if is_member b xs then true else is_member b ys)
is_member-append b x [] ys = refl
is_member-append b x (z ∷ xs) ys = elim (Bool-cases (z == b)) [
  | inl here ↦ elim (Bool-cases (x == b)) [
    | inl same ↦ rw (here, same) refl
    | inr other ↦ rw (here, other) refl
  ]
  | inr differs ↦ rw differs (is_member-append b x xs ys)
]

is_member-items : (b : ℕ) (t : Tree) → is_member b (items t) ≡ has_item b t
unfolding has_item
is_member-items b leaf = refl
is_member-items b (branch q l x r) =
    rw (is_member-append b x (items l) (items r), is_member-items b l, is_member-items b r) refl

-- On an object of binaryTreeType whose nodes from its root spell an ordered tree, with more fuel
-- than there are nodes, the inorder traversal shows exactly the items of the tree in ascending
-- order, and changes nothing.
pub inorder-Ascending :
    (s : BinaryTreeType) (fuel : ℕ) (t : Tree)
    → depth t < fuel
    → s.root ≡ address t
    → IsTree s.nodes t
    → Ordered t
    → Returns
        (λ xs s'. (s' ≡ s) × Ascending xs × ((b : ℕ) → is_member b xs ≡ has_item b t))
        (inorder fuel s.root s)
inorder-Ascending s fuel t lt rooted shape ordered =
    rw (ap (λ (p : ℕ). inorder fuel p s) rooted ∙ inorder-items s fuel t lt shape)
      (returns (refl, items-Ascending t ordered, λ b. is_member-items b t))
