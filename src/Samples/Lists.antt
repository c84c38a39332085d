-- ===== src/Samples/Lists.antt =====
-- A list of two nodes and a stack of one.
use vcmalloc_bench.Base.{
  ℕ, ◌≡◌, refl, arith, Bool, true, false, leb, Option, some, none, List, [], ◌∷◌, ◌==◌,
  if◌then◌else◌,
}
use vcmalloc_bench.Machine.Run.{ok, pure, ◌>>=◌, ◌>>◌}
use vcmalloc_bench.Machine.Returns.{Returns, returns}
use vcmalloc_bench.LinkedList.{LinkedListNodeType, Store, destroy_list}
use vcmalloc_bench.LinkedList.Unordered.{search, insert_last, delete_node}
use vcmalloc_bench.LinkedList.Segment.{IsList}
use vcmalloc_bench.LinkedList.Insert.{insert_last-IsList}
use vcmalloc_bench.LinkedList.Find.{holds, search-holds, Destroyed, destroy_list-Destroyed}
use vcmalloc_bench.LinkedList.Remove.{Removed, delete_node-Removed}
use vcmalloc_bench.LinkedList.Ordered.{insert}
use vcmalloc_bench.LinkedList.Enter.{Entered, insert-Entered}
use vcmalloc_bench.ListStack.{pop_first, top_item}
use vcmalloc_bench.LinkedStack.{LinkedStackType, push, top, pop}
use vcmalloc_bench.LinkedStack.Laws.{IsStack, push-top-pop}

abbrev pub two_nodes : ℕ → Option (LinkedListNodeType ℕ)
two_nodes a =
    if a == 16
    then some (record { info = 7; link = 32 })
    else if a == 32
    then some (record { info = 9; link = 0 })
    else none

abbrev pub pair : List (ℕ × ℕ)
pair = (16, 7) ∷ (32, 9) ∷ []

abbrev store : Store ℕ
store = record { nodes = two_nodes; list = record { first = 16; last = 32; count = 2 } }

pub store-IsList : IsList store pair
store-IsList = record {
  chain = (refl, (λ e. omega (arith, e)), 32, refl, (refl, (λ e. omega (arith, e)), 0, refl, refl));
  distinct = (((λ e. omega (arith, e)), tt), (tt, tt));
  last = refl;
  count = refl;
}

last_example : Returns (λ _ s. IsList s ((16, 7) ∷ (32, 9) ∷ (48, 5) ∷ [])) (insert_last 5 48 store)
last_example =
    insert_last-IsList 5 48 (λ e. omega (arith, e)) store pair store-IsList
      ((λ e. omega (arith, e)), ((λ e. omega (arith, e)), tt)) (omega arith)

find_example : search (λ x y. x == y) 3 9 store ≡ ok (holds (λ x y. x == y) pair 9) store
find_example = search-holds store (λ x y. x == y) 9 pair store-IsList

destroy_example : Returns (λ _ s. IsList s [] × Destroyed pair store s) (destroy_list 3 store)
destroy_example = destroy_list-Destroyed pair store store-IsList

-- The second node is deleted.
remove_example :
    Returns (λ _ s. Removed (λ x y. x == y) 9 store pair s) (delete_node (λ x y. x == y) 3 9 store)
remove_example = delete_node-Removed (λ x y. x == y) 9 store pair 3 (omega arith) store-IsList

abbrev not_below : ℕ → ℕ → Bool
not_below x y = leb y x

not_below-total : (x y : ℕ) → not_below x y ≡ false → not_below y x ≡ true
not_below-total x y e = ground (arith, e)

-- 8 goes between 7 and 9.
enter_example :
    Returns
      (λ _ s. Entered not_below not_below-total 8 48 (λ e. omega (arith, e)) store pair s)
      (insert not_below 3 8 48 store)
enter_example =
    insert-Entered not_below not_below-total 8 48 (λ e. omega (arith, e)) store pair 3 (omega arith)
      store-IsList (refl, tt) ((λ e. omega (arith, e)), ((λ e. omega (arith, e)), tt)) (omega arith)

abbrev stack : LinkedStackType ℕ
stack = record { nodes = two_nodes; stack_top = 16 }

stack_example :
    Returns (λ x s. (x ≡ 5) × IsStack s pair) ((push 5 48 >> (top >>= λ x. pop >> pure x)) stack)
stack_example =
    push-top-pop 5 48 stack pair (λ e. omega (arith, e))
      (record { chain = store-IsList.chain; distinct = store-IsList.distinct })
      ((λ e. omega (arith, e)), ((λ e. omega (arith, e)), tt))

-- A list of two nodes that is used as a stack: after pop it still counts two.
popped_store : Returns (λ x s. (x ≡ 9) × (s.list.count ≡ 2)) ((pop_first >> top_item) store)
unfolding pop_first top_item
popped_store = returns (refl, refl)
