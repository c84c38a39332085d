-- ===== src/ListStack.antt =====
-- stackUnorderedLinkedList of libs_src/data_structures/stackUnorderedLinkedList.h: a stack that is an
-- unordered linked list, with the top first.
use vcmalloc_bench.Base.{ℕ, Bool, false}
use vcmalloc_bench.Machine.Run.{Cmd, ◌>>=◌, ◌>>◌, get}
use vcmalloc_bench.LinkedList.{Store, load, set_list, delete, destroy_list, is_empty_list, front}
use vcmalloc_bench.LinkedList.Unordered.{insert_first}

module _ {A : Type 0} where
  -- `initializeStack`, which calls `initializeList`.
  unfoldable pub initialize_list_stack : (fuel : ℕ) → Cmd (Store A) (Unit {0})
  initialize_list_stack = destroy_list

  unfoldable pub is_empty_list_stack : Store A → Bool
  is_empty_list_stack = is_empty_list

  abbrev pub is_full_list_stack : Store A → Bool
  is_full_list_stack s = false

  -- Both overloads of `push`, and `perTypeAppend`.
  unfoldable pub push_first : A → (addr : ℕ) → Cmd (Store A) (Unit {0})
  unfolding insert_first
  push_first = insert_first

  unfoldable pub top_item : Cmd (Store A) A
  unfolding front
  top_item = front

  -- `pop`: neither the count nor the last pointer is touched.
  unfoldable pub pop_first : Cmd (Store A) (Unit {0})
  pop_first = do
    s ← get
    node ← load s.list.first
    set_list (record s.list { first = node.link })
    delete s.list.first
