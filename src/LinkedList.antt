-- ===== src/LinkedList.antt =====
-- The linked lists of libs_src/data_structures/linkedList.h: nodes that point to one another, and
-- an object with the first node, the last node and a count. `operator new` is not part of the
-- repository: the address that it returns is an argument, as in the overloads that take `addr`.
pub mod Unordered
pub mod Ordered
pub mod Copy
pub mod Segment
pub mod Insert
pub mod Find
pub mod Without
pub mod Remove
pub mod Placed
pub mod Enter
use vcmalloc_bench.Base.{
  ℕ, zero, suc, ◌+◌, Bool, true, false, Option, none, some, List, [], ◌∷◌, not, ltb, ◌==◌,
  if◌then◌else◌,
}
use vcmalloc_bench.Machine.Run.{
  Run, ok, fault, out_of_fuel, Cmd, pure, ◌>>=◌, ◌>>◌, get, put, failed,
}

-- A pointer is the address of a node, 0 for nullptr.
pub record LinkedListNodeType (A : Type 0) : Type 0 where
  pub info : A
  pub link : ℕ

-- `_count` is an int, which is never negative here; more than 2 ^ 31 - 1 is undefined.
pub record LinkedListType : Type 0 where
  pub first : ℕ
  pub last : ℕ
  pub count : ℕ

-- The nodes that exist, and the list object that a member function works on.
pub record Store (A : Type 0) : Type 0 where
  pub nodes : ℕ → Option (LinkedListNodeType A)
  pub list : LinkedListType

-- The nodes with the one at an address set.
abbrev pub set_node :
    {A : Type 0}
    → (ℕ → Option (LinkedListNodeType A))
    → ℕ
    → Option (LinkedListNodeType A)
    → ℕ
    → Option (LinkedListNodeType A)
set_node nodes p node q = if q == p then node else nodes q

-- The default constructor, and what `initializeList` comes to.
abbrev pub empty_list : LinkedListType
empty_list = record { first = 0; last = 0; count = 0 }

module _ {A : Type 0} where
  -- `*p`, undefined where there is no node.
  abbrev pub load : ℕ → Cmd (Store A) (LinkedListNodeType A)
  load p s = elim (s.nodes p) [ none ↦ fault | some node ↦ ok node s ]

  abbrev pub write_node : ℕ → LinkedListNodeType A → Cmd (Store A) (Unit {0})
  write_node p node s = ok tt (record s { nodes = set_node s.nodes p (some node) })

  abbrev pub set_list : LinkedListType → Cmd (Store A) (Unit {0})
  set_list l s = ok tt (record s { list = l })

  -- The value of `_count++`, in the arithmetic of int.
  abbrev pub raised : ℕ → Cmd (Store A) ℕ
  raised n = if ltb (n + 1) 0x8000_0000 then pure (n + 1) else failed

  -- `delete p`
  abbrev pub delete : ℕ → Cmd (Store A) (Unit {0})
  delete p = do node ← load p; s ← get; put (record s { nodes = set_node s.nodes p none })

  unfoldable pub is_empty_list : Store A → Bool
  is_empty_list s = s.list.first == 0

  unfoldable pub list_length : Store A → ℕ
  list_length s = s.list.count

  -- `assert(first != nullptr)` ends the program, which is a fault here.
  unfoldable pub front : Cmd (Store A) A
  front s = if s.list.first == 0 then fault else (do node ← load s.list.first; pure node.info) s

  unfoldable pub back : Cmd (Store A) A
  back s = if s.list.last == 0 then fault else (do node ← load s.list.last; pure node.info) s

  -- The loop of `destroyList`.
  unfoldable pub destroy_nodes : (fuel : ℕ) → Cmd (Store A) (Unit {0})
  destroy_nodes zero s = out_of_fuel
  destroy_nodes (suc fuel) s =
      if s.list.first == 0
      then ok tt s
      else (do
        node ← load s.list.first
        set_list (record s.list { first = node.link })
        delete s.list.first
        destroy_nodes fuel)
          s

  unfoldable pub destroy_list : (fuel : ℕ) → Cmd (Store A) (Unit {0})
  unfolding destroy_nodes
  destroy_list fuel = do
    destroy_nodes fuel
    s ← get
    set_list (record s.list { last = 0; count = 0 })

  -- The items that `print` shows: `n` nodes from a pointer on.
  unfoldable pub printed : (n current : ℕ) → Cmd (Store A) (List A)
  printed zero current = pure []
  printed (suc n) current = do
    node ← load current
    rest ← printed n node.link
    pure (node.info ∷ rest)

  unfoldable pub print : Cmd (Store A) (List A)
  unfolding printed
  print s = printed s.list.count s.list.first s

  -- The loop of `search`, which the list classes share.
  unfoldable pub search_from : (A → A → Bool) → (fuel current : ℕ) → A → Cmd (Store A) Bool
  search_from eq zero current item = λ s. out_of_fuel
  search_from eq (suc fuel) current item = if current == 0 then pure false else (do
    node ← load current
    if eq node.info item then pure true else search_from eq fuel node.link item)

-- The iterator is a pointer.
pub record LinkedListIterator : Type 0 where
  pub current : ℕ

abbrev pub end : LinkedListIterator
end = record { current = 0 }

-- `==` of iterators; `!=` is its negation.
abbrev pub same : LinkedListIterator → LinkedListIterator → Bool
same left right = left.current == right.current

module _ {A : Type 0} where
  abbrev pub begin : Store A → LinkedListIterator
  begin s = record { current = s.list.first }

  unfoldable pub item_at : LinkedListIterator → Cmd (Store A) A
  item_at it = do node ← load it.current; pure node.info

  unfoldable pub next : LinkedListIterator → Cmd (Store A) LinkedListIterator
  next it = do node ← load it.current; pure (record { current = node.link })
