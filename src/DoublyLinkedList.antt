-- ===== src/DoublyLinkedList.antt =====
-- doublyLinkedList of libs_src/data_structures/doublyLinkedList.h, with numbers as items, in ascending
-- order. `operator new` is not part of the repository: the address that it returns is an argument,
-- as in the overload of insert with `addr`.
use vcmalloc_bench.Base.{
  ℕ, zero, suc, ◌+◌, ◌-◌, ◌*◌, Bool, true, false, Option, none, some, List, [], ◌∷◌, ltb, leb, ◌==◌,
  if◌then◌else◌,
}
use vcmalloc_bench.Machine.Run.{ok, fault, out_of_fuel, Cmd, pure, ◌>>=◌, ◌>>◌, get, put}

-- A pointer is the address of a node, 0 for nullptr.
pub record DoublyLinkedListNodeType : Type 0 where
  pub info : ℕ
  pub next : ℕ
  pub back : ℕ

-- The nodes that exist, and the list object that a member function works on. `count` is an int,
-- which is never negative here; more than 2 ^ 31 - 1 is undefined.
pub record DoublyLinkedList : Type 0 where
  pub nodes : ℕ → Option DoublyLinkedListNodeType
  pub count : ℕ
  pub first : ℕ
  pub last : ℕ

-- `*p`, undefined where there is no node.
abbrev pub load_item : ℕ → Cmd DoublyLinkedList DoublyLinkedListNodeType
load_item p s = elim (s.nodes p) [ none ↦ fault | some node ↦ ok node s ]

abbrev pub store_item : ℕ → DoublyLinkedListNodeType → Cmd DoublyLinkedList (Unit {0})
store_item p node s = ok tt (record s { nodes = λ q. if q == p then some node else s.nodes q })

-- `delete p`
abbrev pub delete_item : ℕ → Cmd DoublyLinkedList (Unit {0})
delete_item p = do
  node ← load_item p
  s ← get
  put (record s { nodes = λ q. if q == p then none else s.nodes q })

-- `p->next = q` and `p->back = q`
abbrev pub set_next : (p q : ℕ) → Cmd DoublyLinkedList (Unit {0})
set_next p q = do node ← load_item p; store_item p (record node { next = q })

abbrev pub set_back : (p q : ℕ) → Cmd DoublyLinkedList (Unit {0})
set_back p q = do node ← load_item p; store_item p (record node { back = q })

abbrev pub set_first : ℕ → Cmd DoublyLinkedList (Unit {0})
set_first p s = ok tt (record s { first = p })

abbrev pub set_last : ℕ → Cmd DoublyLinkedList (Unit {0})
set_last p s = ok tt (record s { last = p })

abbrev pub set_count : (ℕ → ℕ) → Cmd DoublyLinkedList (Unit {0})
set_count f s = ok tt (record s { count = f s.count })

-- `count++`, in the arithmetic of int.
abbrev pub raise_count : Cmd DoublyLinkedList (Unit {0})
raise_count s =
    if ltb (s.count + 1) 0x8000_0000 then ok tt (record s { count = s.count + 1 }) else fault

unfoldable pub is_empty_doubly : DoublyLinkedList → Bool
is_empty_doubly s = s.first == 0

unfoldable pub doubly_length : DoublyLinkedList → ℕ
doubly_length s = s.count

-- The loop of `destroy`.
unfoldable pub destroy_items : (fuel : ℕ) → Cmd DoublyLinkedList (Unit {0})
destroy_items zero s = out_of_fuel
destroy_items (suc fuel) s =
    if s.first == 0
    then ok tt s
    else (do node ← load_item s.first; set_first node.next; delete_item s.first; destroy_items fuel)
        s

-- `destroy` and `initializeList`
unfoldable pub destroy_doubly : (fuel : ℕ) → Cmd DoublyLinkedList (Unit {0})
unfolding destroy_items
destroy_doubly fuel = do destroy_items fuel; set_last 0; set_count (λ n. 0)

-- The items that `print` shows.
unfoldable pub print_from : (fuel current : ℕ) → Cmd DoublyLinkedList (List ℕ)
print_from zero current s = out_of_fuel
print_from (suc fuel) current s =
    if current == 0
    then ok [] s
    else (do node ← load_item current; rest ← print_from fuel node.next; pure (node.info ∷ rest)) s

-- The items that `reversePrint` shows.
unfoldable pub reverse_print_from : (fuel current : ℕ) → Cmd DoublyLinkedList (List ℕ)
reverse_print_from zero current s = out_of_fuel
reverse_print_from (suc fuel) current s =
    if current == 0
    then ok [] s
    else (do
      node ← load_item current
      rest ← reverse_print_from fuel node.back
      pure (node.info ∷ rest))
        s

-- The loop of `search`.
unfoldable pub search_doubly_from : (fuel current item : ℕ) → Cmd DoublyLinkedList Bool
search_doubly_from zero current item s = out_of_fuel
search_doubly_from (suc fuel) current item s =
    if current == 0
    then ok false s
    else (do
      node ← load_item current
      if node.info == item then pure true else search_doubly_from fuel node.next item)
        s

unfoldable pub search_doubly : (fuel item : ℕ) → Cmd DoublyLinkedList Bool
unfolding search_doubly_from
search_doubly fuel item s = search_doubly_from fuel s.first item s

-- `assert(first != nullptr)` ends the program, which is a fault here.
unfoldable pub doubly_front : Cmd DoublyLinkedList ℕ
doubly_front s = if s.first == 0 then fault else (do node ← load_item s.first; pure node.info) s

unfoldable pub doubly_back : Cmd DoublyLinkedList ℕ
doubly_back s = if s.last == 0 then fault else (do node ← load_item s.last; pure node.info) s

-- The loop of `insert`: the first node that is not below the item, 0 if there is none, and the
-- node before it.
unfoldable pub place_from : (fuel current trail item : ℕ) → Cmd DoublyLinkedList (ℕ × ℕ)
place_from zero current trail item s = out_of_fuel
place_from (suc fuel) current trail item s =
    if current == 0
    then ok (current, trail) s
    else (do
      node ← load_item current
      if leb item node.info then pure (current, trail) else place_from fuel node.next current item)
        s

-- The links of the new node, at the place that was found.
unfoldable pub link_in : (addr current trail : ℕ) → Cmd DoublyLinkedList (Unit {0})
link_in addr current trail = do
  s ← get
  if current == s.first
      then (do set_back s.first addr; set_next addr s.first; set_first addr)
      else if current == 0
      then (do set_next trail addr; set_back addr trail; set_last addr)
      else (do
        set_next trail addr
        set_back addr trail
        set_next addr current
        set_back current addr)
  raise_count

-- Both overloads of `insert`, and `perTypeAppend`.
unfoldable pub insert_doubly : (fuel item addr : ℕ) → Cmd DoublyLinkedList (Unit {0})
unfolding place_from link_in
insert_doubly fuel item addr = do
  store_item addr (record { info = item; next = 0; back = 0 })
  s ← get
  if s.first == 0
      then (do set_first addr; set_last addr; raise_count)
      else (do (current, trail) ← place_from fuel s.first 0 item; link_in addr current trail)

-- The first branch of `deleteNode`.
unfoldable pub delete_first_item : Cmd DoublyLinkedList (Unit {0})
delete_first_item = do
  s ← get
  node ← load_item s.first
  set_first node.next
  if node.next == 0 then set_last 0 else set_back node.next 0
  set_count (λ n. n - 1)
  delete_item s.first

-- The links around a node that is not the first one, and its end.
unfoldable pub unlink_item : ℕ → Cmd DoublyLinkedList (Unit {0})
unlink_item current = do
  node ← load_item current
  set_next node.back node.next
  (if node.next == 0 then pure tt else set_back node.next node.back)
  s ← get
  (if current == s.last then set_last node.back else pure tt)
  set_count (λ n. n - 1)
  delete_item current

-- `deleteNode`; its messages are left out.
unfoldable pub delete_doubly : (fuel item : ℕ) → Cmd DoublyLinkedList (Unit {0})
unfolding place_from delete_first_item unlink_item
delete_doubly fuel item = do
  s ← get
  if s.first == 0 then pure tt else (do
    head ← load_item s.first
    if head.info == item then delete_first_item else (do
      (current, trail) ← place_from fuel s.first 0 item
      if current == 0 then pure tt else (do
        node ← load_item current
        if node.info == item then unlink_item current else pure tt)))

-- The loop of `update`: `rounds` nodes of an array, `width` bytes apart, from index `i` on.
unfoldable pub relink_items : (width addr rounds i : ℕ) → Cmd DoublyLinkedList (Unit {0})
relink_items width addr zero i = pure tt
relink_items width addr (suc rounds) i = do
  set_back (addr + i * width) (addr + i * width - width)
  set_next (addr + i * width) (addr + i * width + width)
  relink_items width addr rounds (i + 1)

-- `update(addr)`, for nodes of `width` bytes that stand in an array.
unfoldable pub update_doubly : (width addr : ℕ) → Cmd DoublyLinkedList (Unit {0})
unfolding relink_items
update_doubly width addr = do
  set_first addr
  set_next addr (addr + width)
  s ← get
  set_last (addr + s.count * width)
  last ← load_item (addr + s.count * width)
  set_back (addr + s.count * width) (last.back - width)
  relink_items width addr (s.count - 2) 1
