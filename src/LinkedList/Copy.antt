-- ===== src/LinkedList/Copy.antt =====
-- The copy of a list, of libs_src/data_structures/linkedList.h. The new nodes are at the addresses
-- of a list that `operator new` returns one after the other.
use vcmalloc_bench.Base.{ℕ, List, [], ◌∷◌, ◌==◌, if◌then◌else◌}
use vcmalloc_bench.Machine.Run.{out_of_fuel, Cmd, pure, ◌>>=◌, ◌>>◌, get}
use vcmalloc_bench.LinkedList.{LinkedListType, Store, load, write_node, set_list, destroy_list}

module _ {A : Type 0} where
  -- The loop: the node at `current` is copied behind the last node. Without an address the fuel
  -- is out.
  unfoldable pub copy_rest : (addresses : List ℕ) → (current : ℕ) → Cmd (Store A) (Unit {0})
  copy_rest [] current = if current == 0 then pure tt else (λ s. out_of_fuel)
  copy_rest (addr ∷ addresses) current = if current == 0 then pure tt else (do
    node ← load current
    write_node addr (record { info = node.info; link = 0 })
    s ← get
    last ← load s.list.last
    write_node s.list.last (record last { link = addr })
    set_list (record s.list { last = addr })
    copied ← load current
    copy_rest addresses copied.link)

  -- The copy of the nodes of another list.
  unfoldable pub copy_nodes :
      (addresses : List ℕ) → (other : LinkedListType) → Cmd (Store A) (Unit {0})
  unfolding copy_rest
  copy_nodes [] other = λ s. out_of_fuel
  copy_nodes (addr ∷ addresses) other = do
    node ← load other.first
    write_node addr (record { info = node.info; link = 0 })
    set_list (record { first = addr; last = addr; count = other.count })
    copy_rest addresses node.link

  -- `copyList(otherList)`
  unfoldable pub copy_list :
      (fuel : ℕ) → (addresses : List ℕ) → (other : LinkedListType) → Cmd (Store A) (Unit {0})
  unfolding copy_nodes
  copy_list fuel addresses other = do
    s ← get
    (if s.list.first == 0 then pure tt else destroy_list fuel)
    if other.first == 0
        then set_list (record { first = 0; last = 0; count = 0 })
        else copy_nodes addresses other
