-- ===== src/LinkedList/Ordered.antt =====
-- orderedLinkedList of libs_src/data_structures/orderedLinkedList.h.
use vcmalloc_bench.Base.{ℕ, zero, suc, ◌-◌, Bool, ◌==◌, if◌then◌else◌}
use vcmalloc_bench.Machine.Run.{out_of_fuel, Cmd, pure, ◌>>=◌, ◌>>◌, get}
use vcmalloc_bench.LinkedList.{
  LinkedListNodeType, Store, load, write_node, set_list, raised, delete, search_from,
}

module _ {A : Type 0} where
  unfoldable pub search : (A → A → Bool) → (fuel : ℕ) → A → Cmd (Store A) Bool
  search eq fuel item s = search_from eq fuel s.list.first item s

  -- The loop of `insert` and `deleteNode`: the first node whose item is not below, and the node
  -- before it. `ge` is operator>=.
  unfoldable pub position : (A → A → Bool) → (fuel trail current : ℕ) → A → Cmd (Store A) (ℕ × ℕ)
  position ge zero trail current item = λ s. out_of_fuel
  position ge (suc fuel) trail current item = if current == 0 then pure (trail, current) else (do
    node ← load current
    if ge node.info item then pure (trail, current) else position ge fuel current node.link item)

  -- Both overloads of `insert`, and `insertFirst`, `insertLast` and `perTypeAppend`.
  unfoldable pub insert : (A → A → Bool) → (fuel : ℕ) → A → (addr : ℕ) → Cmd (Store A) (Unit {0})
  unfolding position
  insert ge fuel item addr = do
    s ← get
    let l = s.list
    write_node addr (record { info = item; link = 0 })
    if l.first == 0
        then (do
          count ← raised l.count
          set_list (record { first = addr; last = addr; count = count }))
        else (do
          (trail, current) ← position ge fuel 0 l.first item
          if current == l.first
              then (do
                write_node addr (record { info = item; link = l.first })
                count ← raised l.count
                set_list (record l { first = addr; count = count }))
              else (do
                before ← load trail
                write_node trail (record before { link = addr })
                write_node addr (record { info = item; link = current })
                count ← raised l.count
                set_list
                    (record l { last = if current == 0 then addr else l.last; count = count })))

  -- The node at `current`, behind `trail`, is taken out and deleted.
  unfoldable pub take_out : (trail current : ℕ) → LinkedListNodeType A → Cmd (Store A) (Unit {0})
  take_out trail current node = do
    s ← get
    let l = s.list
    if l.first == current
        then (do
          set_list (record {
            first = node.link;
            last = if node.link == 0 then 0 else l.last;
            count = l.count - 1;
          })
          delete current)
        else (do
          before ← load trail
          write_node trail (record before { link = node.link })
          set_list
              (record l { last = if current == l.last then trail else l.last; count = l.count - 1 })
          delete current)

  -- `deleteNode`; its messages on standard output are left out.
  unfoldable pub delete_node : (ge eq : A → A → Bool) → (fuel : ℕ) → A → Cmd (Store A) (Unit {0})
  unfolding position take_out
  delete_node ge eq fuel item = do
    s ← get
    if s.list.first == 0 then pure tt else (do
      (trail, current) ← position ge fuel 0 s.list.first item
      if current == 0 then pure tt else (do
        node ← load current
        if eq node.info item then take_out trail current node else pure tt))
