-- ===== src/LinkedList/Unordered.antt =====
-- unorderedLinkedList of libs_src/data_structures/unorderedLinkedList.h.
use vcmalloc_bench.Base.{ℕ, zero, suc, ◌+◌, ◌-◌, Bool, Option, none, some, ◌==◌, if◌then◌else◌}
use vcmalloc_bench.Machine.Run.{out_of_fuel, Cmd, pure, ◌>>=◌, ◌>>◌, get}
use vcmalloc_bench.LinkedList.{
  LinkedListNodeType, Store, load, write_node, set_list, raised, delete, search_from,
}

module _ {A : Type 0} where
  unfoldable pub search : (A → A → Bool) → (fuel : ℕ) → A → Cmd (Store A) Bool
  search eq fuel item s = search_from eq fuel s.list.first item s

  -- Both overloads of `insertFirst`.
  unfoldable pub insert_first : A → (addr : ℕ) → Cmd (Store A) (Unit {0})
  insert_first item addr = do
    s ← get
    let l = s.list
    write_node addr (record { info = item; link = l.first })
    count ← raised l.count
    set_list (record { first = addr; count = count; last = if l.last == 0 then addr else l.last })

  -- Both overloads of `insertLast`, and `perTypeAppend`.
  unfoldable pub insert_last : A → (addr : ℕ) → Cmd (Store A) (Unit {0})
  insert_last item addr = do
    s ← get
    let l = s.list
    write_node addr (record { info = item; link = 0 })
    if l.first == 0
        then (do
          count ← raised l.count
          set_list (record { first = addr; last = addr; count = count }))
        else (do
          node ← load l.last
          write_node l.last (record node { link = addr })
          count ← raised l.count
          set_list (record { first = l.first; last = addr; count = count }))

  -- The loop of `deleteNode`: the node with the item and the node before it.
  unfoldable pub find_node :
      (A → A → Bool) → (fuel trail current : ℕ) → A → Cmd (Store A) (Option (ℕ × ℕ))
  find_node eq zero trail current item = λ s. out_of_fuel
  find_node eq (suc fuel) trail current item = if current == 0 then pure none else (do
    node ← load current
    if eq node.info item
        then pure (some (trail, current))
        else find_node eq fuel current node.link item)

  -- The item is looked for behind the first node, `first_node`.
  unfoldable pub delete_behind :
      (A → A → Bool) → (fuel : ℕ) → LinkedListNodeType A → A → Cmd (Store A) (Unit {0})
  unfolding find_node
  delete_behind eq fuel first_node item = do
    s ← get
    let l = s.list
    found ← find_node eq fuel l.first first_node.link item
    elim found [
      | none ↦ pure tt
      | some (trail, current) ↦ (do
        node ← load current
        before ← load trail
        write_node trail (record before { link = node.link })
        set_list
            (record l { count = l.count - 1; last = if l.last == current then trail else l.last })
        delete current)
    ]

  -- `deleteNode`; its messages on standard output are left out.
  unfoldable pub delete_node : (A → A → Bool) → (fuel : ℕ) → A → Cmd (Store A) (Unit {0})
  unfolding delete_behind
  delete_node eq fuel item = do
    s ← get
    let l = s.list
    if l.first == 0 then pure tt else (do
      node ← load l.first
      if eq node.info item
          then (do
            set_list (record {
              first = node.link;
              count = l.count - 1;
              last = if node.link == 0 then 0 else l.last;
            })
            delete l.first)
          else delete_behind eq fuel node item)

  -- The loop of `update`: `n` nodes in a row are linked, and the pointer behind them is left.
  unfoldable pub relink : (n seeker size : ℕ) → Cmd (Store A) ℕ
  relink zero seeker size = pure seeker
  relink (suc n) seeker size = do
    node ← load seeker
    write_node seeker (record node { link = seeker + size })
    relink n (seeker + size) size

  -- `update(newHead)`, where `size` is the size of a node.
  unfoldable pub update : (new_head size : ℕ) → Cmd (Store A) (Unit {0})
  unfolding relink
  update new_head size = do
    s ← get
    seeker ← relink s.list.count new_head size
    node ← load seeker
    write_node seeker (record node { link = 0 })
    set_list (record s.list { first = new_head; last = seeker })
