-- ===== src/LinkedStack.antt =====
-- linkedStackType of libs_src/data_structures/linkedStack.h, which implements stackADT of stack.h.
-- Its nodes have the two fields of the nodes of the linked lists. `operator new` is not part of the
-- repository: the address that it returns is an argument, as in the overload of push with `addr`.
pub mod Laws
use vcmalloc_bench.Base.{
  ℕ, zero, suc, Bool, true, false, Option, none, some, List, [], ◌∷◌, ◌==◌, if◌then◌else◌,
}
use vcmalloc_bench.Machine.Run.{Run, ok, fault, out_of_fuel, Cmd, pure, ◌>>=◌, ◌>>◌, get, put}
use vcmalloc_bench.LinkedList.{LinkedListNodeType, set_node}

pub record LinkedStackType (A : Type 0) : Type 0 where
  pub nodes : ℕ → Option (LinkedListNodeType A)
  pub stack_top : ℕ

module _ {A : Type 0} where
  -- `*p`, undefined where there is no node.
  abbrev pub load_node : ℕ → Cmd (LinkedStackType A) (LinkedListNodeType A)
  load_node p s = elim (s.nodes p) [ none ↦ fault | some node ↦ ok node s ]

  abbrev pub store_node : ℕ → LinkedListNodeType A → Cmd (LinkedStackType A) (Unit {0})
  store_node p node s = ok tt (record s { nodes = set_node s.nodes p (some node) })

  abbrev pub set_top : ℕ → Cmd (LinkedStackType A) (Unit {0})
  set_top p s = ok tt (record s { stack_top = p })

  -- `delete p`
  abbrev pub delete_at : ℕ → Cmd (LinkedStackType A) (Unit {0})
  delete_at p = do node ← load_node p; s ← get; put (record s { nodes = set_node s.nodes p none })

  unfoldable pub is_empty_stack : LinkedStackType A → Bool
  is_empty_stack s = s.stack_top == 0

  abbrev pub is_full_stack : LinkedStackType A → Bool
  is_full_stack s = false

  -- `initializeStack`, which is the destructor too.
  unfoldable pub initialize_stack : (fuel : ℕ) → Cmd (LinkedStackType A) (Unit {0})
  initialize_stack zero s = out_of_fuel
  initialize_stack (suc fuel) s =
      if s.stack_top == 0
      then ok tt s
      else (do
        node ← load_node s.stack_top
        set_top node.link
        delete_at s.stack_top
        initialize_stack fuel)
          s

  -- Both overloads of `push`, and `perTypeAppend`.
  unfoldable pub push : A → (addr : ℕ) → Cmd (LinkedStackType A) (Unit {0})
  push item addr = do
    s ← get
    store_node addr (record { info = item; link = s.stack_top })
    set_top addr

  -- `assert(stackTop != nullptr)` ends the program, which is a fault here.
  unfoldable pub top : Cmd (LinkedStackType A) A
  top s = if s.stack_top == 0 then fault else (do node ← load_node s.stack_top; pure node.info) s

  -- `pop`; its message on standard output is left out.
  unfoldable pub pop : Cmd (LinkedStackType A) (Unit {0})
  pop s =
      if s.stack_top == 0
      then ok tt s
      else (do node ← load_node s.stack_top; set_top node.link; delete_at s.stack_top) s

  -- The loop of `search`.
  unfoldable pub search_stack_from :
      (A → A → Bool) → (fuel current : ℕ) → A → Cmd (LinkedStackType A) Bool
  search_stack_from eq zero current item s = out_of_fuel
  search_stack_from eq (suc fuel) current item s =
      if current == 0
      then ok false s
      else (do
        node ← load_node current
        if eq node.info item then pure true else search_stack_from eq fuel node.link item)
          s

  unfoldable pub search_stack : (A → A → Bool) → (fuel : ℕ) → A → Cmd (LinkedStackType A) Bool
  unfolding search_stack_from
  search_stack eq fuel item s = search_stack_from eq fuel s.stack_top item s

  -- The loop of `copyStack`, with the addresses of the new nodes: the node at `current` is copied
  -- behind the node `last`. Without an address the fuel is out.
  unfoldable pub copy_behind :
      (addresses : List ℕ) → (last current : ℕ) → Cmd (LinkedStackType A) (Unit {0})
  copy_behind [] last current s = if current == 0 then ok tt s else out_of_fuel
  copy_behind (addr ∷ addresses) last current s =
      if current == 0
      then ok tt s
      else (do
        node ← load_node current
        store_node addr (record { info = node.info; link = 0 })
        before ← load_node last
        store_node last (record before { link = addr })
        copied ← load_node current
        copy_behind addresses addr copied.link)
          s

  -- The new nodes for the nodes from `other` on.
  unfoldable pub copy_from : (addresses : List ℕ) → (other : ℕ) → Cmd (LinkedStackType A) (Unit {0})
  unfolding copy_behind
  copy_from [] other s = out_of_fuel
  copy_from (addr ∷ addresses) other s =
      (do
        node ← load_node other
        store_node addr (record { info = node.info; link = 0 })
        set_top addr
        copy_behind addresses addr node.link)
        s

  -- `copyStack(otherStack)`, where `other` is the top of the other stack.
  unfoldable pub copy_stack :
      (fuel : ℕ) → (addresses : List ℕ) → (other : ℕ) → Cmd (LinkedStackType A) (Unit {0})
  unfolding copy_from initialize_stack
  copy_stack fuel addresses other = do
    s ← get
    (if s.stack_top == 0 then pure tt else initialize_stack fuel)
    if other == 0 then set_top 0 else copy_from addresses other
