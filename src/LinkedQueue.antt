-- ===== src/LinkedQueue.antt =====
-- linkedQueueType of libs_src/data_structures/linkedQueue.h. Its nodes have the two fields of the
-- nodes of the linked lists. The address that `operator new` returns is an argument, as in the
-- overload of addQueue with `addr`.
pub mod Laws
use vcmalloc_bench.Base.{ℕ, zero, suc, Bool, true, false, Option, none, some, ◌==◌, if◌then◌else◌}
use vcmalloc_bench.Machine.Run.{Run, ok, fault, out_of_fuel, Cmd, pure, ◌>>=◌, ◌>>◌, get, put}
use vcmalloc_bench.LinkedList.{LinkedListNodeType, set_node}

pub record LinkedQueueType (A : Type 0) : Type 0 where
  pub nodes : ℕ → Option (LinkedListNodeType A)
  pub queue_front : ℕ
  pub queue_rear : ℕ

module _ {A : Type 0} where
  -- `*p`, undefined where there is no node.
  abbrev pub node_at : ℕ → Cmd (LinkedQueueType A) (LinkedListNodeType A)
  node_at p q = elim (q.nodes p) [ none ↦ fault | some node ↦ ok node q ]

  abbrev pub put_node : ℕ → Option (LinkedListNodeType A) → Cmd (LinkedQueueType A) (Unit {0})
  put_node p node q = ok tt (record q { nodes = set_node q.nodes p node })

  unfoldable pub is_empty_queue : LinkedQueueType A → Bool
  is_empty_queue q = q.queue_front == 0

  abbrev pub is_full_queue : LinkedQueueType A → Bool
  is_full_queue q = false

  -- The loop of `search`.
  unfoldable pub search_queue_from :
      (A → A → Bool) → (fuel current : ℕ) → A → Cmd (LinkedQueueType A) Bool
  search_queue_from eq zero current item q = out_of_fuel
  search_queue_from eq (suc fuel) current item q =
      if current == 0
      then ok false q
      else (do
        node ← node_at current
        if eq node.info item then pure true else search_queue_from eq fuel node.link item)
          q

  unfoldable pub search_queue : (A → A → Bool) → (fuel : ℕ) → A → Cmd (LinkedQueueType A) Bool
  unfolding search_queue_from
  search_queue eq fuel item q = search_queue_from eq fuel q.queue_front item q

  -- The loop of `initializeQueue`.
  unfoldable pub drain : (fuel : ℕ) → Cmd (LinkedQueueType A) (Unit {0})
  drain zero q = out_of_fuel
  drain (suc fuel) q =
      if q.queue_front == 0
      then ok tt q
      else (do
        node ← node_at q.queue_front
        put (record q { queue_front = node.link })
        used ← node_at q.queue_front
        put_node q.queue_front none
        drain fuel)
          q

  unfoldable pub initialize_queue : (fuel : ℕ) → Cmd (LinkedQueueType A) (Unit {0})
  unfolding drain
  initialize_queue fuel = do drain fuel; q ← get; put (record q { queue_rear = 0 })

  -- Both overloads of `addQueue`, and `perTypeAppend`.
  unfoldable pub add_queue : A → (addr : ℕ) → Cmd (LinkedQueueType A) (Unit {0})
  add_queue item addr = do
    q ← get
    put_node addr (some (record { info = item; link = 0 }))
    v ← get
    if q.queue_front == 0 then put (record v { queue_front = addr; queue_rear = addr }) else (do
      rear ← node_at q.queue_rear
      put_node q.queue_rear (some (record rear { link = addr }))
      u ← get
      put (record u { queue_rear = addr }))

  -- `assert(queueFront != nullptr)` ends the program, which is a fault here.
  unfoldable pub queue_front_item : Cmd (LinkedQueueType A) A
  queue_front_item q =
      if q.queue_front == 0 then fault else (do node ← node_at q.queue_front; pure node.info) q

  unfoldable pub queue_back_item : Cmd (LinkedQueueType A) A
  queue_back_item q =
      if q.queue_rear == 0 then fault else (do node ← node_at q.queue_rear; pure node.info) q

  -- `deleteQueue`; its message on standard output is left out.
  unfoldable pub delete_queue : Cmd (LinkedQueueType A) (Unit {0})
  delete_queue q =
      if q.queue_front == 0
      then ok tt q
      else (do
        node ← node_at q.queue_front
        put (record q {
          queue_front = node.link;
          queue_rear = if node.link == 0 then 0 else q.queue_rear;
        })
        used ← node_at q.queue_front
        put_node q.queue_front none)
          q
