-- ===== src/Samples/Queues.antt =====
-- A linked queue of two nodes and a circular array of three cells.
use vcmalloc_bench.Base.{ℕ, zero, suc, ◌+◌, ◌<◌, ◌≡◌, refl, arith, some, none, [], ◌∷◌, get_elem?}
use vcmalloc_bench.Machine.Run.{ok}
use vcmalloc_bench.Machine.Returns.{Returns}
use vcmalloc_bench.LinkedQueue.{LinkedQueueType, add_queue, queue_front_item, delete_queue}
use vcmalloc_bench.LinkedQueue.Laws.{
  IsLinkedQueue, add_queue-IsLinkedQueue, delete_queue-IsLinkedQueue,
}
use vcmalloc_bench.ArrayQueue.{QueueType, enqueue, dequeue, array_front}
use vcmalloc_bench.ArrayQueue.Laws.{wrap, IsQueue, enqueue-IsQueue, dequeue-IsQueue}
use vcmalloc_bench.Samples.Lists.{two_nodes, pair, store-IsList}

abbrev linked : LinkedQueueType ℕ
linked = record { nodes = two_nodes; queue_front = 16; queue_rear = 32 }

linked-IsLinkedQueue : IsLinkedQueue linked pair
linked-IsLinkedQueue = record {
  chain = store-IsList.chain;
  distinct = store-IsList.distinct;
  rear = refl;
}

add_example :
    Returns (λ _ q. IsLinkedQueue q ((16, 7) ∷ (32, 9) ∷ (48, 5) ∷ [])) (add_queue 5 48 linked)
add_example =
    add_queue-IsLinkedQueue 5 48 (λ e. omega (arith, e)) linked pair linked-IsLinkedQueue
      ((λ e. omega (arith, e)), ((λ e. omega (arith, e)), tt))

delete_example :
    (queue_front_item linked ≡ ok 7 linked)
    × Returns (λ _ q. IsLinkedQueue q ((32, 9) ∷ []) × (q.nodes 16 ≡ none)) (delete_queue linked)
delete_example = delete_queue-IsLinkedQueue 16 7 ((32, 9) ∷ []) linked linked-IsLinkedQueue

-- Two items, around the end of the array.
abbrev ring : QueueType ℕ
ring = record {
  max_queue_size = 3;
  count = 2;
  queue_front = 2;
  queue_rear = 0;
  list = 8 ∷ 0 ∷ 7 ∷ [];
}

ring_items : (i : ℕ) → i < 2 → get_elem? ring.list (wrap 3 (2 + i)) ≡ get_elem? (7 ∷ 8 ∷ []) i
ring_items zero h = refl
ring_items (suc zero) h = refl
ring_items (suc (suc i)) h = absurd (omega arith)

ring-IsQueue : IsQueue ring (7 ∷ 8 ∷ [])
ring-IsQueue = record {
  size = refl;
  count = refl;
  fits = omega arith;
  front = omega arith;
  rear = refl;
  items = ring_items;
}

enqueue_example : (q : QueueType ℕ) × (enqueue 9 ring ≡ some q) × IsQueue q (7 ∷ 8 ∷ 9 ∷ [])
enqueue_example = enqueue-IsQueue 9 ring (7 ∷ 8 ∷ []) ring-IsQueue (omega arith)

dequeue_example : (array_front ring ≡ some 7) × IsQueue (dequeue ring) (8 ∷ [])
dequeue_example = dequeue-IsQueue 7 ring (8 ∷ []) ring-IsQueue
