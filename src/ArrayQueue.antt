-- ===== src/ArrayQueue.antt =====
-- queueType of libs_src/data_structures/queue.h, which implements queueADT: a circular array. The
-- placement `new` leaves the cells as the default constructor of the type makes them, here `blank`.
pub mod Laws
use vcmalloc_bench.Base.{
  ℕ, zero, suc, ◌+◌, ◌-◌, ◌%◌, Bool, Option, none, some, List, [], ◌∷◌, ltb, ◌==◌, if◌then◌else◌,
  length, get_elem?, replicate,
}

-- The sizes and positions are ints that are never negative.
pub record QueueType (A : Type 0) : Type 0 where
  pub max_queue_size : ℕ
  pub count : ℕ
  pub queue_front : ℕ
  pub queue_rear : ℕ
  pub list : List A

-- The array with one cell set; `none` outside the array.
unfoldable pub set_cell : {A : Type 0} → List A → ℕ → A → Option (List A)
set_cell [] i a = none
set_cell (x ∷ xs) zero a = some (a ∷ xs)
set_cell (x ∷ xs) (suc i) a = elim (set_cell xs i a) [ none ↦ none | some ys ↦ some (x ∷ ys) ]

module _ {A : Type 0} where
  abbrev pub is_empty_array : QueueType A → Bool
  is_empty_array q = q.count == 0

  abbrev pub is_full_array : QueueType A → Bool
  is_full_array q = q.count == q.max_queue_size

  unfoldable pub reset : QueueType A → QueueType A
  reset q = record q { queue_front = 0; queue_rear = q.max_queue_size - 1; count = 0 }

  -- The constructor, where a size of 0 stands for every size that is not positive; the messages on
  -- standard output are left out.
  unfoldable pub new_queue : (blank : A) → (queue_size : ℕ) → QueueType A
  new_queue blank queue_size =
      let max = if queue_size == 0 then 100 else queue_size in
      record {
        max_queue_size = max;
        count = 0;
        queue_front = 0;
        queue_rear = max - 1;
        list = replicate max blank;
      }

  -- `assert(!isEmptyQueue())` ends the program, which is `none` here, as is a read outside the array.
  unfoldable pub array_front : QueueType A → Option A
  array_front q = if q.count == 0 then none else get_elem? q.list q.queue_front

  unfoldable pub array_back : QueueType A → Option A
  array_back q = if q.count == 0 then none else get_elem? q.list q.queue_rear

  -- A full queue is left as it is; `none` is a write outside the array.
  unfoldable pub enqueue : A → QueueType A → Option (QueueType A)
  unfolding set_cell
  enqueue item q =
      if q.count == q.max_queue_size
      then some q
      else (let rear = (q.queue_rear + 1) % q.max_queue_size in
          elim (set_cell q.list rear item) [
            | none ↦ none
            | some cells ↦ some (record q { queue_rear = rear; count = q.count + 1; list = cells })
          ])

  -- An empty queue is left as it is.
  unfoldable pub dequeue : QueueType A → QueueType A
  dequeue q =
      if q.count == 0
      then q
      else record q { count = q.count - 1; queue_front = (q.queue_front + 1) % q.max_queue_size }
