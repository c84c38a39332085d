-- ===== src/LinkedQueue/Laws.antt =====
-- addQueue, front and deleteQueue of a linked queue, against a list of items with the front first.
use vcmalloc_bench.Base.{
  ℕ, ◌≡◌, ◌≢◌, refl, sym, ap, subst, ◌∙◌, arith, true, false, some, none, List, [], ◌∷◌, ◌++◌, ◌==◌,
  if◌then◌else◌,
}
use vcmalloc_bench.Machine.Run.{ok}
use vcmalloc_bench.Machine.Returns.{Returns, returns}
use vcmalloc_bench.LinkedList.Segment.{
  Segment, Away, Distinct, last_of, Segment-set_node, last_of-Away,
}
use vcmalloc_bench.LinkedList.Insert.{
  same_address, other_address, Longer, longer, Distinct-append, last_of-append,
}
use vcmalloc_bench.LinkedQueue.{LinkedQueueType, add_queue, queue_front_item, delete_queue, node_at}

-- A queue whose nodes spell a list, each at its own address, with the last node at the rear.
pub record IsLinkedQueue {A : Type 0} (q : LinkedQueueType A) (cs : List (ℕ × A)) : Type 0 where
  pub chain : Segment q.nodes q.queue_front 0 cs
  pub distinct : Distinct cs
  pub rear : q.queue_rear ≡ last_of 0 cs

module _ {A : Type 0} (item : A) (addr : ℕ) (some_addr : addr ≢ 0) where
  behind_rear :
      (q : LinkedQueueType A) (a : ℕ) (x : A) (cs : List (ℕ × A))
      → IsLinkedQueue q ((a, x) ∷ cs)
      → Away addr ((a, x) ∷ cs)
      → (q.queue_front == 0) ≡ false
      → Longer item addr some_addr q.nodes q.queue_front a cs ((a, x) ∷ cs)
      → Returns
          (λ _ q'. IsLinkedQueue q' ((a, x) ∷ cs ++ (addr, item) ∷ []))
          (add_queue item addr q)
  unfolding add_queue
  behind_rear q a x cs is away nonempty (y, last, chain) =
      let miss : (last_of a cs == addr) ≡ false =
        other_address _ _ (last_of-Away addr a cs away.0 away.1) in
      rw (nonempty, is.rear)
        (rw (miss, node_at)
          (rw last (
            returns (record {
              chain = chain;
              distinct = Distinct-append item addr some_addr ((a, x) ∷ cs) is.distinct away;
              rear = sym (last_of-append item addr some_addr 0 ((a, x) ∷ cs));
            }))))

  -- On a well-formed linked queue, with a new address other than 0 that is not that of one of its
  -- nodes, addQueue ends with the item in a node behind the others, and a well-formed queue.
  pub add_queue-IsLinkedQueue :
      (q : LinkedQueueType A) (cs : List (ℕ × A))
      → IsLinkedQueue q cs
      → Away addr cs
      → Returns (λ _ q'. IsLinkedQueue q' (cs ++ (addr, item) ∷ [])) (add_queue item addr q)
  unfolding add_queue
  add_queue-IsLinkedQueue q [] is away =
      let empty : (q.queue_front == 0) ≡ true = let e = is.chain in ground arith in
      rw empty (
        returns (record {
          chain = (refl, some_addr, 0, rw (same_address addr), refl);
          distinct = (tt, tt);
          rear = refl;
        }))
  add_queue-IsLinkedQueue q ((a, x) ∷ cs) is away =
      let nonempty : (q.queue_front == 0) ≡ false =
        other_address _ 0 (λ e. is.chain.1 (sym is.chain.0 ∙ e)) in
      behind_rear q a x cs is away nonempty
        (longer item addr some_addr q.nodes q.queue_front a x cs is.chain is.distinct away)

module _ {A : Type 0} (a : ℕ) (x : A) (cs : List (ℕ × A)) (q : LinkedQueueType A)
    (is : IsLinkedQueue q ((a, x) ∷ cs)) where
  nonempty : (q.queue_front == 0) ≡ false
  nonempty = other_address _ 0 (λ e. is.chain.1 (sym is.chain.0 ∙ e))

  abbrev next : ℕ
  next = is.chain.2

  here : q.nodes q.queue_front ≡ some (record { info = x; link = next })
  here = ap q.nodes is.chain.0 ∙ is.chain.3

  rear_lem :
      (n : ℕ) (ds : List (ℕ × A))
      → Segment q.nodes n 0 ds
      → q.queue_rear ≡ last_of a ds
      → (if n == 0 then 0 else q.queue_rear) ≡ last_of 0 ds
  rear_lem n [] chain e = rw chain
  rear_lem n ((b, y) ∷ ds) (at, ne, m, here', behind) e = rw (at, other_address b 0 ne) e

  -- On a well-formed linked queue that is not empty, front is its first item, and deleteQueue ends
  -- with a well-formed queue of the others, with the first node deleted.
  pub delete_queue-IsLinkedQueue :
      (queue_front_item q ≡ ok x q)
      × Returns (λ _ q'. IsLinkedQueue q' cs × (q'.nodes a ≡ none)) (delete_queue q)
  unfolding delete_queue queue_front_item
  delete_queue-IsLinkedQueue =
      let gone : (a == q.queue_front) ≡ true = ground (arith, is.chain.0) in
      let away = subst (λ (p : ℕ). Away p cs) (sym is.chain.0) is.distinct.0 in
      (
        rw nonempty (rw (here, node_at)),
        rw nonempty (
            rw (here, node_at)
              (rw (here, node_at)
                (returns (
                  record {
                    chain = Segment-set_node q.nodes q.queue_front none next 0 cs away is.chain.4;
                    distinct = is.distinct.1;
                    rear = rear_lem next cs is.chain.4 is.rear;
                  },
                  rw gone,
                )))),
      )
