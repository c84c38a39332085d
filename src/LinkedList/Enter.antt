-- ===== src/LinkedList/Enter.antt =====
-- insert of an ordered list.
use vcmalloc_bench.Base.{
  ℕ, zero, suc, ◌+◌, ◌<◌, ◌≡◌, ◌≢◌, refl, sym, ap, ◌∙◌, arith, Bool, true, false, some, List, [],
  ◌∷◌, length, ◌==◌, inl, inr, Bool-cases,
}
use vcmalloc_bench.Machine.Run.{ok}
use vcmalloc_bench.Machine.Returns.{Returns, returns}
use vcmalloc_bench.LinkedList.{Store, set_node, load}
use vcmalloc_bench.LinkedList.Ordered.{position, insert}
use vcmalloc_bench.LinkedList.Segment.{Away, IsList, Segment-set_node}
use vcmalloc_bench.LinkedList.Insert.{same_address, other_address, int_count}
use vcmalloc_bench.LinkedList.Placed.{
  placed, Sorted, Away-placed, Distinct-placed, length-placed, Sorted-placed, Spot, walk,
}

module _ {A : Type 0} (ge : A → A → Bool) (total : (x y : A) → ge x y ≡ false → ge y x ≡ true)
    (item : A) (addr : ℕ) (some_addr : addr ≢ 0) (s : Store A) where
  -- The state with the new node, which no link points to.
  abbrev noded : Store A
  noded = record s { nodes = set_node s.nodes addr (some (record { info = item; link = 0 })) }

  -- The state after the call: the list with the item at its place, sorted, and every node that is
  -- neither new nor one of the list as it was.
  pub record Entered (cs : List (ℕ × A)) (s' : Store A) : Type 0 where
    pub list : IsList s' (placed ge item addr cs)
    pub sorted : Sorted ge (placed ge item addr cs)
    pub others : (z : ℕ) → addr ≢ z → Away z cs → s'.nodes z ≡ s.nodes z

  module _ (fuel a : ℕ) (x : A) (cs : List (ℕ × A)) (is : IsList s ((a, x) ∷ cs))
      (sorted : Sorted ge ((a, x) ∷ cs)) (away : Away addr ((a, x) ∷ cs))
      (few : length ((a, x) ∷ cs) + 1 < 0x8000_0000) (n : ℕ)
      (node : noded.nodes s.list.first ≡ some (record { info = x; link = n }))
      (some_first : (s.list.first == 0) ≡ false) where
    -- Before the first node.
    front :
        ge x item ≡ true
        → Returns (λ _ s'. Entered ((a, x) ∷ cs) s') (insert ge (suc fuel) item addr s)
    unfolding insert position placed
    front here = rw some_first (
        rw (node, load)
          (rw here (
            rw (same_address s.list.first, int_count s ((a, x) ∷ cs) is few)
              (returns (record {
                list = rw here (record {
                  chain = (
                    refl,
                    some_addr,
                    s.list.first,
                    rw (same_address addr) refl,
                    Segment-set_node _ addr _ s.list.first 0 ((a, x) ∷ cs) away (
                        Segment-set_node s.nodes addr _ s.list.first 0 ((a, x) ∷ cs) away is.chain),
                  );
                  distinct = (away, is.distinct);
                  last = is.last;
                  count = omega (arith, is.count);
                });
                sorted = rw here (here, sorted);
                others = λ z ne far. rw (other_address z addr (λ e. ne (sym e))) refl;
              })))))

    -- Behind a node.
    inner :
        ge x item ≡ false
        → a ≢ 0
        → s.list.first ≡ a
        → Spot ge item addr noded some_addr fuel a x n cs
        → Returns (λ _ s'. Entered ((a, x) ∷ cs) s') (insert ge (suc fuel) item addr s)
    unfolding insert position placed
    inner later ne at h =
        let walked : position ge fuel s.list.first n item noded ≡ ok (h.trail, h.current) noded =
          ap (λ (p : ℕ). position ge fuel p n item noded) at ∙ h.walked in
        let off : (h.current == s.list.first) ≡ false =
          other_address h.current s.list.first (λ e. h.inside a ne is.distinct.0 (e ∙ at)) in
        rw some_first (
          rw (node, load)
            (rw later (
              rw walked (
                rw off (
                  rw (h.before, load)
                    (rw (int_count s ((a, x) ∷ cs) is few) (
                      returns (record {
                        list = rw later (record {
                          chain = (at, h.chain.1, h.chain.2, h.chain.3, h.chain.4);
                          distinct = (
                            Away-placed ge item addr a cs (λ e. away.0 (sym e)) is.distinct.0,
                            Distinct-placed ge item addr cs away.1 is.distinct.1,
                          );
                          last = rw is.last h.last;
                          count = omega (arith, is.count, length-placed ge item addr cs);
                        });
                        sorted = Sorted-placed ge item addr total ((a, x) ∷ cs) sorted;
                        others = λ z off_addr far.
                            rw
                              (
                                other_address z addr (λ e. off_addr (sym e)),
                                other_address z h.trail (λ e. h.trail_inside z far.0 far.1 (sym e)),
                              )
                              refl;
                      }))))))))

  -- With an order that is total, on a well-formed list of fewer than 2 ^ 31 - 1 nodes whose items
  -- are in order, with a new address other than 0 that is not that of one of its nodes and more
  -- rounds than there are nodes, insert of an ordered list ends with a well-formed list that has
  -- the item before the first one that is not below it, the items are in order, and no node outside
  -- the list is touched but the new one.
  pub insert-Entered :
      (cs : List (ℕ × A)) (fuel : ℕ)
      → length cs < fuel
      → IsList s cs
      → Sorted ge cs
      → Away addr cs
      → length cs + 1 < 0x8000_0000
      → Returns (λ _ s'. Entered cs s') (insert ge fuel item addr s)
  unfolding insert placed
  insert-Entered cs zero lt is sorted away few = absurd (omega arith)
  insert-Entered [] (suc fuel) lt is sorted away few =
      let empty : (s.list.first == 0) ≡ true = ground (arith, is.chain) in
      rw (empty, int_count s [] is few)
        (returns (record {
          list = record {
            chain = (refl, some_addr, 0, rw (same_address addr) refl, refl);
            distinct = (tt, tt);
            last = refl;
            count = omega (arith, is.count);
          };
          sorted = tt;
          others = λ z ne far. rw (other_address z addr (λ e. ne (sym e))) refl;
        }))
  insert-Entered ((a, x) ∷ cs) (suc fuel) lt is sorted away few =
      let (at, ne, n, node, chain) = is.chain in
      let some_first : (s.list.first == 0) ≡ false =
        other_address s.list.first 0 (λ e. ne (sym at ∙ e)) in
      let here : noded.nodes a ≡ some (record { info = x; link = n }) =
        rw (other_address a addr away.0) node in
      let first : noded.nodes s.list.first ≡ some (record { info = x; link = n }) =
        ap noded.nodes at ∙ here in
      elim (Bool-cases (ge x item)) [
        | inl hit ↦ front fuel a x cs is sorted away few n first some_first hit
        | inr later ↦ inner fuel a x cs is sorted away few n first some_first later ne at (
            walk ge item addr noded some_addr fuel a x n cs (omega arith) ne here is.distinct.0
              is.distinct.1 away (Segment-set_node s.nodes addr _ n 0 cs away.1 chain))
      ]
