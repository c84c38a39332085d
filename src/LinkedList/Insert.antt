-- ===== src/LinkedList/Insert.antt =====
-- insertFirst and insertLast of an unordered list.
use vcmalloc_bench.Base.{
  ℕ, ◌≡◌, ◌≢◌, refl, sym, ap, ◌∙◌, arith, true, false, Option, some, List, [], ◌∷◌, ◌++◌, length,
  length-append, ltb, ◌<◌, ◌+◌, ◌==◌, if◌then◌else◌,
}
use vcmalloc_bench.Machine.Returns.{Returns, returns}
use vcmalloc_bench.LinkedList.{LinkedListNodeType, Store, set_node, load}
use vcmalloc_bench.LinkedList.Unordered.{insert_first, insert_last}
use vcmalloc_bench.LinkedList.Segment.{
  Segment, Away, Distinct, last_of, IsList, Segment-set_node, last_of-Away, last_of-nonzero,
}

pub same_address : (a : ℕ) → (a == a) ≡ true
same_address a = ground arith

pub other_address : (a b : ℕ) → a ≢ b → (a == b) ≡ false
other_address a b ne = ground (arith, ne)

-- The count of a list of few nodes can be raised.
pub int_count :
    {A : Type 0} (s : Store A) (cs : List (ℕ × A))
    → IsList s cs
    → length cs + 1 < 0x8000_0000
    → ltb (s.list.count + 1) 0x8000_0000 ≡ true
int_count s cs is few = ground (arith, is.count, few)

module _ {A : Type 0} (item : A) (addr : ℕ) (some_addr : addr ≢ 0) where
  -- The pointer to the last node of the list with a node before it.
  last_lem :
      (nodes : ℕ → Option (LinkedListNodeType A)) (p l : ℕ) (cs : List (ℕ × A))
      → Segment nodes p 0 cs
      → l ≡ last_of 0 cs
      → (if l == 0 then addr else l) ≡ last_of addr cs
  last_lem nodes p l [] chain e = rw e
  last_lem nodes p l ((a, x) ∷ cs) (at, ne, n, here, behind) e =
      rw (e, other_address _ 0 (last_of-nonzero nodes a n 0 cs ne behind))

  -- On a well-formed list of fewer than 2 ^ 31 - 1 nodes, with a new address other than 0 that is
  -- not that of one of its nodes, insertFirst ends with the item in a node before the others, and a
  -- well-formed list.
  pub insert_first-IsList :
      (s : Store A) (cs : List (ℕ × A))
      → IsList s cs
      → Away addr cs
      → length cs + 1 < 0x8000_0000
      → Returns (λ _ s'. IsList s' ((addr, item) ∷ cs)) (insert_first item addr s)
  unfolding insert_first
  insert_first-IsList s cs is away few = rw (int_count s cs is few) (
      returns (record {
        chain = (
          refl,
          some_addr,
          s.list.first,
          rw (same_address addr),
          Segment-set_node s.nodes addr _ s.list.first 0 cs away is.chain,
        );
        distinct = (away, is.distinct);
        last = last_lem s.nodes s.list.first s.list.last cs is.chain is.last;
        count = omega (arith, is.count);
      }))

  -- The last node, and the chain once it points to the new one.
  abbrev pub Longer :
      (ℕ → Option (LinkedListNodeType A)) → (p a : ℕ) → List (ℕ × A) → List (ℕ × A) → Type 0
  Longer nodes p a cs whole =
      (y : A) × (nodes (last_of a cs) ≡ some (record { info = y; link = 0 }))
      × Segment
          (set_node (set_node nodes addr (some (record { info = item; link = 0 }))) (last_of a cs)
            (some (record { info = y; link = addr })))
          p 0 (whole ++ (addr, item) ∷ [])

  pub longer :
      (nodes : ℕ → Option (LinkedListNodeType A)) (p a : ℕ) (x : A) (cs : List (ℕ × A))
      → Segment nodes p 0 ((a, x) ∷ cs)
      → Distinct ((a, x) ∷ cs)
      → Away addr ((a, x) ∷ cs)
      → Longer nodes p a cs ((a, x) ∷ cs)
  longer nodes p a x [] (at, ne, n, here, ends) distinct away = (
    x,
    here ∙ ap (λ (m : ℕ). some (record { info = x; link = m })) ends,
    (
      at,
      ne,
      addr,
      rw (same_address a),
      (
        refl,
        some_addr,
        0,
        rw (other_address addr a (λ e. away.0 (sym e)), same_address addr),
        refl,
      ),
    ),
  )
  longer nodes p a x ((b, y) ∷ cs) (at, ne, n, here, behind) distinct away =
      let (z, last, chain) = longer nodes n b y cs behind distinct.1 away.1 in
      (
        z,
        last,
        (
          at,
          ne,
          n,
          rw
              (
                other_address a (last_of b cs)
                    (λ e. last_of-Away a b cs distinct.0.0 distinct.0.1 (sym e)),
                other_address a addr away.0,
              )
              here,
          chain,
        ),
      )

  Away-append :
      (a b : ℕ) (y : A) (cs : List (ℕ × A)) → b ≢ a → Away a cs → Away a (cs ++ (b, y) ∷ [])
  Away-append a b y [] ne away = (ne, tt)
  Away-append a b y ((c, x) ∷ cs) ne away = (away.0, Away-append a b y cs ne away.1)

  pub Distinct-append :
      (cs : List (ℕ × A)) → Distinct cs → Away addr cs → Distinct (cs ++ (addr, item) ∷ [])
  Distinct-append [] distinct away = (tt, tt)
  Distinct-append ((c, x) ∷ cs) distinct away = (
    Away-append c addr item cs (λ e. away.0 (sym e)) distinct.0,
    Distinct-append cs distinct.1 away.1,
  )

  pub last_of-append : (d : ℕ) (cs : List (ℕ × A)) → last_of d (cs ++ (addr, item) ∷ []) ≡ addr
  last_of-append d [] = refl
  last_of-append d ((c, x) ∷ cs) = last_of-append c cs

  behind_last :
      (s : Store A) (a : ℕ) (x : A) (cs : List (ℕ × A))
      → IsList s ((a, x) ∷ cs)
      → Away addr ((a, x) ∷ cs)
      → length ((a, x) ∷ cs) + 1 < 0x8000_0000
      → (s.list.first == 0) ≡ false
      → Longer s.nodes s.list.first a cs ((a, x) ∷ cs)
      → Returns (λ _ s'. IsList s' ((a, x) ∷ cs ++ (addr, item) ∷ [])) (insert_last item addr s)
  unfolding insert_last
  behind_last s a x cs is away few nonempty (y, last, chain) =
      let miss : (last_of a cs == addr) ≡ false =
        other_address _ _ (last_of-Away addr a cs away.0 away.1) in
      rw (nonempty, is.last)
        (rw (miss, load)
          (rw last (
            rw (int_count s ((a, x) ∷ cs) is few) (
              returns (record {
                chain = chain;
                distinct = Distinct-append ((a, x) ∷ cs) is.distinct away;
                last = sym (last_of-append 0 ((a, x) ∷ cs));
                count = omega (arith, is.count, length-append cs ((addr, item) ∷ []));
              })))))

  -- On a well-formed list of fewer than 2 ^ 31 - 1 nodes, with a new address other than 0 that is
  -- not that of one of its nodes, insertLast ends with the item in a node behind the others, and a
  -- well-formed list.
  pub insert_last-IsList :
      (s : Store A) (cs : List (ℕ × A))
      → IsList s cs
      → Away addr cs
      → length cs + 1 < 0x8000_0000
      → Returns (λ _ s'. IsList s' (cs ++ (addr, item) ∷ [])) (insert_last item addr s)
  unfolding insert_last
  insert_last-IsList s [] is away few = rw is.chain (
      rw (int_count s [] is few) (
        returns (record {
          chain = (refl, some_addr, 0, rw (same_address addr), refl);
          distinct = (tt, tt);
          last = refl;
          count = omega (arith, is.count);
        })))
  insert_last-IsList s ((a, x) ∷ cs) is away few =
      let nonempty : (s.list.first == 0) ≡ false =
        other_address _ 0 (λ e. is.chain.1 (sym is.chain.0 ∙ e)) in
      behind_last s a x cs is away few nonempty
        (longer s.nodes s.list.first a x cs is.chain is.distinct away)
