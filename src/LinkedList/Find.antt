-- ===== src/LinkedList/Find.antt =====
-- The loops over the nodes of a list: search, print, and the deletion of all nodes.
use vcmalloc_bench.Base.{
  ℕ, suc, ◌≡◌, refl, sym, ap, subst, ◌∙◌, arith, Bool, true, false, Option, some, none, List, [],
  ◌∷◌, ◌||◌, length, map, ◌==◌, inl, inr, Bool-cases,
}
use vcmalloc_bench.Machine.Run.{ok}
use vcmalloc_bench.Machine.Returns.{Returns, returns, mono, bind}
use vcmalloc_bench.LinkedList.{
  LinkedListNodeType, Store, set_node, load, search_from, print, printed, destroy_nodes,
  destroy_list,
}
use vcmalloc_bench.LinkedList.Unordered.{search}
use vcmalloc_bench.LinkedList.Segment.{Segment, Away, Distinct, IsList, Segment-set_node}
use vcmalloc_bench.LinkedList.Insert.{other_address}

-- Whether an item is among those of a list.
unfoldable pub holds : {A : Type 0} → (A → A → Bool) → List (ℕ × A) → A → Bool
holds eq [] item = false
holds eq ((a, x) ∷ cs) item = eq x item || holds eq cs item

module _ {A : Type 0} (s : Store A) where
  search_from-holds :
      (eq : A → A → Bool) (item : A) (p : ℕ) (cs : List (ℕ × A))
      → Segment s.nodes p 0 cs
      → search_from eq (suc (length cs)) p item s ≡ ok (holds eq cs item) s
  unfolding search_from holds
  search_from-holds eq item p [] chain = rw chain
  search_from-holds eq item p ((a, x) ∷ cs) (at, ne, n, here, behind) =
      rw (at, other_address a 0 ne)
        (rw (here, load)
          (elim (Bool-cases (eq x item)) [
            | inl hit ↦ rw hit
            | inr miss ↦ rw miss (search_from-holds eq item n cs behind)
          ]))

  -- On a well-formed list, with one round more than there are nodes, search ends with the answer
  -- whether the item is among those of the list, and changes nothing.
  pub search-holds :
      (eq : A → A → Bool) (item : A) (cs : List (ℕ × A))
      → IsList s cs
      → search eq (suc (length cs)) item s ≡ ok (holds eq cs item) s
  unfolding search
  search-holds eq item cs is = search_from-holds eq item s.list.first cs is.chain

  printed-items :
      (p : ℕ) (cs : List (ℕ × A))
      → Segment s.nodes p 0 cs
      → printed (length cs) p s ≡ ok (map (λ c. c.1) cs) s
  unfolding printed
  printed-items p [] chain = refl
  printed-items p ((a, x) ∷ cs) (at, ne, n, here, behind) =
      rw (at, load) (rw here (rw (printed-items n cs behind)))

  -- On a well-formed list print shows all the items in order, and changes nothing.
  pub print-items : (cs : List (ℕ × A)) → IsList s cs → print s ≡ ok (map (λ c. c.1) cs) s
  unfolding print
  print-items cs is =
      ap (λ (n : ℕ). printed n s.list.first s) is.count ∙ printed-items s.list.first cs is.chain

-- No node is left at the addresses of a list.
abbrev pub Gone : {A : Type 0} → (ℕ → Option (LinkedListNodeType A)) → List (ℕ × A) → Type 0
Gone nodes [] = Unit
Gone nodes ((a, x) ∷ cs) = (nodes a ≡ none) × Gone nodes cs

module _ {A : Type 0} where
  -- The state after the nodes of a list were deleted: the other nodes are those from before.
  pub record Destroyed (cs : List (ℕ × A)) (s s' : Store A) : Type 0 where
    pub first : s'.list.first ≡ 0
    pub others : (a : ℕ) → Away a cs → s'.nodes a ≡ s.nodes a
    pub gone : Gone s'.nodes cs

  destroy_nodes-Destroyed :
      (cs : List (ℕ × A)) (s : Store A)
      → Segment s.nodes s.list.first 0 cs
      → Distinct cs
      → Returns (λ _ s'. Destroyed cs s s') (destroy_nodes (suc (length cs)) s)
  unfolding destroy_nodes
  destroy_nodes-Destroyed [] s chain distinct =
      let test : (s.list.first == 0) ≡ true = ground arith in
      rw test (returns (record { first = chain; others = λ a away. refl; gone = tt }))
  destroy_nodes-Destroyed ((a, x) ∷ cs) s (at, ne, n, here, behind) distinct =
      let test : (s.list.first == 0) ≡ false = other_address _ 0 (λ e. ne (sym at ∙ e)) in
      let here' : s.nodes s.list.first ≡ some (record { info = x; link = n }) =
        ap s.nodes at ∙ here in
      let away' = subst (λ (p : ℕ). Away p cs) (sym at) distinct.0 in
      rw test (
        rw (here', load)
          (rw (here', load)
            (mono
              (destroy_nodes-Destroyed cs
                (record s {
                  nodes = set_node s.nodes s.list.first none;
                  list = record s.list { first = n };
                })
                (Segment-set_node s.nodes s.list.first none n 0 cs away' behind) distinct.1)
              λ _ s' d. record {
                first = d.first;
                others = λ b away.
                    let miss : (b == s.list.first) ≡ false =
                      other_address _ _ (λ e. away.0 (sym at ∙ sym e)) in
                    d.others b away.1 ∙ rw miss;
                gone = (
                  let hit : (a == s.list.first) ≡ true = ground (arith, at) in
                      d.others a distinct.0 ∙ rw hit,
                  d.gone,
                );
              })))

  -- On a well-formed list, with one round more than there are nodes, destroyList ends with the
  -- empty list: no node is left at the addresses of the list, and no other node is touched.
  pub destroy_list-Destroyed :
      (cs : List (ℕ × A)) (s : Store A)
      → IsList s cs
      → Returns (λ _ s'. IsList s' [] × Destroyed cs s s') (destroy_list (suc (length cs)) s)
  unfolding destroy_list
  destroy_list-Destroyed cs s is =
      bind (destroy_nodes-Destroyed cs s is.chain is.distinct) λ _ s' d. returns (
        record { chain = d.first; distinct = tt; last = refl; count = refl },
        record { first = d.first; others = d.others; gone = d.gone },
      )
