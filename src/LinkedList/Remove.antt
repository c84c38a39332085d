-- ===== src/LinkedList/Remove.antt =====
-- deleteNode of an unordered list.
use vcmalloc_bench.Base.{
  ℕ, ◌<◌, ◌≡◌, refl, sym, ap, subst, ◌∙◌, arith, Bool, true, false, Option, some, none, List, [],
  ◌∷◌, length, ◌==◌, if◌then◌else◌, ◌⊎◌, inl, inr, Bool-cases,
}
use vcmalloc_bench.Machine.Run.{ok}
use vcmalloc_bench.Machine.Returns.{Returns, returns}
use vcmalloc_bench.LinkedList.{LinkedListNodeType, Store, load}
use vcmalloc_bench.LinkedList.Unordered.{find_node, delete_behind, delete_node}
use vcmalloc_bench.LinkedList.Segment.{Segment, Away, last_of, IsList, Segment-set_node}
use vcmalloc_bench.LinkedList.Insert.{other_address}
use vcmalloc_bench.LinkedList.Without.{without, Away-without, Distinct-without, Missing, Hit, walk}

module _ {A : Type 0} (eq : A → A → Bool) (item : A) where
  module _ (s : Store A) where
    -- The state after the call: the list without the node, which is deleted, and every other node
    -- as it was, but for the link to it.
    pub record Removed (cs : List (ℕ × A)) (s' : Store A) : Type 0 where
      pub list : IsList s' (without eq cs item)
      pub others : (z : ℕ) → Away z cs → s'.nodes z ≡ s.nodes z
      pub gone : (z : ℕ) → Away z (without eq cs item) → (Away z cs → ⊥) → s'.nodes z ≡ none

    unchanged : (cs : List (ℕ × A)) → IsList s cs → without eq cs item ≡ cs → Removed cs s
    unchanged cs is same = record {
      list = rw same is;
      others = λ z away. refl;
      gone = λ z away there. absurd (there (subst (λ (ds : List (ℕ × A)). Away z ds) same away));
    }

    module _ (fuel b : ℕ) (y : A) (n : ℕ) (cs : List (ℕ × A)) (is : IsList s ((b, y) ∷ cs))
        (top : s.nodes b ≡ some (record { info = y; link = n })) (differs : eq y item ≡ false) where
      cut :
          Hit eq item s fuel b y n cs
          → Returns
              (λ _ s'. Removed ((b, y) ∷ cs) s')
              (delete_behind eq fuel (record { info = y; link = n }) item s)
      unfolding delete_behind without
      cut h =
          let first : s.list.first ≡ b = is.chain.0 in
          let walked : find_node eq fuel s.list.first n item s ≡ ok (some (h.trail, h.current)) s =
            ap (λ (p : ℕ). find_node eq fuel p n item s) first ∙ h.walked in
          let other = other_address h.current h.trail h.apart in
          rw walked (
            rw (h.here, load)
              (rw (h.before, load)
                (rw (other, load)
                  (rw (h.here, load)
                    (returns (record {
                      list = rw differs (record {
                        chain = (first, h.chain.1, h.chain.2, h.chain.3, h.chain.4);
                        distinct = (
                          Away-without eq item b cs is.distinct.0,
                          Distinct-without eq item cs is.distinct.1,
                        );
                        last = rw is.last h.last;
                        count = omega (arith, is.count, h.count);
                      });
                      others = λ z away.
                          rw
                            (
                              other_address z h.current (λ e. h.inside z away.1 (sym e)),
                              other_address z h.trail (λ e. h.trail_inside z away.0 away.1 (sym e)),
                            )
                            refl;
                      gone = λ z away there. elim (Bool-cases (z == h.current)) [
                        | inl hit ↦ rw hit refl
                        | inr miss ↦
                            let both = rw differs at away in
                            absurd (there (both.0, h.only z both.1 (λ e. ground (arith, miss, e))))
                      ];
                    }))))))

      behind_first :
          Missing eq item s fuel b n cs ⊎ Hit eq item s fuel b y n cs
          → Returns
              (λ _ s'. Removed ((b, y) ∷ cs) s')
              (delete_behind eq fuel (record { info = y; link = n }) item s)
      unfolding delete_behind without
      behind_first (inr h) = cut h
      behind_first (inl (e, same)) =
          let walked : find_node eq fuel s.list.first n item s ≡ ok none s =
            ap (λ (p : ℕ). find_node eq fuel p n item s) is.chain.0 ∙ e in
          rw walked (returns (unchanged ((b, y) ∷ cs) is (rw differs (ap (◌∷◌ (b, y)) same))))

  -- The last node, when the first one is taken out.
  last_left :
      (nodes : ℕ → Option (LinkedListNodeType A)) (a n l : ℕ) (cs : List (ℕ × A))
      → Segment nodes n 0 cs
      → l ≡ last_of a cs
      → (if n == 0 then 0 else l) ≡ last_of 0 cs
  last_left nodes a n l [] chain e = rw chain refl
  last_left nodes a n l ((c, x) ∷ cs) (at, ne, m, here, chain) e =
      rw (other_address n 0 (λ f. ne (sym at ∙ f))) e

  -- On a well-formed list, with more rounds than there are nodes, deleteNode ends with a
  -- well-formed list without the first node that has the item, if there is one: that node is
  -- deleted, and no node outside the list is touched.
  pub delete_node-Removed :
      (s : Store A) (cs : List (ℕ × A)) (fuel : ℕ)
      → length cs < fuel
      → IsList s cs
      → Returns (λ _ s'. Removed s cs s') (delete_node eq fuel item s)
  unfolding delete_node without
  delete_node-Removed s [] fuel lt is =
      let empty : (s.list.first == 0) ≡ true = ground (arith, is.chain) in
      rw empty (returns (unchanged s [] is refl))
  delete_node-Removed s ((b, y) ∷ cs) fuel lt is =
      let (at, ne, n, node, chain) = is.chain in
      let some_first : (s.list.first == 0) ≡ false =
        other_address s.list.first 0 (λ e. ne (sym at ∙ e)) in
      let here : s.nodes s.list.first ≡ some (record { info = y; link = n }) =
        ap s.nodes at ∙ node in
      rw some_first (
        rw (here, load)
          (elim (Bool-cases (eq y item)) [
            | inr miss ↦ rw miss (
                behind_first s fuel b y n cs is node miss (
                  walk eq item s fuel b y n cs (omega arith) ne node is.distinct.0 is.distinct.1
                    chain))
            | inl hit ↦ rw hit (
                rw (here, load)
                  (returns (record {
                    list = rw hit (record {
                      chain =
                          Segment-set_node s.nodes s.list.first none n 0 cs
                            (subst (λ (p : ℕ). Away p cs) (sym at) is.distinct.0) chain;
                      distinct = is.distinct.1;
                      last = last_left s.nodes b n s.list.last cs chain is.last;
                      count = omega (arith, is.count);
                    });
                    others = λ z away.
                        rw (other_address z s.list.first (λ e. away.0 (sym at ∙ sym e))) refl;
                    gone = λ z away there. elim (Bool-cases (z == s.list.first)) [
                      | inl same ↦ rw same refl
                      | inr other ↦
                          absurd (there ((λ e. ground (arith, other, at, e)), rw hit at away))
                    ];
                  })))
          ]))
