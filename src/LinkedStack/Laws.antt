-- ===== src/LinkedStack/Laws.antt =====
-- push, top and pop of a linked stack, against a list of items with the top first.
use vcmalloc_bench.Base.{
  ℕ, ◌≡◌, ◌≢◌, refl, sym, ap, ◌∙◌, subst, arith, true, false, some, none, List, ◌∷◌, ◌==◌,
}
use vcmalloc_bench.Machine.Run.{ok, pure, ◌>>=◌, ◌>>◌}
use vcmalloc_bench.Machine.Returns.{Returns, returns, bind}
use vcmalloc_bench.LinkedList.Segment.{Segment, Away, Distinct, Segment-set_node}
use vcmalloc_bench.LinkedList.Insert.{same_address, other_address}
use vcmalloc_bench.LinkedStack.{LinkedStackType, push, pop, top, load_node}

module _ {A : Type 0} where
  -- A stack whose nodes spell a list, each at its own address.
  pub record IsStack (s : LinkedStackType A) (cs : List (ℕ × A)) : Type 0 where
    pub chain : Segment s.nodes s.stack_top 0 cs
    pub distinct : Distinct cs

  pub push-IsStack :
      (item : A) (addr : ℕ) (s : LinkedStackType A) (cs : List (ℕ × A))
      → addr ≢ 0
      → IsStack s cs
      → Away addr cs
      → Returns (λ _ s'. IsStack s' ((addr, item) ∷ cs)) (push item addr s)
  unfolding push
  push-IsStack item addr s cs ne is away = returns (record {
    chain = (
      refl,
      ne,
      s.stack_top,
      rw (same_address addr),
      Segment-set_node s.nodes addr _ s.stack_top 0 cs away is.chain,
    );
    distinct = (away, is.distinct);
  })

  module _ (a : ℕ) (x : A) (cs : List (ℕ × A)) (s : LinkedStackType A)
      (is : IsStack s ((a, x) ∷ cs)) where
    nonempty : (s.stack_top == 0) ≡ false
    nonempty = other_address _ 0 (λ e. is.chain.1 (sym is.chain.0 ∙ e))

    next : ℕ
    next = is.chain.2

    here : s.nodes s.stack_top ≡ some (record { info = x; link = next })
    unfolding next
    here = ap s.nodes is.chain.0 ∙ is.chain.3

    -- The top of a stack that is not empty is its first item, and the stack is unchanged.
    top-first : top s ≡ ok x s
    unfolding top
    top-first = rw nonempty (rw (here, load_node))

    -- pop takes the first item, and its node, from a stack that is not empty.
    pop-IsStack : Returns (λ _ s'. IsStack s' cs × (s'.nodes a ≡ none)) (pop s)
    unfolding pop next
    pop-IsStack =
        let gone : (a == s.stack_top) ≡ true = ground (arith, is.chain.0) in
        let away = subst (λ (p : ℕ). Away p cs) (sym is.chain.0) is.distinct.0 in
        rw nonempty (
          rw (here, load_node)
            (rw (here, load_node)
              (returns (
                record {
                  chain = Segment-set_node s.nodes s.stack_top none next 0 cs away is.chain.4;
                  distinct = is.distinct.1;
                },
                rw gone,
              ))))

-- On a well-formed stack, with a new address other than 0 that is not that of one of its nodes,
-- push, then top, then pop end with the item that was pushed, and with a stack of the items from
-- before.
pub push-top-pop :
    {A : Type 0} (item : A) (addr : ℕ) (s : LinkedStackType A) (cs : List (ℕ × A))
    → addr ≢ 0
    → IsStack s cs
    → Away addr cs
    → Returns
        (λ x s'. (x ≡ item) × IsStack s' cs)
        ((push item addr >> (top >>= λ x. pop >> pure x)) s)
push-top-pop item addr s cs ne is away = bind (push-IsStack item addr s cs ne is away) λ _ v pushed.
    rw (top-first addr item cs v pushed)
      (bind (pop-IsStack addr item cs v pushed) λ _ u popped. returns (refl, popped.0))
