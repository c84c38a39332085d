-- ===== src/LinkedList/Segment.antt =====
-- When the nodes of a store spell a list of addresses and items.
use vcmalloc_bench.Base.{ℕ, ◌≡◌, ◌≢◌, arith, false, Option, some, List, [], ◌∷◌, length, ◌==◌}
use vcmalloc_bench.LinkedList.{LinkedListNodeType, Store, set_node}

module _ {A : Type 0} where
  -- The nodes from `p` on, up to the pointer `q`, are those of the list.
  abbrev pub Segment : (ℕ → Option (LinkedListNodeType A)) → (p q : ℕ) → List (ℕ × A) → Type 0
  Segment nodes p q [] = p ≡ q
  Segment nodes p q ((a, x) ∷ cs) =
      (p ≡ a)
      × (a ≢ 0)
      × (n : ℕ) × (nodes a ≡ some (record { info = x; link = n }))
      × Segment nodes n q cs

  -- No node of the list is at the address.
  abbrev pub Away : ℕ → List (ℕ × A) → Type 0
  Away a [] = Unit
  Away a ((b, x) ∷ cs) = (b ≢ a) × Away a cs

  abbrev pub Distinct : List (ℕ × A) → Type 0
  Distinct [] = Unit
  Distinct ((a, x) ∷ cs) = Away a cs × Distinct cs

  abbrev pub last_of : ℕ → List (ℕ × A) → ℕ
  last_of d [] = d
  last_of d ((a, x) ∷ cs) = last_of a cs

  -- A list object whose nodes are those of the list, each at its own address, with the last node
  -- and the count that belong to them.
  pub record IsList (s : Store A) (cs : List (ℕ × A)) : Type 0 where
    pub chain : Segment s.nodes s.list.first 0 cs
    pub distinct : Distinct cs
    pub last : s.list.last ≡ last_of 0 cs
    pub count : s.list.count ≡ length cs

  -- A node that is set elsewhere.
  pub Segment-set_node :
      (nodes : ℕ → Option (LinkedListNodeType A)) (a : ℕ) (content : Option (LinkedListNodeType A))
      (p q : ℕ) (cs : List (ℕ × A))
      → Away a cs
      → Segment nodes p q cs
      → Segment (set_node nodes a content) p q cs
  Segment-set_node nodes a content p q [] away chain = chain
  Segment-set_node nodes a content p q ((b, x) ∷ cs) away (at, some_node, n, here, behind) =
      let miss : (b == a) ≡ false = ground (arith, away.0) in
      (at, some_node, n, rw miss here, Segment-set_node nodes a content n q cs away.1 behind)

  pub last_of-Away : (a b : ℕ) (cs : List (ℕ × A)) → b ≢ a → Away a cs → last_of b cs ≢ a
  last_of-Away a b [] ne away = ne
  last_of-Away a b ((c, x) ∷ cs) ne away = last_of-Away a c cs away.0 away.1

  pub last_of-nonzero :
      (nodes : ℕ → Option (LinkedListNodeType A)) (d p q : ℕ) (cs : List (ℕ × A))
      → d ≢ 0
      → Segment nodes p q cs
      → last_of d cs ≢ 0
  last_of-nonzero nodes d p q [] ne chain = ne
  last_of-nonzero nodes d p q ((b, x) ∷ cs) ne (at, some_node, n, here, behind) =
      last_of-nonzero nodes b n q cs some_node behind
