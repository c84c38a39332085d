-- ===== src/LinkedList/Placed.antt =====
-- A list with an item at its place, and the search for that place in insert of an ordered list.
use vcmalloc_bench.Base.{
  ℕ, zero, suc, ◌+◌, ◌<◌, ◌≡◌, ◌≢◌, refl, sym, ◌∙◌, arith, Bool, true, false, some, List, [], ◌∷◌,
  length, ◌==◌, if◌then◌else◌, inl, inr, Bool-cases,
}
use vcmalloc_bench.Machine.Run.{ok}
use vcmalloc_bench.LinkedList.{Store, set_node, load}
use vcmalloc_bench.LinkedList.Ordered.{position}
use vcmalloc_bench.LinkedList.Segment.{Segment, Away, Distinct, last_of, Segment-set_node}
use vcmalloc_bench.LinkedList.Insert.{same_address, other_address}

-- The list with the item before the first one that is not below it.
unfoldable pub placed : {A : Type 0} → (A → A → Bool) → A → ℕ → List (ℕ × A) → List (ℕ × A)
placed ge item addr [] = (addr, item) ∷ []
placed ge item addr ((a, x) ∷ cs) =
    if ge x item then (addr, item) ∷ (a, x) ∷ cs else (a, x) ∷ placed ge item addr cs

-- No item is above the one behind it.
abbrev pub Sorted : {A : Type 0} → (A → A → Bool) → List (ℕ × A) → Type 0
Sorted ge [] = Unit
Sorted ge ((a, x) ∷ []) = Unit
Sorted ge ((a, x) ∷ (b, y) ∷ cs) = (ge y x ≡ true) × Sorted ge ((b, y) ∷ cs)

module _ {A : Type 0} (ge : A → A → Bool) (item : A) (addr : ℕ) where
  pub Away-placed :
      (z : ℕ) (cs : List (ℕ × A)) → addr ≢ z → Away z cs → Away z (placed ge item addr cs)
  unfolding placed
  Away-placed z [] ne away = (ne, tt)
  Away-placed z ((a, x) ∷ cs) ne away = elim (Bool-cases (ge x item)) [
    | inl here ↦ rw here (ne, away)
    | inr later ↦ rw later (away.0, Away-placed z cs ne away.1)
  ]

  pub Distinct-placed :
      (cs : List (ℕ × A)) → Away addr cs → Distinct cs → Distinct (placed ge item addr cs)
  unfolding placed
  Distinct-placed [] away is = (tt, tt)
  Distinct-placed ((a, x) ∷ cs) away is = elim (Bool-cases (ge x item)) [
    | inl here ↦ rw here (away, is)
    | inr later ↦
        rw later (Away-placed a cs (λ e. away.0 (sym e)) is.0, Distinct-placed cs away.1 is.1)
  ]

  pub length-placed : (cs : List (ℕ × A)) → length (placed ge item addr cs) ≡ length cs + 1
  unfolding placed
  length-placed [] = refl
  length-placed ((a, x) ∷ cs) = elim (Bool-cases (ge x item)) [
    | inl here ↦ rw here (omega arith)
    | inr later ↦ rw later (omega (arith, length-placed cs))
  ]

  module _ (total : (x y : A) → ge x y ≡ false → ge y x ≡ true) where
    behind_item :
        (a : ℕ) (x : A) (cs : List (ℕ × A))
        → ge x item ≡ false
        → Sorted ge ((a, x) ∷ cs)
        → Sorted ge (placed ge item addr cs)
        → Sorted ge ((a, x) ∷ placed ge item addr cs)
    unfolding placed
    behind_item a x [] later is rest = (total x item later, tt)
    behind_item a x ((b, y) ∷ cs) later is rest = elim (Bool-cases (ge y item)) [
      | inl here ↦ rw here (total x item later, rw here at rest)
      | inr on ↦ rw on (is.0, rw on at rest)
    ]

    tail : (a : ℕ) (x : A) (cs : List (ℕ × A)) → Sorted ge ((a, x) ∷ cs) → Sorted ge cs
    tail a x [] is = tt
    tail a x ((b, y) ∷ cs) is = is.1

    pub Sorted-placed : (cs : List (ℕ × A)) → Sorted ge cs → Sorted ge (placed ge item addr cs)
    unfolding placed
    Sorted-placed [] is = tt
    Sorted-placed ((a, x) ∷ cs) is = elim (Bool-cases (ge x item)) [
      | inl here ↦ rw here (here, is)
      | inr later ↦ rw later (behind_item a x cs later is (Sorted-placed cs (tail a x cs is)))
    ]

  module _ (s : Store A) (some_addr : addr ≢ 0) where
    -- The search behind the node `b` ends at a place, and the nodes with the item there spell the
    -- list with the item at its place.
    pub record Spot (fuel b : ℕ) (y : A) (n : ℕ) (cs : List (ℕ × A)) : Type 0 where
      pub trail : ℕ
      pub current : ℕ
      pub held : A
      pub walked : position ge fuel b n item s ≡ ok (trail, current) s
      pub before : s.nodes trail ≡ some (record { info = held; link = current })
      pub chain :
          Segment
            (set_node
              (set_node s.nodes trail (some (record { info = held; link = addr })))
              addr
              (some (record { info = item; link = current })))
            b
            0
            ((b, y) ∷ placed ge item addr cs)
      pub last : (if current == 0 then addr else last_of b cs) ≡ last_of b (placed ge item addr cs)
      pub trail_inside : (z : ℕ) → b ≢ z → Away z cs → trail ≢ z
      pub inside : (z : ℕ) → z ≢ 0 → Away z cs → current ≢ z

    pub walk :
        (fuel b : ℕ) (y : A) (n : ℕ) (cs : List (ℕ × A))
        → length cs < fuel
        → b ≢ 0
        → s.nodes b ≡ some (record { info = y; link = n })
        → Away b cs
        → Distinct cs
        → Away addr ((b, y) ∷ cs)
        → Segment s.nodes n 0 cs
        → Spot fuel b y n cs
    unfolding position placed
    walk zero b y n cs lt some_b top away distinct fresh chain = absurd (omega arith)
    walk (suc fuel) b y n [] lt some_b top away distinct fresh chain = record {
      trail = b;
      current = n;
      held = y;
      walked = rw chain refl;
      before = top;
      chain = (
        refl,
        some_b,
        addr,
        rw (other_address b addr fresh.0, same_address b) refl,
        (refl, some_addr, n, rw (same_address addr) refl, chain),
      );
      last = rw chain refl;
      trail_inside = λ z ne far. ne;
      inside = λ z ne far e. ne (sym e ∙ chain);
    }
    walk (suc fuel) b y n ((a, x) ∷ cs) lt some_b top away distinct fresh
          (at, ne, m, node, behind) =
        elim (Bool-cases (ge x item)) [
          | inl here ↦ record {
            trail = b;
            current = n;
            held = y;
            walked = rw (at, other_address a 0 ne) (rw (node, load) (rw here refl));
            before = top;
            chain = rw here (
              refl,
              some_b,
              addr,
              rw (other_address b addr fresh.0, same_address b) refl,
              (
                refl,
                some_addr,
                n,
                rw (same_address addr) refl,
                (
                  at,
                  ne,
                  m,
                  rw (other_address a addr fresh.1.0, other_address a b away.0) node,
                  Segment-set_node _ addr _ m 0 cs fresh.1.1
                      (Segment-set_node s.nodes b _ m 0 cs away.1 behind),
                ),
              ),
            );
            last = rw here (rw (at, other_address a 0 ne) refl);
            trail_inside = λ z off far. off;
            inside = λ z off far e. far.0 (sym at ∙ e);
          }
          | inr on ↦
              let h =
                walk fuel a x m cs (omega arith) ne node distinct.0 distinct.1 fresh.1 behind in
              let off = h.trail_inside b away.0 away.1 in
              record {
                trail = h.trail;
                current = h.current;
                held = h.held;
                walked = rw (at, other_address a 0 ne) (rw (node, load) (rw on h.walked));
                before = h.before;
                chain = rw on (
                  refl,
                  some_b,
                  n,
                  rw (other_address b addr fresh.0, other_address b h.trail (λ e. off (sym e))) top,
                  (at, h.chain.1, h.chain.2, h.chain.3, h.chain.4),
                );
                last = rw on h.last;
                trail_inside = λ z away_b far. h.trail_inside z far.0 far.1;
                inside = λ z some_z far. h.inside z some_z far.1;
              }
        ]
