-- ===== src/LinkedList/Without.antt =====
-- A list without a node, and the search for the node in deleteNode of an unordered list.
use vcmalloc_bench.Base.{
  ℕ, zero, suc, ◌+◌, ◌<◌, ◌≡◌, ◌≢◌, refl, sym, ap, ◌∙◌, arith, Bool, true, false, some, none, List,
  [], ◌∷◌, length, ◌==◌, if◌then◌else◌, ◌⊎◌, inl, inr, Bool-cases,
}
use vcmalloc_bench.Machine.Run.{ok}
use vcmalloc_bench.LinkedList.{Store, set_node, load}
use vcmalloc_bench.LinkedList.Unordered.{find_node}
use vcmalloc_bench.LinkedList.Segment.{
  Segment, Away, Distinct, last_of, Segment-set_node, last_of-Away,
}
use vcmalloc_bench.LinkedList.Insert.{same_address, other_address}

-- The list without the first node that has the item.
unfoldable pub without : {A : Type 0} → (A → A → Bool) → List (ℕ × A) → A → List (ℕ × A)
without eq [] item = []
without eq ((a, x) ∷ cs) item = if eq x item then cs else (a, x) ∷ without eq cs item

module _ {A : Type 0} (eq : A → A → Bool) (item : A) where
  pub Away-without : (z : ℕ) (cs : List (ℕ × A)) → Away z cs → Away z (without eq cs item)
  unfolding without
  Away-without z [] away = tt
  Away-without z ((a, x) ∷ cs) away = elim (Bool-cases (eq x item)) [
    | inl hit ↦ rw hit away.1
    | inr miss ↦ rw miss (away.0, Away-without z cs away.1)
  ]

  pub Distinct-without : (cs : List (ℕ × A)) → Distinct cs → Distinct (without eq cs item)
  unfolding without
  Distinct-without [] is = tt
  Distinct-without ((a, x) ∷ cs) is = elim (Bool-cases (eq x item)) [
    | inl hit ↦ rw hit is.1
    | inr miss ↦ rw miss (Away-without a cs is.0, Distinct-without cs is.1)
  ]

  -- The last node, when the node behind `b` is taken out.
  last_lem :
      (b a : ℕ) (cs : List (ℕ × A))
      → Away a cs
      → (if last_of a cs == a then b else last_of a cs) ≡ last_of b cs
  last_lem b a [] away = rw (same_address a) refl
  last_lem b a ((c, x) ∷ cs) away =
      rw (other_address (last_of c cs) a (last_of-Away a c cs away.0 away.1)) refl

  module _ (s : Store A) where
    -- The search behind the node `b` finds no node with the item.
    abbrev pub Missing : (fuel b n : ℕ) → List (ℕ × A) → Type 0
    Missing fuel b n cs = (find_node eq fuel b n item s ≡ ok none s) × (without eq cs item ≡ cs)

    -- It finds one, and the nodes without that spell the list without it.
    pub record Hit (fuel b : ℕ) (y : A) (n : ℕ) (cs : List (ℕ × A)) : Type 0 where
      pub trail : ℕ
      pub current : ℕ
      pub held : A
      pub info : A
      pub next : ℕ
      pub walked : find_node eq fuel b n item s ≡ ok (some (trail, current)) s
      pub before : s.nodes trail ≡ some (record { info = held; link = current })
      pub here : s.nodes current ≡ some (record { info = info; link = next })
      pub apart : current ≢ trail
      pub trail_inside : (z : ℕ) → b ≢ z → Away z cs → trail ≢ z
      pub inside : (z : ℕ) → Away z cs → current ≢ z
      pub only : (z : ℕ) → Away z (without eq cs item) → current ≢ z → Away z cs
      pub chain :
          Segment
            (set_node
              (set_node s.nodes trail (some (record { info = held; link = next })))
              current
              none)
            b
            0
            ((b, y) ∷ without eq cs item)
      pub last :
          (if last_of b cs == current then trail else last_of b cs) ≡ last_of b (without eq cs item)
      pub count : length cs ≡ length (without eq cs item) + 1

    module _ (fuel b : ℕ) (y : A) (n : ℕ) (some_b : b ≢ 0)
        (top : s.nodes b ≡ some (record { info = y; link = n })) (a : ℕ) (x : A) (cs : List (ℕ × A))
        (away : Away b ((a, x) ∷ cs)) (distinct : Distinct ((a, x) ∷ cs)) (at : n ≡ a)
        (some_a : a ≢ 0) (m : ℕ) (node : s.nodes a ≡ some (record { info = x; link = m })) where
      at_once : Segment s.nodes m 0 cs → eq x item ≡ true → Hit (suc fuel) b y n ((a, x) ∷ cs)
      unfolding find_node without
      at_once behind hit = record {
        trail = b;
        current = a;
        held = y;
        info = x;
        next = m;
        walked = rw (at, other_address a 0 some_a) (rw (node, load) (rw hit refl));
        before = top ∙ ap (λ (k : ℕ). some (record { info = y; link = k })) at;
        here = node;
        apart = away.0;
        trail_inside = λ z ne far. ne;
        inside = λ z far. far.0;
        only = λ z far ne. (ne, rw hit at far);
        chain = rw hit (
          refl,
          some_b,
          m,
          rw (other_address b a (λ e. away.0 (sym e)), same_address b) refl,
          Segment-set_node _ a none m 0 cs distinct.0
              (Segment-set_node s.nodes b _ m 0 cs away.1 behind),
        );
        last = rw hit (last_lem b a cs distinct.0);
        count = rw hit (omega arith);
      }

      later : eq x item ≡ false → Hit fuel a x m cs → Hit (suc fuel) b y n ((a, x) ∷ cs)
      unfolding find_node without
      later miss h =
          let far_trail = h.trail_inside b away.0 away.1 in
          let far = h.inside b away.1 in
          record {
            trail = h.trail;
            current = h.current;
            held = h.held;
            info = h.info;
            next = h.next;
            walked = rw (at, other_address a 0 some_a) (rw (node, load) (rw miss h.walked));
            before = h.before;
            here = h.here;
            apart = h.apart;
            trail_inside = λ z ne away'. h.trail_inside z away'.0 away'.1;
            inside = λ z away'. h.inside z away'.1;
            only = λ z away' ne. let both = rw miss at away' in (both.0, h.only z both.1 ne);
            chain = rw miss (
              refl,
              some_b,
              n,
              rw
                  (
                    other_address b h.current (λ e. far (sym e)),
                    other_address b h.trail (λ e. far_trail (sym e)),
                  )
                  top,
              (at, h.chain.1, h.chain.2, h.chain.3, h.chain.4),
            );
            last = rw miss h.last;
            count = rw miss (omega (arith, h.count));
          }

      not_there : eq x item ≡ false → Missing fuel a m cs → Missing (suc fuel) b n ((a, x) ∷ cs)
      unfolding find_node without
      not_there miss (e, same) = (
        rw (at, other_address a 0 some_a) (rw (node, load) (rw miss e)),
        rw miss (ap (◌∷◌ (a, x)) same),
      )

    pub walk :
        (fuel b : ℕ) (y : A) (n : ℕ) (cs : List (ℕ × A))
        → length cs < fuel
        → b ≢ 0
        → s.nodes b ≡ some (record { info = y; link = n })
        → Away b cs
        → Distinct cs
        → Segment s.nodes n 0 cs
        → Missing fuel b n cs ⊎ Hit fuel b y n cs
    unfolding find_node without
    walk zero b y n cs lt some_b top away distinct chain = absurd (omega arith)
    walk (suc fuel) b y n [] lt some_b top away distinct chain = inl (rw chain refl, refl)
    walk (suc fuel) b y n ((a, x) ∷ cs) lt some_b top away distinct (at, ne, m, node, behind) =
        elim (Bool-cases (eq x item)) [
          | inl hit ↦
              inr (at_once fuel b y n some_b top a x cs away distinct at ne m node behind hit)
          | inr miss ↦
              elim (walk fuel a x m cs (omega arith) ne node distinct.0 distinct.1 behind) [
                | inl none_there ↦ inl (
                    not_there fuel b y n some_b top a x cs away distinct at ne m node miss
                      none_there)
                | inr h ↦ inr (later fuel b y n some_b top a x cs away distinct at ne m node miss h)
              ]
        ]
