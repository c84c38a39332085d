-- ===== src/Container/Shift.antt =====
-- A container that moves by whole pages keeps its pages and its rests.
use native.Mathlib.Nat.{one-le-pow}
use vcmalloc_bench.Base.{ℕ, ◌+◌, ◌*◌, ◌^◌, ◌≡◌, sym, arith, Bool, true, false}
use vcmalloc_bench.Container.{
  next_address, mapping_address, next_mapping_address, nbr_of_pages, guest_bytes, prior_free_bytes,
}
use vcmalloc_bench.Container.Layout.{
  IsCeiling, IsCeiling-unique, Fits, Fits-Layout, mapping_address-IsCeiling,
  next_mapping_address-IsCeiling, multiple-le,
}

-- Up or down by a distance.
abbrev pub Shift : Bool → (distance a a' : ℕ) → Type 0
Shift true d a a' = a' ≡ a + d
Shift false d a a' = a ≡ a' + d

pub Shift-unique : (up : Bool) (d a b b' : ℕ) → Shift up d a b → Shift up d a b' → b ≡ b'
Shift-unique true d a b b' e f = omega (arith, e, f)
Shift-unique false d a b b' e f = omega (arith, e, f)

-- The ends of two containers of the same size.
pub next_address-Shift :
    (up : Bool) (s d r r' ts n : ℕ)
    → Fits s r ts n
    → Fits s r' ts n
    → Shift up d r r'
    → Shift up d (next_address r ts n) (next_address r' ts n)
next_address-Shift true s d r r' ts n f f' e =
    omega (arith, e, (Fits-Layout f).next, (Fits-Layout f').next)
next_address-Shift false s d r r' ts n f f' e =
    omega (arith, e, (Fits-Layout f).next, (Fits-Layout f').next)

IsCeiling-add : (p k a b a' : ℕ) → a' ≡ a + k * p → IsCeiling p a b → IsCeiling p a' (b + k * p)
IsCeiling-add p k a b a' e c = record {
  multiple = c.multiple + k;
  exact = omega (arith, c.exact);
  above = omega (arith, c.above);
  near = omega (arith, c.near);
}

-- The two measures of a container that a move by pages keeps.
abbrev SameRests : (s r r' ts n : ℕ) → Type 0
SameRests s r r' ts n =
    (nbr_of_pages s r' ts n ≡ nbr_of_pages s r ts n)
    × (guest_bytes s r' ts n ≡ guest_bytes s r ts n)

module _ (s k ts n : ℕ) where
  raised :
      (r : ℕ) → Fits s r ts n → Fits s (r + k * 2 ^ s) ts n → SameRests s r (r + k * 2 ^ s) ts n
  raised r f f' =
      let pos = one-le-pow s 2 (omega arith) in
      let l = Fits-Layout f in
      let l' = Fits-Layout f' in
      let first : mapping_address s (r + k * 2 ^ s) ≡ mapping_address s r + k * 2 ^ s =
        IsCeiling-unique (mapping_address-IsCeiling f') (
          IsCeiling-add (2 ^ s) k r (mapping_address s r) (r + k * 2 ^ s) (omega arith)
            (mapping_address-IsCeiling f)) in
      let last : next_mapping_address s (r + k * 2 ^ s) ts n
          ≡ next_mapping_address s r ts n + k * 2 ^ s =
        IsCeiling-unique (next_mapping_address-IsCeiling f') (
          IsCeiling-add (2 ^ s) k (r + ts * n) (next_mapping_address s r ts n)
            (r + k * 2 ^ s + ts * n) (omega arith) (next_mapping_address-IsCeiling f)) in
      let prior : prior_free_bytes s (r + k * 2 ^ s) ≡ prior_free_bytes s r =
        omega (arith, first, l.mapped, l'.mapped) in
      let guest : guest_bytes s (r + k * 2 ^ s) ts n ≡ guest_bytes s r ts n =
        omega (arith, last, l.mapped_end, l'.mapped_end, l.next, l'.next) in
      let le =
        multiple-le (nbr_of_pages s (r + k * 2 ^ s) ts n) (nbr_of_pages s r ts n) (2 ^ s)
          (omega (arith, prior, guest, l.balance, l'.balance)) in
      let ge =
        multiple-le (nbr_of_pages s r ts n) (nbr_of_pages s (r + k * 2 ^ s) ts n) (2 ^ s)
          (omega (arith, prior, guest, l.balance, l'.balance)) in
      (omega arith, guest)

  pub Shift-SameRests :
      (up : Bool) (r r' : ℕ)
      → Shift up (k * 2 ^ s) r r'
      → Fits s r ts n
      → Fits s r' ts n
      → SameRests s r r' ts n
  Shift-SameRests true r r' e f f' = rw e (raised r f (rw e at f'))
  Shift-SameRests false r r' e f f' =
      let same = raised r' f' (rw e at f) in rw e (sym same.0, sym same.1)
