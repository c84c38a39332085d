-- ===== src/Container/Layout.antt =====
-- What the members of ContainerContext compute, for a container that ends below the last page of
-- the address space: the container is balanced by whole pages.
use native.Mathlib.Nat.{one-le-pow, div-add-mod', mul-div_left}
use native.Mathlib.Decide.{dec_le}
use vcmalloc_bench.Base.{
  ℕ, ◌+◌, ◌-◌, ◌*◌, ◌/◌, ◌%◌, ◌^◌, ◌≤◌, ◌<◌, ◌≡◌, refl, ap, arith, w64, ◌==◌, if◌then◌else◌, inl,
  inr, Bool-cases, add64, add64-exact, sub64-exact, mul64-exact,
}
use vcmalloc_bench.Container.{
  page_size, page_offset, page_base, mapping_address, next_address, next_mapping_address,
  nbr_of_pages, guest_bytes, prior_free_bytes,
}
use vcmalloc_bench.Container.Masks.{page_offset-mod, page_base-div}

-- `b` is the first multiple of `p` that is not below `a`.
pub record IsCeiling (p a b : ℕ) : Type 0 where
  pub multiple : ℕ
  pub exact : b ≡ multiple * p
  pub above : a ≤ b
  pub near : b < a + p

pub multiple-le : (j k p : ℕ) → j * p < k * p + p → j ≤ k
multiple-le j k p h = elim (dec_le j k) [ yes le ↦ le | no gt ↦ absurd (grind arith) ]

pub multiple-gap : (j k p : ℕ) → j ≤ k → j * p + (k - j) * p ≡ k * p
multiple-gap j k p h =
    let whole : j + (k - j) ≡ k = omega arith in omega (arith, ap (λ (u : ℕ). u * p) whole)

pub IsCeiling-unique : {p a b c : ℕ} → IsCeiling p a b → IsCeiling p a c → b ≡ c
IsCeiling-unique {p} x y =
    let le = multiple-le x.multiple y.multiple p (omega arith) in
    let ge = multiple-le y.multiple x.multiple p (omega arith) in
    let same : x.multiple ≡ y.multiple = omega arith in omega (arith, ap (λ (m : ℕ). m * p) same)

-- Both rounding members have this body.
abbrev round_up : ℕ → ℕ → ℕ
round_up s a = if page_offset s a == 0 then a else add64 (page_base s a) (page_size s)

round_up-IsCeiling : (s a : ℕ) → s < 64 → a + 2 ^ s < w64 → IsCeiling (2 ^ s) a (round_up s a)
round_up-IsCeiling s a h k =
    let pos = one-le-pow s 2 (omega arith) in
    let parts = div-add-mod' a (2 ^ s) in
    rw (page_offset-mod s a h, page_base-div s a h (omega arith))
      (elim (Bool-cases (a % 2 ^ s == 0)) [
        | inl at ↦
            let whole : a % 2 ^ s ≡ 0 = ground arith in
            rw at (record {
              multiple = a / 2 ^ s;
              exact = omega arith;
              above = omega arith;
              near = omega arith;
            })
        | inr off ↦
            let part : 0 < a % 2 ^ s = ground arith in
            rw (off, add64-exact (a / 2 ^ s * 2 ^ s) (2 ^ s) (omega arith))
              (record {
                multiple = a / 2 ^ s + 1;
                exact = omega arith;
                above = omega arith;
                near = omega arith;
              })
      ])

-- The container lies below the last page of the address space.
pub record Fits (s r ts n : ℕ) : Type 0 where
  pub shift : s < 64
  pub room : r + ts * n + 2 ^ s < w64

-- A container that starts at r and ends at r + ts * n: the bytes before its first own page, its
-- own pages, and the bytes of its last page that belong to the next container.
pub record Layout (s r ts n : ℕ) : Type 0 where
  pub next : next_address r ts n ≡ r + ts * n
  pub mapped : mapping_address s r ≡ r + prior_free_bytes s r
  pub mapped_end : next_mapping_address s r ts n ≡ next_address r ts n + guest_bytes s r ts n
  pub prior_lt : prior_free_bytes s r < 2 ^ s
  pub guest_lt : guest_bytes s r ts n < 2 ^ s
  pub balance : prior_free_bytes s r + nbr_of_pages s r ts n * 2 ^ s ≡ ts * n + guest_bytes s r ts n

module _ {s r ts n : ℕ} (f : Fits s r ts n) where
  next_address_lem : next_address r ts n ≡ r + ts * n
  unfolding next_address
  next_address_lem =
      rw (mul64-exact ts n (omega (arith, f.room))) (add64-exact r (ts * n) (omega (arith, f.room)))

  pub mapping_address-IsCeiling : IsCeiling (2 ^ s) r (mapping_address s r)
  unfolding mapping_address
  mapping_address-IsCeiling = round_up-IsCeiling s r f.shift (omega (arith, f.room))

  pub next_mapping_address-IsCeiling :
      IsCeiling (2 ^ s) (r + ts * n) (next_mapping_address s r ts n)
  unfolding next_mapping_address
  next_mapping_address-IsCeiling =
      rw next_address_lem (round_up-IsCeiling s (r + ts * n) f.shift f.room)

  -- The pages between the two multiples.
  nbr_of_pages_lem :
      nbr_of_pages s r ts n * 2 ^ s + mapping_address s r ≡ next_mapping_address s r ts n
  unfolding nbr_of_pages
  nbr_of_pages_lem =
      let pos = one-le-pow s 2 (omega arith) in
      let b = mapping_address-IsCeiling in
      let e = next_mapping_address-IsCeiling in
      let le =
        multiple-le b.multiple e.multiple (2 ^ s)
          (omega (arith, b.exact, b.near, e.exact, e.above)) in
      let gap = multiple-gap b.multiple e.multiple (2 ^ s) le in
      let diff : next_mapping_address s r ts n - mapping_address s r
          ≡ (e.multiple - b.multiple) * 2 ^ s =
        omega (arith, gap, b.exact, e.exact) in
      rw
        (
          sub64-exact (next_mapping_address s r ts n) (mapping_address s r)
              (omega (arith, gap, b.exact, e.exact)) (omega (arith, e.near, f.room)),
          diff,
          mul-div_left (e.multiple - b.multiple) pos,
        )
        (omega (arith, gap, b.exact, e.exact))

  -- For a container below the last page of the address space, the members of ContainerContext are
  -- exact and balanced: its start plus the prior free bytes is the first mapped address, its end
  -- plus the guest bytes the next one, both rests are less than a page, and prior bytes and whole
  -- pages are the container's bytes and the guest's.
  pub Fits-Layout : Layout s r ts n
  unfolding prior_free_bytes guest_bytes
  Fits-Layout =
      let b = mapping_address-IsCeiling in
      let e = next_mapping_address-IsCeiling in
      let prior = sub64-exact (mapping_address s r) r b.above (omega (arith, b.near, f.room)) in
      let guest =
        sub64-exact (next_mapping_address s r ts n) (next_address r ts n)
          (omega (arith, e.above, next_address_lem)) (omega (arith, e.near, f.room)) in
      record {
        next = next_address_lem;
        mapped = omega (arith, prior, b.above);
        mapped_end = omega (arith, guest, e.above, next_address_lem);
        prior_lt = omega (arith, prior, b.near, b.above);
        guest_lt = omega (arith, guest, e.near, e.above, next_address_lem);
        balance = omega (arith, prior, guest, b.above, e.above, next_address_lem, nbr_of_pages_lem);
      }

-- A container that begins where another one ends starts with the other's guest bytes.
pub prior_free_bytes-next :
    (s r ts n : ℕ) → prior_free_bytes s (next_address r ts n) ≡ guest_bytes s r ts n
unfolding prior_free_bytes guest_bytes mapping_address next_mapping_address
prior_free_bytes-next s r ts n = refl
