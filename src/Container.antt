-- ===== src/Container.antt =====
-- struct ContainerContext of libs_src/vcmalloc.h: a container's place in its hyper-container, as
-- arithmetic on 64-bit addresses. `s` is the page shift, `r` the address that `reference_` refers
-- to, `ts` the size of an element, `n` the number of elements.
pub mod Masks
pub mod Layout
pub mod Shift
use Prim.Native.Nat.{bit_and}
use vcmalloc_bench.Base.{ℕ, ◌-◌, ◌/◌, ◌^◌, ◌==◌, if◌then◌else◌, w64, add64, sub64, mul64}

-- `reference_` is a C++ reference to the user's pointer variable, here the number of that variable.
pub record ContainerContext : Type 0 where
  pub reference : ℕ
  pub type_size : ℕ
  pub elements_num : ℕ

abbrev pub page_size : ℕ → ℕ
page_size s = 2 ^ s

-- `a & (page_size - 1)`
unfoldable pub page_offset : ℕ → ℕ → ℕ
page_offset s a = bit_and a (sub64 (page_size s) 1)

-- `a & ~(page_size - 1)`
unfoldable pub page_base : ℕ → ℕ → ℕ
page_base s a = bit_and a (w64 - 1 - sub64 (page_size s) 1)

unfoldable pub mapping_address : (s r : ℕ) → ℕ
mapping_address s r = if page_offset s r == 0 then r else add64 (page_base s r) (page_size s)

unfoldable pub next_address : (r ts n : ℕ) → ℕ
next_address r ts n = add64 r (mul64 ts n)

unfoldable pub last_page_offset : (s r ts n : ℕ) → ℕ
last_page_offset s r ts n = page_offset s (next_address r ts n)

unfoldable pub next_mapping_address : (s r ts n : ℕ) → ℕ
next_mapping_address s r ts n =
    if page_offset s (next_address r ts n) == 0
    then next_address r ts n
    else add64 (page_base s (next_address r ts n)) (page_size s)

unfoldable pub nbr_of_pages : (s r ts n : ℕ) → ℕ
nbr_of_pages s r ts n = sub64 (next_mapping_address s r ts n) (mapping_address s r) / page_size s

unfoldable pub guest_bytes : (s r ts n : ℕ) → ℕ
guest_bytes s r ts n = sub64 (next_mapping_address s r ts n) (next_address r ts n)

unfoldable pub prior_free_bytes : (s r : ℕ) → ℕ
prior_free_bytes s r = sub64 (mapping_address s r) r
