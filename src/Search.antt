-- ===== src/Search.antt =====
-- struct Search and Distance of libs_src/vcmalloc.h: the search for an address in an ascending
-- array of addresses. The array is the list of the addresses that `Distance` reads through its
-- first argument; a read outside it is undefined behaviour, the outcome `fault`.
pub mod Msb
pub mod Down
pub mod Up
pub mod Linear
pub mod Below
mod Tests
use vcmalloc_bench.Base.{
  ℕ, zero, suc, ◌-◌, ◌*◌, ◌/◌, ◌%◌, Bool, true, false, Option, none, some, List, leb, ◌==◌,
  if◌then◌else◌, get_elem?, w64, add64, sub64, is_negative,
}

-- What `binarySearch` does: it returns an index, it returns -1, it reads outside the array, or it
-- needs more rounds than the fuel.
pub data Answer : Type 0 where
  found : ℕ → Answer
  missing : Answer
  fault : Answer
  out_of_fuel : Answer

-- `while (msb <= n) msb <<= 1;`, and `none` where the fuel runs out.
unfoldable pub msb_loop : ℕ → ℕ → ℕ → Option ℕ
msb_loop zero n m = none
msb_loop (suc fuel) n m =
    let rest = msb_loop fuel n (m * 2 % w64) in if leb m n then rest else some m

-- `MSB`: 64 rounds are enough for every n below 2 ^ 63, and no number of rounds is for the others.
unfoldable pub msb : ℕ → Option ℕ
msb n = elim (msb_loop 64 n 1) [ none ↦ none | some m ↦ some (m / 2) ]

-- `Distance(pointer, index, elem)` as a bit pattern of an INT64; `none` is a read out of bounds.
abbrev pub distance : List ℕ → ℕ → ℕ → Option ℕ
distance xs index elem = elim (get_elem? xs index) [ none ↦ none | some a ↦ some (sub64 a elem) ]

-- The second loop of `binarySearch`.
pub down_loop : ℕ → List ℕ → ℕ → ℕ → ℕ → Answer
down_loop zero xs elem index step = out_of_fuel
down_loop (suc fuel) xs elem index step = elim (distance xs index elem) [
  | none ↦ fault
  | some diff ↦
      let index' = if is_negative diff then add64 index step else sub64 index step in
      let rest = down_loop fuel xs elem index' (step / 2) in
      if diff == 0 then found index else if step == 0 then missing else rest
]

-- The first loop of `binarySearch`, and the second one behind it.
pub up_loop : ℕ → List ℕ → ℕ → ℕ → ℕ → ℕ → Answer
unfolding down_loop
up_loop zero xs elem max index step = out_of_fuel
up_loop (suc fuel) xs elem max index step = elim (distance xs index elem) [
  | none ↦ fault
  | some diff ↦ elim (is_negative diff) [
    | false ↦ down_loop 66 xs elem index step
    | true ↦ elim (msb (sub64 max index)) [
      | none ↦ out_of_fuel
      | some m ↦
          let rest = up_loop fuel xs elem max (add64 index m) m in if m == 0 then missing else rest
    ]
  ]
]

-- `binarySearch(max, pointer, elem)`, with as many rounds of the first loop as there are elements.
unfoldable pub binary_search : ℕ → List ℕ → ℕ → Answer
unfolding up_loop
binary_search max xs elem =
    let top = sub64 max 1 in
    elim (msb top) [ none ↦ out_of_fuel | some m ↦ up_loop max xs elem top m m ]
