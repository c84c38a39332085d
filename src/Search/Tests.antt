-- ===== src/Search/Tests.antt =====
-- The search on small arrays.
use vcmalloc_bench.Base.{ℕ, List, [], ◌∷◌, ◌≡◌, refl, some, sub64, add64, is_negative}
use vcmalloc_bench.Search.{found, missing, fault, out_of_fuel, msb_loop, msb, binary_search}

abbrev table : List ℕ
table = 10 ∷ 20 ∷ 30 ∷ 40 ∷ 50 ∷ 60 ∷ 70 ∷ []

msb_values : (msb 0 ≡ some 0) × (msb 1 ≡ some 1) × (msb 6 ≡ some 4) × (msb 8 ≡ some 8)
unfolding msb msb_loop
msb_values = (refl, refl, refl, refl)

search_hits :
    (binary_search 7 table 10 ≡ found 0)
    × (binary_search 7 table 40 ≡ found 3)
    × (binary_search 7 table 70 ≡ found 6)
    × (binary_search 7 table 45 ≡ missing)
    × (binary_search 7 table 75 ≡ missing)
unfolding msb msb_loop binary_search sub64 add64 is_negative
search_hits = (refl, refl, refl, refl, refl)

search_below : binary_search 7 table 5 ≡ fault
unfolding msb msb_loop binary_search sub64 add64 is_negative
search_below = refl

search_empty : binary_search 0 [] 5 ≡ out_of_fuel
unfolding msb msb_loop binary_search sub64 add64 is_negative
search_empty = refl
