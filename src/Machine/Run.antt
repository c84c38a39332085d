-- ===== src/Machine/Run.antt =====
-- Commands over a state: they end with a value, throw one of the strings of vcmalloc.h, run into
-- undefined behaviour, or exceed the fuel of a loop.
use vcmalloc_bench.Base.{Bool, true, false}

-- A constructor for each failure that is thrown; ContainerRealloc and ContainerRealloc2 share those
-- of the same meaning, as do their two branches.
pub data Error : Type 0 where
  pfns_array_space : Error
  containers_space : Error
  manager_space : Error
  privileges : Error
  container_not_found : Error
  frames_unavailable : Error
  frames_incomplete : Error
  map_failed : Error
  structure_not_found : Error
  copy_failed : Error
  free_failed : Error
  free_incomplete : Error
  unmap_failed : Error
  remap_failed : Error
  extra_frames_failed : Error
  extra_frames_incomplete : Error
  array_free_failed : Error
  free_container_not_found : Error
  release_frames_failed : Error
  release_frames_incomplete : Error
  release_failed : Error
  release_space_failed : Error

pub data Run (S A : Type 0) : Type 0 where
  ok : A → S → Run S A
  throw : Error → S → Run S A
  fault : Run S A
  out_of_fuel : Run S A

abbrev pub Cmd : Type 0 → Type 0 → Type 0
Cmd S A = S → Run S A

abbrev pub pure : {S A : Type 0} → A → Cmd S A
pure = ok

module _ {S A B : Type 0} where
  abbrev pub and_then : Run S A → (A → Cmd S B) → Run S B
  and_then (ok a s) k = k a s
  and_then (throw e s) k = throw e s
  and_then fault k = fault
  and_then out_of_fuel k = out_of_fuel

  infixl 5 ◌>>=◌ ◌>>◌
  abbrev pub ◌>>=◌ : Cmd S A → (A → Cmd S B) → Cmd S B
  m >>= k = λ s. and_then (m s) k

  abbrev pub ◌>>◌ : Cmd S A → Cmd S B → Cmd S B
  m >> n = m >>= λ _. n

abbrev pub get : {S : Type 0} → Cmd S S
get s = ok s s

abbrev pub put : {S : Type 0} → S → Cmd S (Unit {0})
put t s = ok tt t

-- `if (!test) throw e;`
abbrev pub check : {S : Type 0} → Bool → Error → Cmd S (Unit {0})
check true e s = ok tt s
check false e s = throw e s

abbrev pub failed : {S A : Type 0} → Cmd S A
failed s = fault
