-- ===== src/Avahi/Hashmap/Abstract.antt =====
-- The table as an abstract list of pairs: every operation is one of that list, so that a history of
-- calls is a history of the list.
use qt_gretio.Prelude.{ℕ, Bool}
use qt_gretio.Avahi.Hashmap.{Hashmap}
use qt_gretio.Avahi.Hashmap.Refinement.{Agrees}
use qt_gretio.Avahi.Hashmap.Distinct.{Distinct}

module _ {K V : Type 0} (hash_func : K → ℕ) (equal_func : K → K → Bool) where
  -- The entries of a table are distinct addresses.
  abbrev pub IsSane : Hashmap K V → Type 0
  IsSane m = Agrees hash_func equal_func m × Distinct m.entries_list
