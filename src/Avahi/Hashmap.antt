-- ===== src/Avahi/Hashmap.antt =====
-- QtZeroConf/avahi-core/hashmap.c: a hash table of 123 buckets whose entries also stand in one
-- list. An entry is an address; `memory` holds the key and the value at each address, so that a
-- change through one of the two lists is seen through the other. Allocation does not fail.
pub mod Refinement
pub mod Operations
pub mod History
pub mod Distinct
pub mod Pairs
pub mod Abstract
use qt_gretio.Prelude.{
  ℕ, ◌+◌, ◌-◌, ◌*◌, ◌%◌, Bool, true, false, ◌&&◌, Option, none, some, List, [], ◌∷◌, ltb, ◌==◌,
  if◌then◌else◌, ℤ, eqb_ℤ, u32_mod, to_u32,
}
use qt_gretio.Avahi.Domain.{char_value}

abbrev pub hash_map_size : ℕ
hash_map_size = 123

-- `freed_keys` and `freed_values` are what the free functions were called with, the newest first.
pub record Hashmap {ℓ} (K V : Type ℓ) : Type ℓ where
  pub memory : ℕ → K × V
  pub next_address : ℕ
  pub entries : ℕ → List ℕ
  pub entries_list : List ℕ
  pub freed_keys : List K
  pub freed_values : List V

-- AVAHI_LLIST_REMOVE.
abbrev pub unlink : ℕ → List ℕ → List ℕ
unlink a [] = []
unlink a (e ∷ es) = let rest = unlink a es in if e == a then rest else e ∷ rest

abbrev pub set_at {ℓ} : {A : Type ℓ} → (ℕ → A) → ℕ → A → ℕ → A
set_at f a x i = if i == a then x else f i

-- `memory` is what stands at the addresses that are not allocated yet.
unfoldable pub new {ℓ} : {K V : Type ℓ} → (ℕ → K × V) → Hashmap K V
new memory = record {
  memory = memory;
  next_address = 0;
  entries = λ idx. [];
  entries_list = [];
  freed_keys = [];
  freed_values = [];
}

abbrev pub index_of {ℓ} : {K : Type ℓ} → (K → ℕ) → K → ℕ
index_of hash_func key = hash_func key % hash_map_size

abbrev pub key_at {ℓ} : {K V : Type ℓ} → Hashmap K V → ℕ → K
key_at m e = (m.memory e).0

abbrev pub value_at {ℓ} : {K V : Type ℓ} → Hashmap K V → ℕ → V
value_at m e = (m.memory e).1

module _ {ℓ} {K V : Type ℓ} (hash_func : K → ℕ) (equal_func : K → K → Bool) where
  -- The loop of `entry_get` over a bucket.
  unfoldable pub find_entry : Hashmap K V → K → List ℕ → Option ℕ
  find_entry m key [] = none
  find_entry m key (e ∷ es) =
      let rest = find_entry m key es in if equal_func key (key_at m e) then some e else rest

  unfoldable pub entry_get : Hashmap K V → K → Option ℕ
  entry_get m key = find_entry m key (m.entries (index_of hash_func key))

  unfoldable pub entry_free : Hashmap K V → ℕ → Bool → Hashmap K V
  entry_free m e stolen =
      let idx = index_of hash_func (key_at m e) in
      record m {
        entries = set_at m.entries idx (unlink e (m.entries idx));
        entries_list = unlink e m.entries_list;
        freed_keys = key_at m e ∷ m.freed_keys;
        freed_values = if stolen then m.freed_values else value_at m e ∷ m.freed_values;
      }

  -- `avahi_hashmap_free`: the entries are freed from the front of the list.
  unfoldable pub free_loop : List ℕ → Hashmap K V → Hashmap K V
  free_loop [] m = m
  free_loop (e ∷ es) m = free_loop es (entry_free m e false)

  unfoldable pub free : Hashmap K V → Hashmap K V
  free m = free_loop m.entries_list m

  unfoldable pub lookup : Hashmap K V → K → Option V
  lookup m key = elim (entry_get m key) [ none ↦ none | some e ↦ some (value_at m e) ]

  -- A new entry in front of both lists.
  unfoldable pub add_entry : Hashmap K V → K → V → Hashmap K V
  add_entry m key value =
      let e = m.next_address in
      let idx = index_of hash_func key in
      record m {
        memory = set_at m.memory e (key, value);
        next_address = e + 1;
        entries_list = e ∷ m.entries_list;
        entries = set_at m.entries idx (e ∷ m.entries idx);
      }

  -- A key that is in the table keeps its value; what was given is freed. The result is 1 then.
  unfoldable pub insert : Hashmap K V → K → V → ℕ × Hashmap K V
  insert m key value = elim (entry_get m key) [
    | none ↦ (0, add_entry m key value)
    | some e ↦
        (1, record m { freed_keys = key ∷ m.freed_keys; freed_values = value ∷ m.freed_values })
  ]

  -- A key that is in the table is replaced along with its value.
  unfoldable pub replace : Hashmap K V → K → V → ℕ × Hashmap K V
  replace m key value = elim (entry_get m key) [
    | none ↦ (0, add_entry m key value)
    | some e ↦ (
      1,
      record m {
        memory = set_at m.memory e (key, value);
        freed_keys = key_at m e ∷ m.freed_keys;
        freed_values = value_at m e ∷ m.freed_values;
      },
    )
  ]

  unfoldable pub remove : Hashmap K V → K → Hashmap K V
  remove m key = elim (entry_get m key) [ none ↦ m | some e ↦ entry_free m e false ]

  -- The next entry is read before the callback, which may remove the present one.
  unfoldable pub foreach_loop :
      List ℕ → (K → V → Hashmap K V → Hashmap K V) → Hashmap K V → Hashmap K V
  foreach_loop [] callback m = m
  foreach_loop (e ∷ es) callback m =
      foreach_loop es callback (callback (key_at m e) (value_at m e) m)

  unfoldable pub foreach : (K → V → Hashmap K V → Hashmap K V) → Hashmap K V → Hashmap K V
  foreach callback m = foreach_loop m.entries_list callback m

-- `hash = 31 * hash + *p`, with a signed char.
abbrev pub signed_char : ℕ → ℕ
signed_char c = if ltb c 128 then c else u32_mod - 256 + c

unfoldable pub string_hash_loop : ℕ → List ℕ → ℕ
string_hash_loop hash [] = hash
string_hash_loop hash (c ∷ s) = string_hash_loop ((31 * hash + signed_char c) % u32_mod) s

unfoldable pub string_hash : List ℕ → ℕ
string_hash s = string_hash_loop 0 s

unfoldable pub string_equal : List ℕ → List ℕ → Bool
string_equal [] [] = true
string_equal (a ∷ s) (b ∷ t) = a == b && string_equal s t
string_equal _ _ = false

-- The keys point to ints, of 32 bits.
unfoldable pub int_hash : ℤ → ℕ
int_hash i = to_u32 i

unfoldable pub int_equal : ℤ → ℤ → Bool
int_equal a b = eqb_ℤ a b
