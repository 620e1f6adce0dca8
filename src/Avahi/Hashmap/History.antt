-- ===== src/Avahi/Hashmap/History.antt =====
-- Tables that are built by a history of calls.
use qt_gretio.Prelude.{
  ℕ, ◌≡◌, refl, sym, ◌∙◌, ◌↔◌, inl, inr, Bool, true, false, none, some, List, [], ◌∷◌, map, arith,
  ◌==◌, Option-cases,
}
use qt_gretio.Avahi.Hashmap.{
  Hashmap, set_at, new, entry_get, lookup, add_entry, insert, replace, remove, free,
}
use qt_gretio.Avahi.Hashmap.Refinement.{contents, find_pair, AllBelow, Agrees, new-Agrees}
use qt_gretio.Avahi.Hashmap.Operations.{
  insert_pair, free_loop-Agrees, remove-Agrees, insert-Agrees, replace-Agrees, lookup-find_pair,
}

pub data TableCall (K V : Type 0) : Type 0 where
  insert_key : K → V → TableCall K V
  replace_key : K → V → TableCall K V
  remove_key : K → TableCall K V
  free_all : TableCall K V

pub map-set_at :
    {A : Type 0} (memory : ℕ → A) (n : ℕ) (x : A) (es : List ℕ)
    → AllBelow n es
    → map (set_at memory n x) es ≡ map memory es
map-set_at memory n x [] h = refl
map-set_at memory n x (e ∷ es) h =
    let other : (e == n) ≡ false = ground arith in rw (other, map-set_at memory n x es h.1) refl

some_not_none : {A : Type 0} {a : A} → some a ≡ none → ⊥
some_not_none h = cc

one_not_zero : (n : ℕ) → n ≡ 1 → n ≡ 0 → ⊥
one_not_zero n h k = omega arith

module _ {K V : Type 0} (hash_func : K → ℕ) (equal_func : K → K → Bool) where
  unfoldable pub apply : TableCall K V → Hashmap K V → Hashmap K V
  apply (insert_key key value) m = (insert hash_func equal_func m key value).1
  apply (replace_key key value) m = (replace hash_func equal_func m key value).1
  apply (remove_key key) m = remove hash_func equal_func m key
  apply free_all m = free hash_func equal_func m

  unfoldable pub apply_all : List (TableCall K V) → Hashmap K V → Hashmap K V
  apply_all [] m = m
  apply_all (o ∷ os) m = apply_all os (apply o m)

  pub insert_pair-none :
      (key : K) (value : V) (ps : List (K × V))
      → find_pair hash_func equal_func key ps ≡ none
      → insert_pair hash_func equal_func key value ps ≡ (key, value) ∷ ps
  insert_pair-none key value ps h = rw (insert_pair, h) refl

  pub insert_pair-some :
      (key : K) (value v : V) (ps : List (K × V))
      → find_pair hash_func equal_func key ps ≡ some v
      → insert_pair hash_func equal_func key value ps ≡ ps
  insert_pair-some key value v ps h = rw (insert_pair, h) refl

  pub contents-add_entry :
      (m : Hashmap K V) (key : K) (value : V)
      → Agrees hash_func equal_func m
      → contents hash_func equal_func (add_entry hash_func equal_func m key value)
        ≡ (key, value) ∷ contents hash_func equal_func m
  unfolding add_entry
  contents-add_entry m key value h =
      let new_one : (m.next_address == m.next_address) ≡ true = ground arith in
      let rest = map-set_at m.memory m.next_address (key, value) m.entries_list h.allocated in
      rw (new_one, rest) refl

  module _ (respects : (a b : K) → equal_func a b ≡ true → hash_func a ≡ hash_func b) where
    pub apply-Agrees :
        (o : TableCall K V) (m : Hashmap K V)
        → Agrees hash_func equal_func m
        → Agrees hash_func equal_func (apply o m)
    unfolding apply free
    apply-Agrees (insert_key k v) m h = insert-Agrees hash_func equal_func m k v h
    apply-Agrees (replace_key k v) m h = replace-Agrees hash_func equal_func respects m k v h
    apply-Agrees (remove_key k) m h = remove-Agrees hash_func equal_func m k h
    apply-Agrees free_all m h = free_loop-Agrees hash_func equal_func m.entries_list m h

    apply_all-Agrees :
        (os : List (TableCall K V)) (m : Hashmap K V)
        → Agrees hash_func equal_func m
        → Agrees hash_func equal_func (apply_all os m)
    unfolding apply_all
    apply_all-Agrees [] m h = h
    apply_all-Agrees (o ∷ os) m h = apply_all-Agrees os (apply o m) (apply-Agrees o m h)

    -- After every history of calls, if equal keys have one hash, the buckets agree with the list
    -- of the entries, so that looking a key up finds the first pair of that list whose key is
    -- equal to it.
    pub lookup-apply_all :
        (os : List (TableCall K V)) (memory : ℕ → K × V) (key : K)
        → let m = apply_all os (new memory) in
          Agrees hash_func equal_func m
          × (lookup hash_func equal_func m key
              ≡ find_pair hash_func equal_func key (contents hash_func equal_func m))
    lookup-apply_all os memory key =
        let h = apply_all-Agrees os (new memory) (new-Agrees hash_func equal_func memory) in
        (h, lookup-find_pair hash_func equal_func respects (apply_all os (new memory)) key h)

    -- Inserting adds a pair in front of the list if no key there is equal to the new one, and then
    -- returns 0; otherwise it leaves the list alone and returns 1. The table goes on agreeing.
    pub insert-insert_pair :
        (m : Hashmap K V) (key : K) (value : V)
        → Agrees hash_func equal_func m
        → let r = insert hash_func equal_func m key value in
          (contents hash_func equal_func r.1
            ≡ insert_pair hash_func equal_func key value (contents hash_func equal_func m))
          × Agrees hash_func equal_func r.1
          × ((find_pair hash_func equal_func key (contents hash_func equal_func m) ≡ none)
              ↔ (r.0 ≡ 0))
    unfolding insert add_entry lookup
    insert-insert_pair m key value h =
        let found_there = lookup-find_pair hash_func equal_func respects m key h in
        elim (Option-cases (entry_get hash_func equal_func m key)) [
          | inl missing ↦
              let nothing : lookup hash_func equal_func m key ≡ none = rw (lookup, missing) refl in
              let q = sym found_there ∙ nothing in
              (
                rw (insert, missing)
                    (contents-add_entry m key value h
                      ∙ sym (insert_pair-none key value (contents hash_func equal_func m) q)),
                insert-Agrees hash_func equal_func m key value h,
                (λ _. rw (insert, missing) refl, λ _. q),
              )
          | inr (e, found) ↦
              let there : lookup hash_func equal_func m key ≡ some (m.memory e).1 =
                rw (lookup, found) refl in
              let q = sym found_there ∙ there in
              (
                rw (insert, found)
                    (sym (
                      insert_pair-some key value (m.memory e).1 (contents hash_func equal_func m)
                        q)),
                insert-Agrees hash_func equal_func m key value h,
                (
                  λ n. absurd (some_not_none (sym q ∙ n)),
                  λ c. absurd (
                      one_not_zero (insert hash_func equal_func m key value).0
                        (rw (insert, found) refl) c),
                ),
              )
        ]
