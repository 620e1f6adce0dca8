-- ===== src/Avahi/Hashmap/Operations.antt =====
-- Every operation keeps the buckets and the list in agreement, and looking up and inserting are
-- those of a list of pairs.
use qt_gretio.Prelude.{
  ℕ, ◌%◌, ◌≡◌, refl, sym, ap, ◌∙◌, subst, inl, inr, Bool, true, false, none, some, List, [], ◌∷◌,
  map, arith, ◌==◌, Bool-cases, Option-cases,
}
use qt_gretio.Avahi.Hashmap.{
  Hashmap, hash_map_size, index_of, key_at, value_at, set_at, find_entry, entry_get, entry_free,
  lookup, insert, replace, remove, free_loop,
}
use qt_gretio.Avahi.Hashmap.Refinement.{
  contents, find_pair, bucket_of, Agrees, entry_free-Agrees, add_entry-Agrees, find_entry-bucket_of,
}

module _ {K V : Type 0} (hash_func : K → ℕ) (equal_func : K → K → Bool) where
  pub find_entry-equal :
      (m : Hashmap K V) (key : K) (es : List ℕ) (e : ℕ)
      → find_entry hash_func equal_func m key es ≡ some e
      → equal_func key (key_at m e) ≡ true
  unfolding find_entry
  find_entry-equal m key [] e h = cc
  find_entry-equal m key (x ∷ es) e h = elim (Bool-cases (equal_func key (key_at m x))) [
    | inl found ↦
        let p : some x ≡ some e = sym (rw found refl) ∙ h in
        subst (λ (i : ℕ). equal_func key (key_at m i) ≡ true) (ground arith) found
    | inr missing ↦ find_entry-equal m key es e (sym (rw missing refl) ∙ h)
  ]

  pub find_pair-find_entry :
      (m : Hashmap K V) (key : K) (es : List ℕ)
      → (elim (find_entry hash_func equal_func m key es) [
        | none ↦ none
        | some e ↦ some (value_at m e)
      ])
        ≡ find_pair hash_func equal_func key (map m.memory es)
  unfolding find_entry
  find_pair-find_entry m key [] = refl
  find_pair-find_entry m key (e ∷ es) = elim (Bool-cases (equal_func key (m.memory e).0)) [
    | inl found ↦ rw found refl
    | inr missing ↦ rw missing (find_pair-find_entry m key es)
  ]

  -- The list of pairs after an insertion.
  abbrev pub insert_pair : K → V → List (K × V) → List (K × V)
  insert_pair key value ps = elim (find_pair hash_func equal_func key ps) [
    | none ↦ (key, value) ∷ ps
    | some v ↦ ps
  ]

  pub free_loop-Agrees :
      (es : List ℕ) (m : Hashmap K V)
      → Agrees hash_func equal_func m
      → Agrees hash_func equal_func (free_loop hash_func equal_func es m)
  unfolding free_loop
  free_loop-Agrees [] m h = h
  free_loop-Agrees (e ∷ es) m h =
      free_loop-Agrees es (entry_free hash_func equal_func m e false)
        (entry_free-Agrees hash_func equal_func m e false h)

  pub remove-Agrees :
      (m : Hashmap K V) (key : K)
      → Agrees hash_func equal_func m
      → Agrees hash_func equal_func (remove hash_func equal_func m key)
  unfolding remove
  remove-Agrees m key h = elim (Option-cases (entry_get hash_func equal_func m key)) [
    | inl missing ↦ rw (remove, missing) h
    | inr (e, found) ↦ rw (remove, found) (entry_free-Agrees hash_func equal_func m e false h)
  ]

  pub insert-Agrees :
      (m : Hashmap K V) (key : K) (value : V)
      → Agrees hash_func equal_func m
      → Agrees hash_func equal_func (insert hash_func equal_func m key value).1
  unfolding insert
  insert-Agrees m key value h = elim (Option-cases (entry_get hash_func equal_func m key)) [
    | inl missing ↦ rw (insert, missing) (add_entry-Agrees hash_func equal_func m key value h)
    | inr (e, found) ↦ rw (insert, found) (record { allocated = h.allocated; buckets = h.buckets })
  ]

  module _ (respects : (a b : K) → equal_func a b ≡ true → hash_func a ≡ hash_func b) where
    pub entry_get-entries_list :
        (m : Hashmap K V) (key : K)
        → Agrees hash_func equal_func m
        → entry_get hash_func equal_func m key
          ≡ find_entry hash_func equal_func m key m.entries_list
    unfolding entry_get
    entry_get-entries_list m key h =
        ap (find_entry hash_func equal_func m key) (h.buckets (index_of hash_func key))
        ∙ find_entry-bucket_of hash_func equal_func respects m key m.entries_list

    -- Looking a key up in its bucket finds what the list of pairs holds for it.
    pub lookup-find_pair :
        (m : Hashmap K V) (key : K)
        → Agrees hash_func equal_func m
        → lookup hash_func equal_func m key
          ≡ find_pair hash_func equal_func key (contents hash_func equal_func m)
    unfolding lookup
    lookup-find_pair m key h =
        rw (lookup, entry_get-entries_list m key h) (find_pair-find_entry m key m.entries_list)

    bucket_of-replaced :
        (memory : ℕ → K × V) (a idx : ℕ) (key : K) (value : V) (es : List ℕ)
        → equal_func key (memory a).0 ≡ true
        → bucket_of hash_func equal_func (set_at memory a (key, value)) idx es
          ≡ bucket_of hash_func equal_func memory idx es
    bucket_of-replaced memory a idx key value [] q = refl
    bucket_of-replaced memory a idx key value (e ∷ es) q = elim (Bool-cases (e == a)) [
      | inl same ↦
          let p : a ≡ e = ground arith in
          let i : index_of hash_func key ≡ index_of hash_func (memory e).0 =
            ap (λ n. n % hash_map_size) (respects key (memory a).0 q)
            ∙ ap (λ x. index_of hash_func (memory x).0) p in
          rw (same, i, bucket_of-replaced memory a idx key value es q) refl
      | inr diff ↦ rw (diff, bucket_of-replaced memory a idx key value es q) refl
    ]

    pub replace-Agrees :
        (m : Hashmap K V) (key : K) (value : V)
        → Agrees hash_func equal_func m
        → Agrees hash_func equal_func (replace hash_func equal_func m key value).1
    unfolding replace
    replace-Agrees m key value h = elim (Option-cases (entry_get hash_func equal_func m key)) [
      | inl missing ↦ rw (replace, missing) (add_entry-Agrees hash_func equal_func m key value h)
      | inr (e, found) ↦
          let q =
            find_entry-equal m key m.entries_list e
              (sym (entry_get-entries_list m key h) ∙ found) in
          rw (replace, found)
            (record {
              allocated = h.allocated;
              buckets = λ idx.
                  h.buckets idx
                  ∙ sym (bucket_of-replaced m.memory e idx key value m.entries_list q);
            })
    ]
