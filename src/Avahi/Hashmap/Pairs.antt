-- ===== src/Avahi/Hashmap/Pairs.antt =====
-- The operations of a list of pairs, and what the entries of a table say of the list of their pairs.
use qt_gretio.Prelude.{
  ℕ, ◌≡◌, refl, sym, ap, ◌∙◌, subst, inl, inr, Bool, true, false, none, some, List, [], ◌∷◌, map,
  arith, ◌==◌, if◌then◌else◌, Bool-cases, some_is_none,
}
use qt_gretio.Avahi.Hashmap.{Hashmap, key_at, set_at, unlink, find_entry}
use qt_gretio.Avahi.Hashmap.Refinement.{find_pair}
use qt_gretio.Avahi.Hashmap.Operations.{insert_pair}
use qt_gretio.Avahi.Hashmap.History.{TableCall, insert_key, replace_key, remove_key, free_all}
use qt_gretio.Avahi.Hashmap.Distinct.{Misses, Distinct, unlink-first, map-set_at-Misses}

module _ {K V : Type 0} (hash_func : K → ℕ) (equal_func : K → K → Bool) where
  -- The operations of the list.
  abbrev pub remove_pair : K → List (K × V) → List (K × V)
  remove_pair key [] = []
  remove_pair key ((k, v) ∷ ps) =
      let rest = remove_pair key ps in if equal_func key k then ps else (k, v) ∷ rest

  abbrev pub update_pair : K → V → List (K × V) → List (K × V)
  update_pair key value [] = []
  update_pair key value ((k, v) ∷ ps) =
      let rest = update_pair key value ps in
      if equal_func key k then (key, value) ∷ ps else (k, v) ∷ rest

  abbrev pub replace_pair : K → V → List (K × V) → List (K × V)
  replace_pair key value ps = elim (find_pair hash_func equal_func key ps) [
    | none ↦ (key, value) ∷ ps
    | some v ↦ update_pair key value ps
  ]

  -- One call as an operation of the list.
  abbrev pub apply_pairs : TableCall K V → List (K × V) → List (K × V)
  apply_pairs (insert_key key value) ps = insert_pair hash_func equal_func key value ps
  apply_pairs (replace_key key value) ps = replace_pair key value ps
  apply_pairs (remove_key key) ps = remove_pair key ps
  apply_pairs free_all ps = []

  abbrev pub apply_all_pairs : List (TableCall K V) → List (K × V) → List (K × V)
  apply_all_pairs [] ps = ps
  apply_all_pairs (o ∷ os) ps = apply_all_pairs os (apply_pairs o ps)

  -- What finding an entry tells of the list of pairs.
  found-Misses :
      (m : Hashmap K V) (key : K) (es : List ℕ) (e x : ℕ)
      → Misses x es
      → find_entry hash_func equal_func m key es ≡ some e
      → (x == e) ≡ false
  unfolding find_entry
  found-Misses m key [] e x h f = cc
  found-Misses m key (y ∷ es) e x h f = elim (Bool-cases (equal_func key (key_at m y))) [
    | inl here ↦
        let p : some y ≡ some e = sym (rw here refl) ∙ f in let q : y ≡ e = cc in ground arith
    | inr there ↦ found-Misses m key es e x h.1 (sym (rw there refl) ∙ f)
  ]

  pub map-unlink :
      (m : Hashmap K V) (key : K) (es : List ℕ) (e : ℕ)
      → Distinct es
      → find_entry hash_func equal_func m key es ≡ some e
      → map m.memory (unlink e es) ≡ remove_pair key (map m.memory es)
  unfolding find_entry
  map-unlink m key [] e d f = cc
  map-unlink m key (x ∷ es) e d f = elim (Bool-cases (equal_func key (m.memory x).0)) [
    | inl here ↦
        let p : some x ≡ some e = sym (rw here refl) ∙ f in
        let q : x ≡ e = cc in
        rw here (
          subst (λ i. map m.memory (unlink i (x ∷ es)) ≡ map m.memory es) q
            (ap (map m.memory) (unlink-first x es d.0)))
    | inr there ↦
        let f' : find_entry hash_func equal_func m key es ≡ some e = sym (rw there refl) ∙ f in
        let other = found-Misses m key es e x d.0 f' in
        rw (there, other) (ap (λ t. m.memory x ∷ t) (map-unlink m key es e d.1 f'))
  ]

  pub map-replaced :
      (m : Hashmap K V) (key : K) (value : V) (es : List ℕ) (e : ℕ)
      → Distinct es
      → find_entry hash_func equal_func m key es ≡ some e
      → map (set_at m.memory e (key, value)) es ≡ update_pair key value (map m.memory es)
  unfolding find_entry
  map-replaced m key value [] e d f = cc
  map-replaced m key value (x ∷ es) e d f = elim (Bool-cases (equal_func key (m.memory x).0)) [
    | inl here ↦
        let p : some x ≡ some e = sym (rw here refl) ∙ f in
        let q : x ≡ e = cc in
        let same : (x == x) ≡ true = ground arith in
        rw here (
          subst
            (λ i. map (set_at m.memory i (key, value)) (x ∷ es) ≡ (key, value) ∷ map m.memory es) q
            (rw same
              (ap (λ t. (key, value) ∷ t) (map-set_at-Misses m.memory x (key, value) es d.0))))
    | inr there ↦
        let f' : find_entry hash_func equal_func m key es ≡ some e = sym (rw there refl) ∙ f in
        let other = found-Misses m key es e x d.0 f' in
        rw (there, other) (ap (λ t. m.memory x ∷ t) (map-replaced m key value es e d.1 f'))
  ]

  -- Where no entry is found, the list holds no pair for the key.
  pub missing-pair :
      (m : Hashmap K V) (key : K) (es : List ℕ)
      → find_entry hash_func equal_func m key es ≡ none
      → (find_pair hash_func equal_func key (map m.memory es) ≡ none)
        × (remove_pair key (map m.memory es) ≡ map m.memory es)
  unfolding find_entry
  missing-pair m key [] f = (refl, refl)
  missing-pair m key (x ∷ es) f = elim (Bool-cases (equal_func key (m.memory x).0)) [
    | inl here ↦ let p : some x ≡ none = sym (rw here refl) ∙ f in absurd (some_is_none p)
    | inr there ↦
        let later = missing-pair m key es (sym (rw there refl) ∙ f) in
        rw there (later.0, ap (λ t. m.memory x ∷ t) later.1)
  ]

  pub found-pair :
      (m : Hashmap K V) (key : K) (es : List ℕ) (e : ℕ)
      → find_entry hash_func equal_func m key es ≡ some e
      → (v : V) × (find_pair hash_func equal_func key (map m.memory es) ≡ some v)
  unfolding find_entry
  found-pair m key [] e f = cc
  found-pair m key (x ∷ es) e f = elim (Bool-cases (equal_func key (m.memory x).0)) [
    | inl here ↦ ((m.memory x).1, rw here refl)
    | inr there ↦
        let later = found-pair m key es e (sym (rw there refl) ∙ f) in (later.0, rw there later.1)
  ]

  pub replace_pair-none :
      (key : K) (value : V) (ps : List (K × V))
      → find_pair hash_func equal_func key ps ≡ none
      → replace_pair key value ps ≡ (key, value) ∷ ps
  replace_pair-none key value ps h = rw (replace_pair, h) refl

  pub replace_pair-some :
      (key : K) (value v : V) (ps : List (K × V))
      → find_pair hash_func equal_func key ps ≡ some v
      → replace_pair key value ps ≡ update_pair key value ps
  replace_pair-some key value v ps h = rw (replace_pair, h) refl
