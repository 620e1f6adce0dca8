-- ===== src/Avahi/Hashmap/Refinement.antt =====
-- The table as a list of pairs: what its operations do to that list, and that the buckets agree
-- with it.
use qt_gretio.Prelude.{
  ℕ, ◌+◌, ◌%◌, ◌<◌, ◌≡◌, refl, sym, ap, ◌∙◌, ◌≢◌, inl, inr, Bool, true, false, Option, none, some,
  List, [], ◌∷◌, map, arith, ◌==◌, if◌then◌else◌, Bool-cases,
}
use qt_gretio.Avahi.Hashmap.{
  Hashmap, hash_map_size, index_of, key_at, unlink, set_at, new, find_entry, entry_free, add_entry,
}

abbrev pub AllBelow : ℕ → List ℕ → Type 0
AllBelow n [] = Unit {0}
AllBelow n (e ∷ es) = (e < n) × AllBelow n es

AllBelow-later : (n : ℕ) (es : List ℕ) → AllBelow n es → AllBelow (n + 1) es
AllBelow-later n [] h = tt
AllBelow-later n (e ∷ es) h = (omega arith, AllBelow-later n es h.1)

AllBelow-unlink : (n a : ℕ) (es : List ℕ) → AllBelow n es → AllBelow n (unlink a es)
AllBelow-unlink n a [] h = tt
AllBelow-unlink n a (e ∷ es) h = ground (arith, AllBelow-unlink n a es)

module _ {K V : Type 0} (hash_func : K → ℕ) (equal_func : K → K → Bool) where
  -- The pairs of the table, in the order of its list.
  abbrev pub contents : Hashmap K V → List (K × V)
  contents m = map m.memory m.entries_list

  -- The first pair with an equal key.
  abbrev pub find_pair : K → List (K × V) → Option V
  find_pair key [] = none
  find_pair key ((k, v) ∷ ps) =
      let rest = find_pair key ps in if equal_func key k then some v else rest

  -- The entries of a list that belong in a bucket.
  abbrev pub bucket_of : (ℕ → K × V) → ℕ → List ℕ → List ℕ
  bucket_of memory idx [] = []
  bucket_of memory idx (e ∷ es) =
      let rest = bucket_of memory idx es in
      if index_of hash_func (memory e).0 == idx then e ∷ rest else rest

  -- Each bucket holds the entries of the list whose keys hash to it, in the order of the list.
  pub record Agrees (m : Hashmap K V) : Type 0 where
    pub allocated : AllBelow m.next_address m.entries_list
    pub buckets : (idx : ℕ) → m.entries idx ≡ bucket_of m.memory idx m.entries_list

  pub bucket_of-set_at :
      (memory : ℕ → K × V) (n idx : ℕ) (p : K × V) (es : List ℕ)
      → AllBelow n es
      → bucket_of (set_at memory n p) idx es ≡ bucket_of memory idx es
  bucket_of-set_at memory n idx p [] h = refl
  bucket_of-set_at memory n idx p (e ∷ es) h =
      let same : (e == n) ≡ false = ground arith in
      rw (same, bucket_of-set_at memory n idx p es h.1) refl

  bucket_of-unlink :
      (memory : ℕ → K × V) (idx a : ℕ) (es : List ℕ)
      → bucket_of memory idx (unlink a es) ≡ unlink a (bucket_of memory idx es)
  bucket_of-unlink memory idx a [] = refl
  bucket_of-unlink memory idx a (e ∷ es) = ground (arith, bucket_of-unlink memory idx a es)

  bucket_of-other :
      (memory : ℕ → K × V) (idx a : ℕ) (es : List ℕ)
      → index_of hash_func (memory a).0 ≢ idx
      → unlink a (bucket_of memory idx es) ≡ bucket_of memory idx es
  bucket_of-other memory idx a [] h = refl
  bucket_of-other memory idx a (e ∷ es) h =
      elim (Bool-cases (index_of hash_func (memory e).0 == idx)) [
        | inl here ↦ elim (Bool-cases (e == a)) [
          | inl same ↦
              let p : a ≡ e = ground arith in
              let i : index_of hash_func (memory e).0 ≡ idx = ground arith in
              absurd (h (ap (λ x. index_of hash_func (memory x).0) p ∙ i))
          | inr diff ↦ rw (here, diff, bucket_of-other memory idx a es h) refl
        ]
        | inr elsewhere ↦ rw elsewhere (bucket_of-other memory idx a es h)
      ]

  pub new-Agrees : (memory : ℕ → K × V) → Agrees (new memory)
  unfolding new
  new-Agrees memory = record { allocated = tt; buckets = λ idx. refl }

  pub entry_free-Agrees :
      (m : Hashmap K V) (e : ℕ) (stolen : Bool)
      → Agrees m
      → Agrees (entry_free hash_func equal_func m e stolen)
  unfolding entry_free
  entry_free-Agrees m e stolen h = record {
    allocated = AllBelow-unlink m.next_address e m.entries_list h.allocated;
    buckets = λ idx. elim (Bool-cases (idx == index_of hash_func (key_at m e))) [
      | inl same ↦
          let p : index_of hash_func (key_at m e) ≡ idx = ground arith in
          rw same (
            ap (λ i. unlink e (m.entries i)) p
            ∙ ap (unlink e) (h.buckets idx)
            ∙ sym (bucket_of-unlink m.memory idx e m.entries_list))
      | inr other ↦
          let p : index_of hash_func (key_at m e) ≢ idx = ground arith in
          rw other (
            h.buckets idx
            ∙ sym (bucket_of-other m.memory idx e m.entries_list p)
            ∙ sym (bucket_of-unlink m.memory idx e m.entries_list))
    ];
  }

  pub add_entry-Agrees :
      (m : Hashmap K V) (key : K) (value : V)
      → Agrees m
      → Agrees (add_entry hash_func equal_func m key value)
  unfolding add_entry
  add_entry-Agrees m key value h = record {
    allocated = (omega arith, AllBelow-later m.next_address m.entries_list h.allocated);
    buckets = λ idx.
        let kept =
          bucket_of-set_at m.memory m.next_address idx (key, value) m.entries_list h.allocated in
        let new_one : (m.next_address == m.next_address) ≡ true = ground arith in
        elim (Bool-cases (idx == index_of hash_func key)) [
          | inl same ↦
              let p : index_of hash_func key ≡ idx = ground arith in
              let back : (index_of hash_func key == idx) ≡ true = ground arith in
              rw (same, new_one, back, kept)
                (ap (λ es. m.next_address ∷ es) (ap m.entries p ∙ h.buckets idx))
          | inr other ↦
              let back : (index_of hash_func key == idx) ≡ false = ground arith in
              rw (other, new_one, back, kept) (h.buckets idx)
        ];
  }

  module _ (respects : (a b : K) → equal_func a b ≡ true → hash_func a ≡ hash_func b) where
    pub find_entry-bucket_of :
        (m : Hashmap K V) (key : K) (es : List ℕ)
        → find_entry hash_func equal_func m key (bucket_of m.memory (index_of hash_func key) es)
          ≡ find_entry hash_func equal_func m key es
    unfolding find_entry
    find_entry-bucket_of m key [] = refl
    find_entry-bucket_of m key (e ∷ es) = elim (Bool-cases (equal_func key (m.memory e).0)) [
      | inl found ↦
          let i : index_of hash_func (m.memory e).0 ≡ index_of hash_func key =
            ap (λ n. n % hash_map_size) (sym (respects key (m.memory e).0 found)) in
          let same : (index_of hash_func (m.memory e).0 == index_of hash_func key) ≡ true =
            ground arith in
          rw (same, found) refl
      | inr missing ↦
          elim (Bool-cases (index_of hash_func (m.memory e).0 == index_of hash_func key)) [
            | inl here ↦ rw (here, missing) (find_entry-bucket_of m key es)
            | inr elsewhere ↦ rw (elsewhere, missing) (find_entry-bucket_of m key es)
          ]
    ]
