-- ===== src/Avahi/Domain/Totality.antt =====
-- On valid names the loops over names end with a result.
use qt_gretio.Prelude.{
  ℕ, zero, suc, ◌+◌, ◌≤◌, ◌<◌, ◌≡◌, refl, ◌∙◌, inl, inr, Bool, true, false, ◌&&◌, some, List, [],
  ◌∷◌, arith, Bool-cases, length,
}
use qt_gretio.Avahi.Label.{label_max, unescape_label}
use qt_gretio.Avahi.Label.Bounds.{unescape_label_bounds}
use qt_gretio.Avahi.Domain.{
  case_equal, is_empty, equal_loop, domain_equal, hash_label, hash_loop, domain_hash, valid_loop,
  is_valid_domain_name,
}
use qt_gretio.Avahi.Domain.Hashing.{Read-cases, unescape_label-nil, hash_loop-read, is_empty→nil}

-- Names that are read to their end, label by label.
data Reads : List ℕ → Type 0 where
  finished : Reads []
  label_then :
      (name label rest : List ℕ)
      → unescape_label label_max name ≡ some (label, rest)
      → Reads rest
      → Reads name

valid_loop-Reads : (f : ℕ) (is_first : Bool) (t : List ℕ) → valid_loop f is_first t ≡ true → Reads t
unfolding valid_loop
valid_loop-Reads zero is_first t h = cc
valid_loop-Reads (suc f) is_first t h = elim (Read-cases t) [
  | inl e ↦ absurd (ground (arith, e))
  | inr (label, rest, e) ↦ label_then t label rest e (elim (Bool-cases (is_empty rest)) [
    | inl ended ↦ rw (is_empty→nil rest ended) finished
    | inr goes ↦ valid_loop-Reads f false rest (ground (arith, e, goes))
  ])
]

is_valid_domain_name-Reads : (t : List ℕ) → is_valid_domain_name t ≡ true → Reads t
unfolding is_valid_domain_name
is_valid_domain_name-Reads t h = valid_loop-Reads (suc (length t)) true t (ground arith)

Reads-hash : (hash : ℕ) {t : List ℕ} → Reads t → (n : ℕ) × (hash_loop (length t) hash t ≡ some n)
unfolding hash_loop
Reads-hash hash finished = (hash, refl)
Reads-hash hash (label_then name label rest e r) =
    let later = Reads-hash (hash_label hash label) r in
    (later.0, hash_loop-read hash name label rest e ∙ later.1)

Reads-step :
    {t : List ℕ}
    → Reads t
    → (label : List ℕ) × (rest : List ℕ) × (unescape_label label_max t ≡ some (label, rest))
      × Reads rest
Reads-step finished = ([], [], unescape_label-nil, finished)
Reads-step (label_then name label rest e r) = (label, rest, e, r)

shrinks :
    (a b ca cb a' b' : List ℕ)
    → unescape_label label_max a ≡ some (ca, a')
    → unescape_label label_max b ≡ some (cb, b')
    → is_empty a' && is_empty b' ≡ false
    → length a' + length b' < length a + length b
shrinks a b ca cb a' b' ea eb h =
    let ka = unescape_label_bounds label_max a ca a' ea in
    let kb = unescape_label_bounds label_max b cb b' eb in
    positive a' b' (length a) (length b) h ka.2 kb.2 ka.3 kb.3
  where
    positive :
        (a' b' : List ℕ) (m n : ℕ)
        → is_empty a' && is_empty b' ≡ false
        → length a' ≤ m
        → length b' ≤ n
        → (0 < m → length a' < m)
        → (0 < n → length b' < n)
        → length a' + length b' < m + n
    positive [] [] m n e p q r s = cc
    positive [] (y ∷ ys) m n e p q r s = ground (arith, s (omega arith))
    positive (x ∷ xs) b' m n e p q r s = ground (arith, r (omega arith))

equal_loop-total :
    (f : ℕ) (a b : List ℕ)
    → Reads a
    → Reads b
    → length a + length b < f
    → (r : Bool) × (equal_loop f a b ≡ some r)
unfolding equal_loop
equal_loop-total zero a b ra rb h = absurd (omega arith)
equal_loop-total (suc f) a b ra rb h = step (equal_loop-total f) (Reads-step ra) (Reads-step rb)
  where
    step :
        ((a' b' : List ℕ)
          → Reads a'
          → Reads b'
          → length a' + length b' < f
          → (r : Bool) × (equal_loop f a' b' ≡ some r))
        → (label : List ℕ) × (rest : List ℕ) × (unescape_label label_max a ≡ some (label, rest))
          × Reads rest
        → (label : List ℕ) × (rest : List ℕ) × (unescape_label label_max b ≡ some (label, rest))
          × Reads rest
        → (r : Bool) × (equal_loop (suc f) a b ≡ some r)
    step later (ca, a', ea, ra') (cb, b', eb, rb') = elim (Bool-cases (case_equal ca cb)) [
      | inr differ ↦ (false, rw (equal_loop, ea, eb, differ))
      | inl same ↦ elim (Bool-cases (is_empty a' && is_empty b')) [
        | inl ended ↦ (true, rw (equal_loop, ea, eb, same, ended))
        | inr goes ↦
            let less = shrinks a b ca cb a' b' ea eb goes in
            rw (equal_loop, ea, eb, same, goes) (later a' b' ra' rb' (omega arith))
      ]
    ]

-- On valid domain names no assertion fails: the hash and the comparison have results.
pub is_valid_domain_name-total :
    (a b : List ℕ) (same : Bool)
    → is_valid_domain_name a ≡ true
    → is_valid_domain_name b ≡ true
    → ((n : ℕ) × (domain_hash a ≡ some n)) × ((r : Bool) × (domain_equal same a b ≡ some r))
unfolding domain_hash domain_equal
is_valid_domain_name-total a b same va vb = (
  Reads-hash 0 (is_valid_domain_name-Reads a va),
  elim (Bool-cases same) [
    | inl pointers ↦ (true, rw (domain_equal, pointers))
    | inr other ↦
        rw (domain_equal, other)
          (equal_loop-total (suc (length a + length b)) a b (is_valid_domain_name-Reads a va)
            (is_valid_domain_name-Reads b vb) (omega arith))
  ],
)
