-- ===== src/Avahi/Domain/Hashing.antt =====
-- Names that are equal have one hash, and valid names never reach a failing assertion.
use qt_gretio.Prelude.{
  ℕ, zero, suc, ◌+◌, ◌*◌, ◌%◌, ◌≤◌, ◌≡◌, refl, ◌∙◌, ◌⊎◌, inl, inr, true, false, none, some, List,
  [], ◌∷◌, arith, Option-cases, length, u32_mod,
}
use qt_gretio.Avahi.Label.{label_max, unescape_label, unescape_loop, label_step}
use qt_gretio.Avahi.Label.Bounds.{unescape_label_bounds}
use qt_gretio.Avahi.Utf8.{utf8_valid, utf8_loop}
use qt_gretio.Avahi.Domain.{
  to_lower, case_equal, is_empty, equal_loop, domain_equal, char_value, hash_label, hash_loop,
  domain_hash,
}

pub Read-cases :
    (name : List ℕ)
    → (unescape_label label_max name ≡ none)
      ⊎ ((label : List ℕ) × (rest : List ℕ) × (unescape_label label_max name ≡ some (label, rest)))
Read-cases name = elim (Option-cases (unescape_label label_max name)) [
  | inl e ↦ inl e
  | inr ((label, rest), e) ↦ inr (label, rest, e)
]

-- The end of a name is read as an empty label.
pub unescape_label-nil : unescape_label label_max [] ≡ some ([], [])
unfolding unescape_label unescape_loop label_step utf8_valid utf8_loop
unescape_label-nil = refl

hash_loop-enough :
    (f g hash : ℕ) (s : List ℕ)
    → length s ≤ f
    → length s ≤ g
    → hash_loop f hash s ≡ hash_loop g hash s
unfolding hash_loop
hash_loop-enough f g hash [] h k = refl
hash_loop-enough zero g hash (c ∷ s) h k = absurd (omega arith)
hash_loop-enough (suc f) zero hash (c ∷ s) h k = absurd (omega arith)
hash_loop-enough (suc f) (suc g) hash (c ∷ s) h k = elim (Read-cases (c ∷ s)) [
  | inl e ↦ rw (hash_loop, e)
  | inr (label, rest, e) ↦
      let known = (unescape_label_bounds label_max (c ∷ s) label rest e).3 (omega arith) in
      rw (hash_loop, e)
        (hash_loop-enough f g (hash_label hash label) rest (omega arith) (omega arith))
]

-- One round of the loop, at the end of the name too.
pub hash_loop-read :
    (hash : ℕ) (s label rest : List ℕ)
    → unescape_label label_max s ≡ some (label, rest)
    → hash_loop (length s) hash s ≡ hash_loop (length rest) (hash_label hash label) rest
unfolding hash_loop hash_label
hash_loop-read hash [] label rest e =
    let no_label : label ≡ [] = ground (arith, unescape_label-nil) in
    let no_rest : rest ≡ [] = ground (arith, unescape_label-nil) in rw (no_label, no_rest)
hash_loop-read hash (c ∷ s) label rest e =
    let known = (unescape_label_bounds label_max (c ∷ s) label rest e).3 (omega arith) in
    rw (hash_loop, e) (hash_loop-enough (length s) (length rest) _ rest (omega arith) (omega arith))

to_lower-char_value : (c d : ℕ) → to_lower c ≡ to_lower d → char_value c ≡ char_value d
to_lower-char_value c d h = ground arith

hash_label-case_equal :
    (hash : ℕ) (s t : List ℕ) → case_equal s t ≡ true → hash_label hash s ≡ hash_label hash t
unfolding hash_label
hash_label-case_equal hash [] [] h = refl
hash_label-case_equal hash [] (d ∷ t) h = cc
hash_label-case_equal hash (c ∷ s) [] h = cc
hash_label-case_equal hash (c ∷ s) (d ∷ t) h =
    let lower : to_lower c ≡ to_lower d = ground arith in
    let more : case_equal s t ≡ true = ground arith in
    rw (to_lower-char_value c d lower)
      (hash_label-case_equal ((31 * hash + char_value d) % u32_mod) s t more)

-- Both hashes are computed, and are one number.
abbrev SameHash : ℕ → List ℕ → List ℕ → Type 0
SameHash hash a b =
    (n : ℕ) × (hash_loop (length a) hash a ≡ some n) × (hash_loop (length b) hash b ≡ some n)

pub is_empty→nil : (s : List ℕ) → is_empty s ≡ true → s ≡ []
is_empty→nil [] h = refl
is_empty→nil (c ∷ s) h = cc

SameHash-read :
    (hash : ℕ) (a b ca cb a' b' : List ℕ)
    → unescape_label label_max a ≡ some (ca, a')
    → unescape_label label_max b ≡ some (cb, b')
    → case_equal ca cb ≡ true
    → SameHash (hash_label hash ca) a' b'
    → SameHash hash a b
SameHash-read hash a b ca cb a' b' ea eb same (n, p, q) = (
  n,
  hash_loop-read hash a ca a' ea ∙ p,
  hash_loop-read hash b cb b' eb ∙ (rw (← hash_label-case_equal hash ca cb same) q),
)

-- What one round of `equal_loop` has found when the result is true.
equal_loop-true :
    (f : ℕ) (a b ca cb a' b' : List ℕ)
    → unescape_label label_max a ≡ some (ca, a')
    → unescape_label label_max b ≡ some (cb, b')
    → equal_loop (suc f) a b ≡ some true
    → (case_equal ca cb ≡ true)
      × (((is_empty a' ≡ true) × (is_empty b' ≡ true)) ⊎ (equal_loop f a' b' ≡ some true))
unfolding equal_loop
equal_loop-true f a b ca cb a' b' ea eb h = ground (arith, ea, eb)

equal_loop-SameHash : (f hash : ℕ) (a b : List ℕ) → equal_loop f a b ≡ some true → SameHash hash a b
unfolding equal_loop hash_loop
equal_loop-SameHash zero hash a b h = cc
equal_loop-SameHash (suc f) hash a b h = elim (Read-cases a) [
  | inl e ↦ absurd (ground (arith, e))
  | inr (ca, a', ea) ↦ elim (Read-cases b) [
    | inl e ↦ absurd (ground (arith, ea, e))
    | inr (cb, b', eb) ↦
        let found = equal_loop-true f a b ca cb a' b' ea eb h in
        SameHash-read hash a b ca cb a' b' ea eb found.0 (elim found.1 [
          | inl (p, q) ↦ rw (is_empty→nil a' p, is_empty→nil b' q) (hash_label hash ca, refl, refl)
          | inr more ↦ equal_loop-SameHash f (hash_label hash ca) a' b' more
        ])
  ]
]

-- Two names that compare equal have hashes, and these are one number.
pub domain_hash-domain_equal :
    (a b : List ℕ)
    → domain_equal false a b ≡ some true
    → (n : ℕ) × (domain_hash a ≡ some n) × (domain_hash b ≡ some n)
unfolding domain_equal domain_hash
domain_hash-domain_equal a b h = equal_loop-SameHash (suc (length a + length b)) 0 a b h
