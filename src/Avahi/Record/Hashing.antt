-- ===== src/Avahi/Record/Hashing.antt =====
-- Keys that are equal have one hash.
use qt_gretio.Prelude.{ℕ, ◌+◌, ◌%◌, ◌≡◌, refl, sym, ap, ◌∙◌, true, false, some, arith, u32_mod}
use qt_gretio.Avahi.Domain.{domain_equal, domain_hash}
use qt_gretio.Avahi.Domain.Hashing.{domain_hash-domain_equal}
use qt_gretio.Avahi.Record.{Key, key_equal, key_hash}

key_hash-domain_hash :
    (k : Key) (n : ℕ)
    → domain_hash k.name ≡ some n
    → key_hash k ≡ some ((n + k.type + k.clazz) % u32_mod)
unfolding key_hash
key_hash-domain_hash k n h = rw (key_hash, h) refl

key_equal-parts :
    (k l : Key)
    → key_equal false k l ≡ some true
    → (domain_equal false k.name l.name ≡ some true) × (k.type ≡ l.type) × (k.clazz ≡ l.clazz)
unfolding key_equal
key_equal-parts k l h = ground arith

-- Two keys that compare equal have hashes, and these are one number, as the tables that are indexed
-- by keys need it.
pub key_hash-key_equal :
    (k l : Key)
    → key_equal false k l ≡ some true
    → (n : ℕ) × (key_hash k ≡ some n) × (key_hash l ≡ some n)
key_hash-key_equal k l h =
    let parts = key_equal-parts k l h in
    let (n, first, second) = domain_hash-domain_equal k.name l.name parts.0 in
    (
      (n + k.type + k.clazz) % u32_mod,
      key_hash-domain_hash k n first,
      key_hash-domain_hash l n second
          ∙ ap (λ (t : ℕ). some ((n + t + l.clazz) % u32_mod)) (sym parts.1)
          ∙ ap (λ (c : ℕ). some ((n + k.type + c) % u32_mod)) (sym parts.2),
    )
