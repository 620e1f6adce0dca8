-- ===== src/Avahi/Record/Made.antt =====
-- Keys that are made of a name with labels.
use qt_gretio.Prelude.{
  ℕ, zero, suc, ◌<◌, ◌≡◌, refl, Bool, true, false, List, [], ◌∷◌, arith, leb, length,
}
use qt_gretio.Avahi.Label.{label_max, domain_name_max}
use qt_gretio.Avahi.Label.Bounds.{unescape_label_bounds}
use qt_gretio.Avahi.Label.Roundtrip.{AllChars}
use qt_gretio.Avahi.Label.Joined.{Labels, no_label, one_more, joined, joined-Labels}
use qt_gretio.Avahi.Domain.{valid_loop, is_valid_domain_name}
use qt_gretio.Avahi.Domain.Hashing.{unescape_label-nil}
use qt_gretio.Avahi.Normal.{ok, normalize_name_strdup}
use qt_gretio.Avahi.Normal.Joined.{is_empty-false, normalize_name-joined}
use qt_gretio.Avahi.Record.{Key, key_new, key_is_valid}

-- A text of labels that are not empty is a valid domain name.
valid_loop-Labels :
    (f : ℕ) {t : List ℕ} {label : List ℕ} {ls : List (List ℕ)} (is_first : Bool)
    → Labels t (label ∷ ls)
    → length t < f
    → valid_loop f is_first t ≡ true
unfolding valid_loop
valid_loop-Labels zero is_first names h = absurd (omega arith)
valid_loop-Labels (suc f) is_first (one_more c name label [] ls e p no_label) h =
    rw (valid_loop, e, is_empty-false label p) (ground arith)
valid_loop-Labels (suc f) is_first
      (one_more c name label (d ∷ rest) ls e p (one_more _ _ next rest' ms e' p' names)) h =
    let shorter = (unescape_label_bounds label_max (c ∷ name) label (d ∷ rest) e).3 (omega arith) in
    rw (valid_loop, e, is_empty-false label p)
      (ground (
        arith,
        valid_loop-Labels f false (one_more d rest next rest' ms e' p' names) (omega arith),
      ))

is_valid_domain_name-Labels :
    {t : List ℕ} {ls : List (List ℕ)}
    → Labels t ls
    → length t < domain_name_max
    → is_valid_domain_name t ≡ true
unfolding is_valid_domain_name valid_loop
is_valid_domain_name-Labels no_label h = rw (valid_loop, unescape_label-nil) refl
is_valid_domain_name-Labels (one_more c name label rest ls e p names) h =
    let short : leb domain_name_max (length (c ∷ name)) ≡ false = ground arith in
    rw short (
      valid_loop-Labels (suc (length (c ∷ name))) true (one_more c name label rest ls e p names)
        (omega arith))

-- A key whose name is the text of its labels is made and is valid.
pub key_new-joined :
    (name : List ℕ) (ls : List (List ℕ)) (class type : ℕ)
    → Labels name ls
    → AllChars name
    → length (joined true ls) < domain_name_max
    → let k : Key = record { name = joined true ls; clazz = class; type = type } in
      (key_new (joined true ls) class type ≡ ok k) × (key_is_valid k ≡ true)
unfolding key_new normalize_name_strdup key_is_valid
key_new-joined name ls class type names v h = (
  rw (key_new, (normalize_name-joined name ls domain_name_max names v h).1) refl,
  is_valid_domain_name-Labels (joined-Labels names v) h,
)
