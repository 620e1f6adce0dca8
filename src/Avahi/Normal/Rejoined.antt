-- ===== src/Avahi/Normal/Rejoined.antt =====
-- The name, the type and the domain of a service survive being joined and split.
use qt_gretio.Prelude.{
  ℕ, ◌-◌, ◌*◌, ◌≤◌, ◌<◌, min, ◌≡◌, sym, ap, ◌∙◌, Bool, true, false, some, List, [], ◌∷◌, ◌++◌,
  arith, if◌then◌else◌, length, take, length-append,
}
use mathlib.Core.List.{append_assoc, append-nil}
use qt_gretio.Avahi.Utf8.{utf8_valid}
use qt_gretio.Avahi.Label.{label_max, domain_name_max, escape_byte}
use qt_gretio.Avahi.Label.Roundtrip.{AllChars, escaped, escape_label-Written}
use qt_gretio.Avahi.Label.Joined.{Labels, joined, joined-Labels, joined-cons, joined-append}
use qt_gretio.Avahi.Domain.{
  is_valid_domain_name, is_valid_service_name, is_valid_service_type_generic,
}
use qt_gretio.Avahi.Normal.{
  named, join_type, service_name_join, service_name_split, normalize_name, normalized,
}
use qt_gretio.Avahi.Normal.Joined.{normalize_name-joined}
use qt_gretio.Avahi.Normal.Service.{AllTyped, StartsPlain, take-enough, service_name_split-Labels}

escape_byte-le : (c : ℕ) → length (escape_byte c) ≤ 4
unfolding escape_byte
escape_byte-le c = ground arith

escaped-le : (s : List ℕ) → length (escaped s) ≤ 4 * length s
escaped-le [] = omega arith
escaped-le (c ∷ s) =
    omega (arith, escaped-le s, escape_byte-le c, length-append (escape_byte c) (escaped s))

is_valid_service_name_bounds :
    (name : List ℕ) → is_valid_service_name name ≡ true → (length name < 64) × (0 < length name)
unfolding is_valid_service_name
is_valid_service_name_bounds [] h = cc
is_valid_service_name_bounds (c ∷ s) h = ground arith

-- The text of two lists of labels, with a dot between them.
joined-dot :
    (is_first : Bool) (t : List ℕ) (ts : List (List ℕ)) (d : List ℕ) (ds : List (List ℕ))
    → joined is_first (t ∷ ts ++ d ∷ ds) ≡ joined is_first (t ∷ ts) ++ b'.' ∷ joined true (d ∷ ds)
joined-dot is_first t [] d ds = simp (append_assoc, append-nil)
joined-dot is_first t (u ∷ ts) d ds =
    ap (λ r. (if is_first then [] else b'.' ∷ []) ++ (escaped t ++ r)) (joined-dot false u ts d ds)
    ∙ simp append_assoc

-- What is written for a name, and the normalized type and domain.
service_name_join-written :
    (name type domain t d : List ℕ) (size : ℕ)
    → is_valid_service_name name ≡ true
    → is_valid_service_type_generic type ≡ true
    → is_valid_domain_name domain ≡ true
    → normalize_name type domain_name_max ≡ normalized t
    → normalize_name domain domain_name_max ≡ normalized d
    → let text = escaped name ++ b'.' ∷ (t ++ b'.' ∷ d) in
      length text < size → service_name_join size (some name) type domain ≡ named text
unfolding service_name_join join_type
service_name_join-written name type domain t d size a b c e g fits =
    let bounds = is_valid_service_name_bounds name a in
    let known = escape_label-Written name (label_max * 4) (omega arith) in
    let ok = known.3.1 (omega (arith, escaped-le name)) in
    let text : List ℕ = escaped name ++ b'.' ∷ (t ++ b'.' ∷ d) in
    let same : (escaped name ++ b'.' ∷ []) ++ t ++ b'.' ∷ d ≡ text = simp append_assoc in
    rw (service_name_join, a, b, c, ok, join_type, e, g, known.2 ok)
      (ap named (ap (take (size - 1)) same ∙ take-enough (size - 1) text (omega arith)))

-- A valid service name of valid UTF-8, a valid type whose labels begin with _ and a valid domain
-- that does not begin like a type are joined, if the buffer has room for the text, to a name that
-- is split, into buffers with room, to the service name itself and the normalized texts of the
-- type and the domain.
pub service_name_split-service_name_join :
    (name type domain t d : List ℕ) (ts ds : List (List ℕ))
    (size name_size type_size domain_size : ℕ)
    → (AllChars name × AllChars type × AllChars domain)
    → utf8_valid name ≡ true
    → is_valid_service_name name ≡ true
    → is_valid_service_type_generic type ≡ true
    → is_valid_domain_name domain ≡ true
    → Labels type (t ∷ ts)
    → Labels domain (d ∷ ds)
    → AllTyped (t ∷ ts)
    → StartsPlain (d ∷ ds)
    → length (joined true (name ∷ t ∷ ts ++ d ∷ ds)) < size
    → (length name < name_size)
      × (length (joined true (t ∷ ts)) < min type_size domain_name_max)
      × (length (joined true (d ∷ ds)) < min domain_size domain_name_max)
    → (text : List ℕ) × (service_name_join size (some name) type domain ≡ named text)
      × (service_name_split text true name_size type_size domain_size
          ≡ named (name, joined true (t ∷ ts), joined true (d ∷ ds)))
service_name_split-service_name_join name type domain t d ts ds size name_size type_size domain_size
      chars u a b c types domains typed plain fits (nf, tf, df) =
    let bounds = is_valid_service_name_bounds name a in
    let text = joined true (name ∷ t ∷ ts ++ d ∷ ds) in
    let T = joined true (t ∷ ts) in
    let D = joined true (d ∷ ds) in
    let whole : escaped name ++ b'.' ∷ (T ++ b'.' ∷ D) ≡ text =
      ap (λ r. escaped name ++ b'.' ∷ r) (sym (joined-dot true t ts d ds)) in
    let labels : Labels text (name ∷ t ∷ ts ++ d ∷ ds) =
      joined-cons name (t ∷ ts ++ d ∷ ds) chars.0 u bounds.0 bounds.1
        (joined-append types chars.1 (joined-Labels domains chars.2)) in
    (
      text,
      service_name_join-written name type domain T D size a b c
            (normalize_name-joined type (t ∷ ts) domain_name_max types chars.1 (omega arith)).0
            (normalize_name-joined domain (d ∷ ds) domain_name_max domains chars.2 (omega arith)).0
            (omega (arith, ap length whole))
          ∙ ap named whole,
      service_name_split-Labels name (t ∷ ts) (d ∷ ds) text name_size type_size domain_size labels
          typed plain nf (omega arith) (omega arith),
    )
