-- ===== src/Avahi/Domain.antt =====
-- QtZeroConf/avahi-common/domain.c: the functions on names of several labels. A loop takes one
-- round of fuel for each byte of its names and one more. An assertion that fails is `none` where
-- the function has no other failure.
pub mod Hashing
pub mod Totality
use qt_gretio.Prelude.{
  ℕ, zero, suc, ◌+◌, ◌-◌, ◌*◌, ◌%◌, Bool, true, false, ◌&&◌, ◌||◌, not, Option, none, some, List,
  [], ◌∷◌, ltb, leb, ◌==◌, if◌then◌else◌, length, u32_mod,
}
use qt_gretio.Avahi.Label.{
  label_max, domain_name_max, unescape_label, Written, prepend, escape_label,
}

-- `tolower` of the C locale.
abbrev pub to_lower : ℕ → ℕ
to_lower c = if leb b'A' c && leb c b'Z' then c + 32 else c

-- `strcasecmp(a, b) == 0`.
abbrev pub case_equal : List ℕ → List ℕ → Bool
case_equal [] [] = true
case_equal (a ∷ s) (b ∷ t) = to_lower a == to_lower b && case_equal s t
case_equal _ _ = false

abbrev pub is_empty : List ℕ → Bool
is_empty [] = true
is_empty (c ∷ s) = false

unfoldable pub equal_loop : ℕ → List ℕ → List ℕ → Option Bool
equal_loop zero a b = none
equal_loop (suc f) a b = elim (unescape_label label_max a) [
  | none ↦ none
  | some (ca, a') ↦ elim (unescape_label label_max b) [
    | none ↦ none
    | some (cb, b') ↦
        let next = equal_loop f a' b' in
        if not (case_equal ca cb)
        then some false
        else if is_empty a' && is_empty b'
        then some true
        else next
  ]
]

-- `same` tells whether the two pointers are equal.
unfoldable pub domain_equal : Bool → List ℕ → List ℕ → Option Bool
domain_equal same a b = if same then some true else equal_loop (suc (length a + length b)) a b

-- `(unsigned) tolower(*p)` of a char, which is signed.
abbrev pub char_value : ℕ → ℕ
char_value c = if ltb c 128 then to_lower c else u32_mod - 256 + c

unfoldable pub hash_label : ℕ → List ℕ → ℕ
hash_label hash [] = hash
hash_label hash (c ∷ s) = hash_label ((31 * hash + char_value c) % u32_mod) s

unfoldable pub hash_loop : ℕ → ℕ → List ℕ → Option ℕ
hash_loop f hash [] = some hash
hash_loop zero hash (c ∷ s) = none
hash_loop (suc f) hash (c ∷ s) = elim (unescape_label label_max (c ∷ s)) [
  | none ↦ none
  | some (label, rest) ↦ hash_loop f (hash_label hash label) rest
]

unfoldable pub domain_hash : List ℕ → Option ℕ
domain_hash s = hash_loop (length s) 0 s

unfoldable pub valid_loop : ℕ → Bool → List ℕ → Bool
valid_loop zero is_first t = false
valid_loop (suc f) is_first t = elim (unescape_label label_max t) [
  | none ↦ false
  | some (label, rest) ↦
      let next = valid_loop f false rest in
      if is_first && is_empty label && is_empty rest
      then true
      else if is_empty label
      then false
      else if is_empty rest
      then true
      else next
]

unfoldable pub is_valid_domain_name : List ℕ → Bool
is_valid_domain_name t =
    if leb domain_name_max (length t) then false else valid_loop (suc (length t)) true t

unfoldable pub is_valid_service_name : List ℕ → Bool
is_valid_service_name t = if leb label_max (length t) || is_empty t then false else true

unfoldable pub is_valid_host_name : List ℕ → Bool
is_valid_host_name t =
    if leb domain_name_max (length t) || is_empty t
    then false
    else (elim (unescape_label label_max t) [
      | none ↦ false
      | some (label, rest) ↦ if ltb (length label) 1 then false else is_empty rest
    ])

-- `strlen(label) > 2 && label[0] == '_'`.
abbrev pub is_service_label : List ℕ → Bool
is_service_label (c ∷ s) = not (leb (suc (length s)) 2) && c == b'_'
is_service_label [] = false

unfoldable pub generic_loop : ℕ → List ℕ → Bool
generic_loop zero t = false
generic_loop (suc f) t = elim (unescape_label label_max t) [
  | none ↦ false
  | some (label, rest) ↦
      let next = generic_loop f rest in
      if not (is_service_label label) then false else if is_empty rest then true else next
]

unfoldable pub is_valid_service_type_generic : List ℕ → Bool
is_valid_service_type_generic t =
    if leb domain_name_max (length t) || is_empty t then false else generic_loop (suc (length t)) t

-- The label of the protocol, "_tcp" or "_udp".
abbrev pub is_protocol : List ℕ → Bool
is_protocol label =
    case_equal label (b'_' ∷ b't' ∷ b'c' ∷ b'p' ∷ [])
    || case_equal label (b'_' ∷ b'u' ∷ b'd' ∷ b'p' ∷ [])

-- An application name and the protocol, to the end of the string.
unfoldable pub is_application_type : List ℕ → Bool
is_application_type t = elim (unescape_label label_max t) [
  | none ↦ false
  | some (label, rest) ↦
      if not (is_service_label label) || is_empty rest
      then false
      else (elim (unescape_label label_max rest) [
        | none ↦ false
        | some (protocol, rest') ↦ is_protocol protocol && is_empty rest'
      ])
]

unfoldable pub is_valid_service_type_strict : List ℕ → Bool
is_valid_service_type_strict t =
    if leb domain_name_max (length t) || is_empty t then false else is_application_type t

-- The pointer to the type behind the subtype's name and "_sub".
unfoldable pub get_type_from_subtype : List ℕ → Option (List ℕ)
get_type_from_subtype t =
    if leb domain_name_max (length t) || is_empty t
    then none
    else (elim (unescape_label label_max t) [
      | none ↦ none
      | some (label, rest) ↦
          if not (is_service_label label) || is_empty rest
          then none
          else (elim (unescape_label label_max rest) [
            | none ↦ none
            | some (sub, ret) ↦
                if not (case_equal sub (b'_' ∷ b's' ∷ b'u' ∷ b'b' ∷ [])) || is_empty ret
                then none
                else if is_application_type ret
                then some ret
                else none
          ])
    ])

unfoldable pub is_valid_service_subtype : List ℕ → Bool
is_valid_service_subtype t = elim (get_type_from_subtype t) [ none ↦ false | some ret ↦ true ]
