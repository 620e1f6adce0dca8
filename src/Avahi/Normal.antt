-- ===== src/Avahi/Normal.antt =====
-- QtZeroConf/avahi-common/domain.c: avahi_normalize_name and the functions that build on it. A
-- buffer holds what is written to it and the room that is left. A failed assertion aborts.
pub mod Bounds
pub mod Joined
pub mod Service
pub mod Rejoined
use qt_gretio.Prelude.{
  ℕ, zero, suc, ◌-◌, ◌*◌, Bool, true, false, ◌&&◌, ◌||◌, not, Option, none, some, List, [], ◌∷◌,
  ◌++◌, ◌==◌, if◌then◌else◌, length, take,
}
use qt_gretio.Avahi.Label.{label_max, domain_name_max, unescape_label, escape_label, Written}
use qt_gretio.Avahi.Domain.{
  is_empty, is_valid_domain_name, is_valid_service_name, is_valid_service_type_generic,
}

-- The text that is in the buffer; a buffer without a NUL behind its text; the null result; and a
-- failed assertion.
pub data Normalized : Type 0 where
  normalized : List ℕ → Normalized
  unterminated : List ℕ → Normalized
  refused : Normalized
  aborted : Normalized

-- `out` stands in the buffer, `size` bytes are left, and `closed` tells whether a NUL follows. The
-- result of `avahi_escape_label` is not looked at.
unfoldable pub normalize_loop : ℕ → List ℕ → List ℕ → ℕ → Bool → Bool → Normalized
normalize_loop f [] out size empty closed = if closed then normalized out else unterminated out
normalize_loop zero (c ∷ s) out size empty closed = refused
normalize_loop (suc f) (c ∷ s) out size empty closed = elim (unescape_label label_max (c ∷ s)) [
  | none ↦ refused
  | some (label, rest) ↦
      let dot = if empty then [] else b'.' ∷ [] in
      let room = size - length dot in
      let w = escape_label label room in
      let next =
        normalize_loop f rest (out ++ dot ++ w.bytes) w.left false
          (w.success || (empty && is_empty w.bytes)) in
      if is_empty label
      then (if is_empty rest && empty then normalized out else refused)
      else if not empty && size == 0
      then refused
      else if room == 0
      then aborted
      else next
]

unfoldable pub normalize_name : List ℕ → ℕ → Normalized
normalize_name s size = normalize_loop (length s) s [] size true true

-- What a function returns: a result, its failure, or a read of a text that is not terminated or a
-- failed assertion.
pub data Result {ℓ} (A : Type ℓ) : Type ℓ where
  ok : A → Result A
  failed : Result A
  undefined : Result A

unfoldable pub normalize_name_strdup : List ℕ → Result (List ℕ)
normalize_name_strdup s = elim (normalize_name s domain_name_max) [
  | normalized t ↦ ok t
  | unterminated t ↦ undefined
  | refused ↦ failed
  | aborted ↦ undefined
]

-- The errors that are returned.
pub data NameError : Type 0 where
  invalid_service_name : NameError
  invalid_service_type : NameError
  invalid_domain_name : NameError
  no_memory : NameError
  invalid_label : NameError

pub data Named {ℓ} (A : Type ℓ) : Type ℓ where
  named : A → Named A
  error : NameError → Named A
  stopped : Named A

-- `snprintf(p, size, "%s%s%s.%s", ...)`: the text that is in the buffer.
abbrev pub print : ℕ → List ℕ → List ℕ
print size t = take (size - 1) t

unfoldable pub join_type : ℕ → List ℕ → List ℕ → List ℕ → Named (List ℕ)
join_type size prefix type domain = elim (normalize_name type domain_name_max) [
  | refused ↦ error invalid_service_type
  | aborted ↦ stopped
  | unterminated t ↦ stopped
  | normalized t ↦ elim (normalize_name domain domain_name_max) [
    | refused ↦ error invalid_domain_name
    | aborted ↦ stopped
    | unterminated d ↦ stopped
    | normalized d ↦ named (print size (prefix ++ t ++ b'.' ∷ d))
  ]
]

-- A null name is none.
unfoldable pub service_name_join : ℕ → Option (List ℕ) → List ℕ → List ℕ → Named (List ℕ)
service_name_join size none type domain =
    if not (is_valid_service_type_generic type)
    then error invalid_service_type
    else if not (is_valid_domain_name domain)
    then error invalid_domain_name
    else join_type size [] type domain
service_name_join size (some name) type domain =
    let w = escape_label name (label_max * 4) in
    if not (is_valid_service_name name)
    then error invalid_service_name
    else if not (is_valid_service_type_generic type)
    then error invalid_service_type
    else if not (is_valid_domain_name domain)
    then error invalid_domain_name
    else if w.success
    then join_type size (w.bytes ++ b'.' ∷ []) type domain
    else stopped

-- The states of `avahi_service_name_split`.
pub data SplitState : Type 0 where
  at_name : SplitState
  at_type : SplitState
  at_domain : SplitState

-- A buffer that labels are added to, with a dot between them.
pub record Buffer : Type 0 where
  pub text : List ℕ
  pub left : ℕ
  pub is_new : Bool

unfoldable pub add_label : List ℕ → Buffer → Named Buffer
add_label label b =
    let dot = if b.is_new then [] else b'.' ∷ [] in
    let room = b.left - length dot in
    let w = escape_label label room in
    if not b.is_new && b.left == 0
    then error no_memory
    else if room == 0
    then stopped
    else if w.success
    then named (record { text = b.text ++ dot ++ w.bytes; left = w.left; is_new = false })
    else error no_memory

abbrev pub is_type_label : List ℕ → Bool
is_type_label [] = false
is_type_label (c ∷ s) = c == b'_'

-- The name, the type and the domain.
unfoldable pub split_loop :
    ℕ → SplitState → List ℕ → ℕ → List ℕ → Buffer → Buffer → Named (List ℕ × List ℕ × List ℕ)
split_loop f state [] name_size name type domain = named (name, type.text, domain.text)
split_loop zero state (c ∷ p) name_size name type domain = stopped
split_loop (suc f) at_name (c ∷ p) name_size name type domain = elim (unescape_label 64 (c ∷ p)) [
  | none ↦ error invalid_label
  | some (buf, rest) ↦ split_loop f at_type rest name_size (take (name_size - 1) buf) type domain
]
split_loop (suc f) at_type (c ∷ p) name_size name type domain = elim (unescape_label 64 (c ∷ p)) [
  | none ↦ error invalid_label
  | some (buf, rest) ↦
      if is_type_label buf
      then (elim (add_label buf type) [
        | named type' ↦ split_loop f at_type rest name_size name type' domain
        | error e ↦ error e
        | stopped ↦ stopped
      ])
      else (elim (add_label buf domain) [
        | named domain' ↦ split_loop f at_domain rest name_size name type domain'
        | error e ↦ error e
        | stopped ↦ stopped
      ])
]
split_loop (suc f) at_domain (c ∷ p) name_size name type domain = elim (unescape_label 64 (c ∷ p)) [
  | none ↦ error invalid_label
  | some (buf, rest) ↦ elim (add_label buf domain) [
    | named domain' ↦ split_loop f at_domain rest name_size name type domain'
    | error e ↦ error e
    | stopped ↦ stopped
  ]
]

-- `name` is not null if `has_name`; its buffer then has `name_size` bytes.
unfoldable pub service_name_split : List ℕ → Bool → ℕ → ℕ → ℕ → Named (List ℕ × List ℕ × List ℕ)
service_name_split p has_name name_size type_size domain_size =
    split_loop (length p) (if has_name then at_name else at_type) p name_size []
      (record { text = []; left = type_size; is_new = true })
      (record { text = []; left = domain_size; is_new = true })
