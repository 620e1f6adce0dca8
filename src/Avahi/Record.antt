-- ===== src/Avahi/Record.antt =====
-- QtZeroConf/avahi-core/rr.c: keys and resource records. The union of a record holds the member
-- that the type of its key selects. Reference counts are left out, and allocation does not fail.
pub mod Compare
pub mod Order
pub mod Hashing
pub mod Made
use qt_gretio.Prelude.{
  ℕ, ◌+◌, ◌-◌, ◌*◌, ◌%◌, Bool, true, false, ◌&&◌, ◌||◌, not, Option, none, some, List, [], ◌∷◌, ltb,
  leb, ◌==◌, if◌then◌else◌, length, u32_mod,
}
use qt_gretio.Avahi.Label.{label_max, unescape_label}
use qt_gretio.Avahi.Domain.{domain_equal, domain_hash, is_valid_domain_name}
use qt_gretio.Avahi.Normal.{Result, ok, failed, undefined, normalize_name_strdup}
use qt_gretio.Avahi.StringList.{StringList, bytes_equal, serialize, serialized_size}
use qt_gretio.Avahi.StringList

abbrev pub class_in : ℕ
class_in = 0x01

abbrev pub class_any : ℕ
class_any = 0xFF

abbrev pub type_cname : ℕ
type_cname = 0x05

abbrev pub type_any : ℕ
type_any = 0xFF

abbrev pub default_ttl : ℕ
default_ttl = 75 * 60

pub record Key : Type 0 where
  pub name : List ℕ
  pub clazz : ℕ
  pub type : ℕ

-- The members of the union.
pub data Rdata : Type 0 where
  generic : List ℕ → Rdata
  srv : ℕ → ℕ → ℕ → List ℕ → Rdata
  ptr : List ℕ → Rdata
  hinfo : List ℕ → List ℕ → Rdata
  txt : StringList → Rdata
  a : List ℕ → Rdata
  aaaa : List ℕ → Rdata

pub record Record : Type 0 where
  pub key : Key
  pub ttl : ℕ
  pub rdata : Rdata

-- Which member a type selects.
pub data Member : Type 0 where
  is_ptr : Member
  is_srv : Member
  is_hinfo : Member
  is_txt : Member
  is_a : Member
  is_aaaa : Member
  is_generic : Member

unfoldable pub member_of : ℕ → Member
member_of type =
    if type == 0x0C || type == 0x05 || type == 0x02
    then is_ptr
    else if type == 0x21
    then is_srv
    else if type == 0x0D
    then is_hinfo
    else if type == 0x10
    then is_txt
    else if type == 0x01
    then is_a
    else if type == 0x1C
    then is_aaaa
    else is_generic

unfoldable pub key_new : List ℕ → ℕ → ℕ → Result Key
key_new name class type = elim (normalize_name_strdup name) [
  | ok t ↦ ok (record { name = t; clazz = class; type = type })
  | failed ↦ failed
  | undefined ↦ undefined
]

unfoldable pub key_new_cname : Key → Result Key
key_new_cname k =
    if not (k.clazz == class_in)
    then failed
    else if k.type == type_cname
    then failed
    else key_new k.name k.clazz type_cname

-- The union is set to zeros; only the lifetime is looked at here.
unfoldable pub record_ttl : ℕ → ℕ
record_ttl ttl = if ttl == u32_mod - 1 then default_ttl else ttl

unfoldable pub key_is_pattern : Key → Bool
key_is_pattern k = k.type == type_any || k.clazz == class_any

-- `none` is a failed assertion; `same` tells whether the two pointers are equal.
unfoldable pub key_equal : Bool → Key → Key → Option Bool
key_equal same k l = if same then some true else (elim (domain_equal false k.name l.name) [
  | none ↦ none
  | some names ↦ some (names && k.type == l.type && k.clazz == l.clazz)
])

unfoldable pub key_pattern_match : Bool → Key → Key → Option Bool
key_pattern_match same pattern k =
    if key_is_pattern k
    then none
    else if same
    then some true
    else (elim (domain_equal false pattern.name k.name) [
      | none ↦ none
      | some names ↦ some (
          names
          && (pattern.type == k.type || pattern.type == type_any)
          && (pattern.clazz == k.clazz || pattern.clazz == class_any))
    ])

unfoldable pub key_hash : Key → Option ℕ
key_hash k = elim (domain_hash k.name) [
  | none ↦ none
  | some hash ↦ some ((hash + k.type + k.clazz) % u32_mod)
]

-- `none` is a failed assertion, or two members of the union that differ.
unfoldable pub rdata_equal : Rdata → Rdata → Option Bool
rdata_equal (srv p w q n) (srv p' w' q' n') =
    if p == p' && w == w' && q == q' then domain_equal false n n' else some false
rdata_equal (ptr n) (ptr n') = domain_equal false n n'
rdata_equal (hinfo cpu os) (hinfo cpu' os') = some (bytes_equal cpu cpu' && bytes_equal os os')
rdata_equal (txt l) (txt l') = some (StringList.equal l l')
rdata_equal (a x) (a x') = some (bytes_equal x x')
rdata_equal (aaaa x) (aaaa x') = some (bytes_equal x x')
rdata_equal (generic x) (generic x') = some (bytes_equal x x')
rdata_equal r s = none

unfoldable pub record_equal_no_ttl : Bool → Record → Record → Option Bool
record_equal_no_ttl same r s = if same then some true else (elim (key_equal false r.key s.key) [
  | none ↦ none
  | some keys ↦ if keys then rdata_equal r.rdata s.rdata else some false
])

unfoldable pub copy_rdata : Rdata → Rdata
copy_rdata (txt l) = txt (StringList.copy l)
copy_rdata r = r

unfoldable pub record_copy : Record → Record
record_copy r = record { key = r.key; ttl = r.ttl; rdata = copy_rdata r.rdata }

unfoldable pub key_get_estimate_size : Key → ℕ
key_get_estimate_size k = length k.name + 1 + 4

unfoldable pub rdata_size : Rdata → ℕ
rdata_size (ptr n) = length n + 1
rdata_size (srv p w q n) = 6 + length n + 1
rdata_size (hinfo cpu os) = length os + 1 + length cpu + 1
rdata_size (txt l) = serialized_size l
rdata_size (a x) = 4
rdata_size (aaaa x) = 16
rdata_size (generic x) = length x

unfoldable pub record_get_estimate_size : Record → ℕ
record_get_estimate_size r = key_get_estimate_size r.key + 4 + 2 + rdata_size r.rdata

unfoldable pub record_is_goodbye : Record → Bool
record_is_goodbye r = r.ttl == 0

unfoldable pub key_is_valid : Key → Bool
key_is_valid k = is_valid_domain_name k.name

unfoldable pub all_fit : StringList → Bool
all_fit [] = true
all_fit (s ∷ l) = not (ltb 255 (length s) || length s == 0) && all_fit l

unfoldable pub rdata_is_valid : Rdata → Bool
rdata_is_valid (ptr n) = is_valid_domain_name n
rdata_is_valid (srv p w q n) = is_valid_domain_name n
rdata_is_valid (hinfo cpu os) = leb (length os) 255 && leb (length cpu) 255
rdata_is_valid (txt l) = all_fit l
rdata_is_valid r = true

unfoldable pub record_is_valid : Record → Bool
record_is_valid r = key_is_valid r.key && rdata_is_valid r.rdata
