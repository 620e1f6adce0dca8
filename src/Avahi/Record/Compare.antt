-- ===== src/Avahi/Record/Compare.antt =====
-- QtZeroConf/avahi-core/rr.c and avahi-core/domain-util.c: the order of records.
use qt_gretio.Prelude.{
  ℕ, zero, suc, ◌+◌, min, Bool, ◌&&◌, Option, none, some, List, [], ◌∷◌, ltb, ◌==◌, if◌then◌else◌,
  length,
}
use qt_gretio.Avahi.Label.{label_max, unescape_label}
use qt_gretio.Avahi.StringList.{StringList, serialize, serialized_size}
use qt_gretio.Avahi.Record.{Rdata, Record, ptr, srv, hinfo, txt, a, aaaa, generic}

-- The sign of an int.
pub data Sign : Type 0 where
  less : Sign
  equal : Sign
  greater : Sign

-- `r || next`.
abbrev pub or_else : Sign → Sign → Sign
or_else equal s = s
or_else r s = r

unfoldable pub uint16_cmp : ℕ → ℕ → Sign
uint16_cmp x y = if x == y then equal else if ltb x y then less else greater

-- `memcmp` on the bytes that both have.
unfoldable pub memcmp : List ℕ → List ℕ → Sign
memcmp (x ∷ s) (y ∷ t) =
    let rest = memcmp s t in if x == y then rest else if ltb x y then less else greater
memcmp _ _ = equal

-- `return al == c ? 1 : -1`, with c the smaller length.
unfoldable pub lexicographical_memcmp : List ℕ → List ℕ → Sign
lexicographical_memcmp s t = or_else (memcmp s t) (
    if length s == length t
    then equal
    else if length s == min (length s) (length t)
    then greater
    else less)

-- `strcmp`: the shorter of two strings, of which one is a prefix of the other, is less.
unfoldable pub strcmp : List ℕ → List ℕ → Sign
strcmp [] [] = equal
strcmp [] (y ∷ t) = less
strcmp (x ∷ s) [] = greater
strcmp (x ∷ s) (y ∷ t) =
    let rest = strcmp s t in if x == y then rest else if ltb x y then less else greater

-- `avahi_binary_domain_cmp`; `none` is a failed assertion.
unfoldable pub binary_loop : ℕ → List ℕ → List ℕ → Option Sign
binary_loop zero s t = none
binary_loop (suc f) s t = elim (unescape_label label_max s) [
  | none ↦ none
  | some (cs, s') ↦ elim (unescape_label label_max t) [
    | none ↦ none
    | some (ct, t') ↦
        let next = binary_loop f s' t' in
        elim (strcmp cs ct) [
          | less ↦ some less
          | greater ↦ some greater
          | equal ↦ if length s' == 0 && length t' == 0 then some equal else next
        ]
  ]
]

unfoldable pub binary_domain_cmp : List ℕ → List ℕ → Option Sign
binary_domain_cmp s t = binary_loop (suc (length s + length t)) s t

unfoldable pub serialized : StringList → List ℕ
serialized l = serialize l (serialized_size l)

unfoldable pub rdata_compare : Rdata → Rdata → Option Sign
rdata_compare (ptr n) (ptr n') = binary_domain_cmp n n'
rdata_compare (srv p w q n) (srv p' w' q' n') =
    elim (or_else (uint16_cmp p p') (or_else (uint16_cmp w w') (uint16_cmp q q'))) [
      | less ↦ some less
      | greater ↦ some greater
      | equal ↦ binary_domain_cmp n n'
    ]
rdata_compare (hinfo cpu os) (hinfo cpu' os') = some (or_else (strcmp cpu cpu') (strcmp os os'))
rdata_compare (txt l) (txt l') = some (lexicographical_memcmp (serialized l) (serialized l'))
rdata_compare (a x) (a x') = some (memcmp x x')
rdata_compare (aaaa x) (aaaa x') = some (memcmp x x')
rdata_compare (generic x) (generic x') = some (lexicographical_memcmp x x')
rdata_compare r s = none

unfoldable pub record_lexicographical_compare : Bool → Record → Record → Option Sign
record_lexicographical_compare same r s =
    if same
    then some equal
    else (elim (or_else (uint16_cmp r.key.clazz s.key.clazz) (uint16_cmp r.key.type s.key.type)) [
      | less ↦ some less
      | greater ↦ some greater
      | equal ↦ rdata_compare r.rdata s.rdata
    ])
