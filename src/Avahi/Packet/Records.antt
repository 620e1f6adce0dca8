-- ===== src/Avahi/Packet/Records.antt =====
-- QtZeroConf/avahi-core/dns.c: keys and resource records in packets.
use qt_gretio.Prelude.{
  ℕ, ◌+◌, ◌-◌, ◌%◌, Bool, ◌&&◌, not, Option, none, some, List, [], ltb, leb, ◌==◌, if◌then◌else◌,
  length, take, drop,
}
use qt_gretio.Avahi.Label.{domain_name_max}
use qt_gretio.Avahi.Normal.{ok, failed, undefined}
use qt_gretio.Avahi.StringList.{c_text, parse, serialize, serialized_size}
use qt_gretio.Avahi.Record.{
  Key, Rdata, generic, srv, ptr, hinfo, txt, a, aaaa, Record, Member, is_ptr, is_srv, is_hinfo,
  is_txt, is_a, is_aaaa, is_generic, member_of, key_new, record_ttl, key_is_valid, record_is_valid,
}
use qt_gretio.Avahi.Packet.{
  Outcome, done, refused, aborted, P, ◌>>=◌, patch, two_bytes, append, append_uint16, append_uint32,
  append_bytes, append_string, consume_uint16, consume_uint32, consume_bytes, consume_string, skip,
}
use qt_gretio.Avahi.Packet.Names.{append_name, consume_name, restore}

abbrev pub pure : {A : Type 0} → A → P A
pure x p = done x p

abbrev pub cache_flush_bit : ℕ
cache_flush_bit = 0x8000

-- The class without its top bit, and with it.
abbrev pub without_bit : ℕ → ℕ
without_bit class = class % cache_flush_bit

abbrev pub with_bit : ℕ → ℕ
with_bit class = cache_flush_bit + class % cache_flush_bit

-- The TXT case, and the default.
unfoldable pub parse_txt : ℕ → P Rdata
parse_txt rdlength p =
    if rdlength == 0
    then done (txt []) p
    else (elim (parse (take rdlength (drop p.rindex p.bytes))) [
      | none ↦ refused p
      | some l ↦ (skip rdlength >>= λ _. pure (txt l)) p
    ])

unfoldable pub parse_generic : ℕ → P Rdata
parse_generic rdlength p =
    if rdlength == 0
    then done (generic []) p
    else (skip rdlength >>= λ _. pure (generic (take rdlength (drop p.rindex p.bytes)))) p

-- `parse_rdata` for the member that a type selects, and rdlength.
unfoldable pub parse_member : Member → ℕ → P Rdata
parse_member is_ptr rdlength = consume_name domain_name_max >>= λ name. pure (ptr name)
parse_member is_srv rdlength = do
  priority ← consume_uint16
  weight ← consume_uint16
  port ← consume_uint16
  name ← consume_name domain_name_max
  pure (srv priority weight port name)
parse_member is_hinfo rdlength = do
  cpu ← consume_string domain_name_max
  os ← consume_string domain_name_max
  pure (hinfo (c_text cpu) (c_text os))
parse_member is_txt rdlength = parse_txt rdlength
parse_member is_a rdlength = consume_bytes 4 >>= λ x. pure (a x)
parse_member is_aaaa rdlength = consume_bytes 16 >>= λ x. pure (aaaa x)
parse_member is_generic rdlength = parse_generic rdlength

-- The reading must end where rdlength says.
unfoldable pub parse_rdata : ℕ → ℕ → P Rdata
parse_rdata type rdlength p = elim (parse_member (member_of type) rdlength p) [
  | done r p' ↦ if p'.rindex == p.rindex + rdlength then done r p' else refused p'
  | refused p' ↦ refused p'
  | aborted ↦ aborted
]

unfoldable pub make_record : List ℕ → ℕ → ℕ → ℕ → ℕ → P Record
make_record name type class ttl rdlength p = elim (key_new name class type) [
  | failed ↦ refused p
  | undefined ↦ aborted
  | ok k ↦ elim (parse_rdata type rdlength p) [
    | refused p' ↦ refused p'
    | aborted ↦ aborted
    | done r p' ↦
        let record' : Record = record { key = k; ttl = record_ttl ttl; rdata = r } in
        if record_is_valid record' then done record' p' else refused p'
  ]
]

-- The record, and whether its cache-flush bit is set.
unfoldable pub consume_record : P (Record × Bool)
consume_record = do
  name ← consume_name domain_name_max
  type ← consume_uint16
  class ← consume_uint16
  ttl ← consume_uint32
  rdlength ← consume_uint16
  λ p.
      if ltb (length p.bytes) (p.rindex + rdlength)
      then refused p
      else (make_record name type (without_bit class) ttl rdlength >>= λ r.
            pure (r, leb cache_flush_bit class))
          p

-- The key, and whether a unicast response is asked for.
unfoldable pub consume_key : P (Key × Bool)
consume_key = do
  name ← consume_name 256
  type ← consume_uint16
  class ← consume_uint16
  λ p. elim (key_new name (without_bit class) type) [
    | failed ↦ refused p
    | undefined ↦ aborted
    | ok k ↦ if key_is_valid k then done (k, leb cache_flush_bit class) p else refused p
  ]

-- A step that is refused restores the size at the start.
unfoldable pub or_restore : {A : Type 0} → P A → P A
or_restore m p = elim (m p) [
  | done x p' ↦ done x p'
  | refused p' ↦ refused (restore (length p.bytes) p')
  | aborted ↦ aborted
]

unfoldable pub append_key : Key → Bool → P ℕ
append_key k unicast_response = or_restore (do
  t ← append_name k.name
  _ ← append_uint16 k.type
  _ ← append_uint16 (if unicast_response then with_bit k.clazz else k.clazz)
  pure t)

unfoldable pub append_rdata : Rdata → P ℕ
append_rdata (ptr n) = append_name n
append_rdata (srv priority weight port name) = do
  _ ← append_uint16 priority
  _ ← append_uint16 weight
  _ ← append_uint16 port
  append_name name
append_rdata (hinfo cpu os) = append_string cpu >>= λ _. append_string os
append_rdata (txt l) = append (serialize l (serialized_size l))
append_rdata (a x) = append_bytes x
append_rdata (aaaa x) = append_bytes x
append_rdata (generic x) = if length x == 0 then pure 0 else append_bytes x

-- The length of the data is written into the two bytes at `l` when it is known.
unfoldable pub write_length : ℕ → ℕ → P (Unit {0})
write_length l start p =
    let size = length p.bytes - start in
    if ltb 0xFFFF size
    then aborted
    else done tt (record p { bytes = patch l (two_bytes size) p.bytes })

unfoldable pub append_record : Record → Bool → ℕ → P ℕ
append_record r cache_flush max_ttl = or_restore (do
  t ← append_name r.key.name
  _ ← append_uint16 r.key.type
  _ ← append_uint16 (if cache_flush then with_bit r.key.clazz else without_bit r.key.clazz)
  _ ← append_uint32 (if not (max_ttl == 0) && ltb max_ttl r.ttl then max_ttl else r.ttl)
  l ← append_uint16 0
  start ← (λ p. done (length p.bytes) p)
  _ ← append_rdata r.rdata
  _ ← write_length l start
  pure t)

-- `avahi_rdata_parse` and `avahi_rdata_serialize`: a packet that is only the data.
unfoldable pub rdata_parse : ℕ → List ℕ → Outcome Rdata
rdata_parse type rdata =
    parse_rdata type (length rdata) (record {
      bytes = rdata;
      rindex = 0;
      max_size = length rdata;
      res_size = 0;
      name_table = none;
    })

-- `none` is (size_t) -1.
unfoldable pub rdata_serialize : Rdata → ℕ → Option (Option (List ℕ))
rdata_serialize r max_size =
    elim (append_rdata r
      (record { bytes = []; rindex = 0; max_size = max_size; res_size = 0; name_table = none })) [
        | done d p ↦ some (some p.bytes)
        | refused p ↦ some none
        | aborted ↦ none
      ]
