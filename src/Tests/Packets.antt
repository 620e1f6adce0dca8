-- ===== src/Tests/Packets.antt =====
-- Avahi's tables, records and packets at concrete inputs.
use qt_gretio.Prelude.{◌≡◌, false, none, [], ◌∷◌, ◌++◌, replicate}
use qt_gretio.Avahi.Record.{Key, a, Record}
use qt_gretio.Avahi.Record.Compare.{record_lexicographical_compare}
use qt_gretio.Avahi.Record.Order.{flip_some, record_lexicographical_compare-flip}
use qt_gretio.Avahi.Packet.{Packet}

abbrev host : Key
host = record { name = b'a' ∷ []; clazz = 1; type = 1 }

abbrev address_one : Record
address_one = record { key = host; ttl = 120; rdata = a (10 ∷ 0 ∷ 0 ∷ 1 ∷ []) }

abbrev address_two : Record
address_two = record { key = host; ttl = 120; rdata = a (10 ∷ 0 ∷ 0 ∷ 2 ∷ []) }

record_lexicographical_compare-flip_example :
    record_lexicographical_compare false address_two address_one
    ≡ flip_some (record_lexicographical_compare false address_one address_two)
record_lexicographical_compare-flip_example =
    record_lexicographical_compare-flip false address_one address_two

-- A packet of 15 bytes, whose header is followed by the name "a".
abbrev named : Packet
named = record {
  bytes = replicate 12 0 ++ 1 ∷ b'a' ∷ 0 ∷ [];
  rindex = 12;
  max_size = 100;
  res_size = 0;
  name_table = none;
}
