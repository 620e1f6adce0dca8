-- ===== src/Avahi/Packet.antt =====
-- QtZeroConf/avahi-core/dns.c: DNS packets. `bytes` are the first `size` bytes of the packet's
-- memory, all of which have been written. A function that returns NULL or -1 is refused and leaves
-- a packet behind; a failed assertion, or a read of memory that was not written, aborts.
pub mod Names
pub mod Records
pub mod Reading
pub mod Spelling
pub mod Index
pub mod Appending
pub mod Compression
pub mod Roundtrip
pub mod Keys
pub mod Growth
pub mod Atomic
pub mod Numbers
use qt_gretio.Prelude.{
  ℕ, ◌+◌, ◌-◌, ◌*◌, ◌/◌, ◌%◌, min, Bool, false, Option, none, some, List, [], ◌∷◌, ◌++◌, ltb, leb,
  ◌==◌, if◌then◌else◌, length, take, drop, replicate,
}
use qt_gretio.Avahi.Hashmap.{Hashmap}

abbrev pub header_size : ℕ
header_size = 12

abbrev pub packet_size_max : ℕ
packet_size_max = header_size + 256 + 2 + 2 + 4 + 2 + 0xFFFF

-- The table maps a name to the index of its first label.
pub record Packet : Type 0 where
  pub bytes : List ℕ
  pub rindex : ℕ
  pub max_size : ℕ
  pub res_size : ℕ
  pub name_table : Option (Hashmap (List ℕ) ℕ)

pub data Outcome (A : Type 0) : Type 0 where
  done : A → Packet → Outcome A
  refused : Packet → Outcome A
  aborted : Outcome A

abbrev pub P : Type 0 → Type 0
P A = Packet → Outcome A

module _ {A B : Type 0} where
  infixl 5 ◌>>=◌
  unfoldable pub ◌>>=◌ : P A → (A → P B) → P B
  ◌>>=◌ m f p = elim (m p) [ done a p' ↦ f a p' | refused p' ↦ refused p' | aborted ↦ aborted ]

unfoldable pub new_packet : ℕ → Packet
new_packet mtu =
    let wanted = if mtu == 0 then packet_size_max else if leb 48 mtu then mtu - 48 else 0 in
    record {
      bytes = replicate header_size 0;
      rindex = header_size;
      max_size = if ltb wanted header_size then header_size else wanted;
      res_size = 0;
      name_table = none;
    }

-- The bytes from an offset on, replaced.
abbrev pub patch : ℕ → List ℕ → List ℕ → List ℕ
patch i new bytes = take i bytes ++ new ++ drop (i + length new) bytes

abbrev pub two_bytes : ℕ → List ℕ
two_bytes v = v / 256 % 256 ∷ v % 256 ∷ []

abbrev pub four_bytes : ℕ → List ℕ
four_bytes v = v / 16777216 % 256 ∷ v / 65536 % 256 ∷ v / 256 % 256 ∷ v % 256 ∷ []

unfoldable pub set_field : ℕ → ℕ → Packet → Packet
set_field idx v p = record p { bytes = patch (2 * idx) (two_bytes v) p.bytes }

abbrev pub uint16_at : List ℕ → Option ℕ
uint16_at (a ∷ b ∷ s) = some (a * 256 + b)
uint16_at _ = none

abbrev pub uint32_at : List ℕ → Option ℕ
uint32_at (a ∷ b ∷ c ∷ d ∷ s) = some (a * 16777216 + b * 65536 + c * 256 + d)
uint32_at _ = none

unfoldable pub get_field : ℕ → Packet → Option ℕ
get_field idx p = uint16_at (drop (2 * idx) p.bytes)

unfoldable pub inc_field : ℕ → Packet → Option Packet
inc_field idx p = elim (get_field idx p) [
  | none ↦ none
  | some v ↦ some (set_field idx ((v + 1) % 65536) p)
]

unfoldable pub new_query : ℕ → Packet
new_query mtu = set_field 1 0 (new_packet mtu)

unfoldable pub new_response : ℕ → Bool → Packet
new_response mtu aa = set_field 1 (32768 + (if aa then 1024 else 0)) (new_packet mtu)

unfoldable pub check_valid : Packet → Option Bool
check_valid p =
    if ltb (length p.bytes) header_size
    then some false
    else (elim (get_field 1 p) [ none ↦ none | some flags ↦ some (flags / 2048 % 16 == 0) ])

unfoldable pub check_valid_multicast : Packet → Option Bool
check_valid_multicast p = elim (check_valid p) [
  | none ↦ none
  | some valid ↦
      if valid
      then (elim (get_field 1 p) [ none ↦ none | some flags ↦ some (flags % 16 == 0) ])
      else some false
]

unfoldable pub is_query : Packet → Option Bool
is_query p = elim (get_field 1 p) [ none ↦ none | some flags ↦ some (flags / 32768 % 2 == 0) ]

-- `avahi_dns_packet_extend`, and what the caller then writes: the offset of it.
unfoldable pub append : List ℕ → P ℕ
append new p =
    if ltb p.max_size (length p.bytes + length new)
    then refused p
    else done (length p.bytes) (record p { bytes = p.bytes ++ new })

unfoldable pub append_uint16 : ℕ → P ℕ
append_uint16 v = append (two_bytes v)

unfoldable pub append_uint32 : ℕ → P ℕ
append_uint32 v = append (four_bytes v)

unfoldable pub append_bytes : List ℕ → P ℕ
append_bytes b p = if length b == 0 then aborted else append b p

unfoldable pub append_string : List ℕ → P ℕ
append_string s = let k = if leb 255 (length s) then 255 else length s in append (k ∷ take k s)

unfoldable pub consume_uint16 : P ℕ
consume_uint16 p =
    if ltb (length p.bytes) (p.rindex + 2)
    then refused p
    else (elim (uint16_at (drop p.rindex p.bytes)) [
      | none ↦ aborted
      | some v ↦ done v (record p { rindex = p.rindex + 2 })
    ])

unfoldable pub consume_uint32 : P ℕ
consume_uint32 p =
    if ltb (length p.bytes) (p.rindex + 4)
    then refused p
    else (elim (uint32_at (drop p.rindex p.bytes)) [
      | none ↦ aborted
      | some v ↦ done v (record p { rindex = p.rindex + 4 })
    ])

unfoldable pub consume_bytes : ℕ → P (List ℕ)
consume_bytes l p =
    if ltb (length p.bytes) (p.rindex + l)
    then refused p
    else done (take l (drop p.rindex p.bytes)) (record p { rindex = p.rindex + l })

-- The bytes that are copied in front of the NUL, for a buffer of l bytes.
unfoldable pub consume_string : ℕ → P (List ℕ)
consume_string l p = elim (drop p.rindex p.bytes) [
  | [] ↦ refused p
  | k ∷ rest ↦
      if ltb (length p.bytes) (p.rindex + 1 + k)
      then refused p
      else done (take (min l (k + 1) - 1) rest) (record p { rindex = p.rindex + 1 + k })
]

unfoldable pub skip : ℕ → P (Unit {0})
skip n p =
    if ltb (length p.bytes) (p.rindex + n)
    then refused p
    else done tt (record p { rindex = p.rindex + n })

unfoldable pub is_empty : Packet → Bool
is_empty p = leb (length p.bytes) header_size

unfoldable pub space : Packet → Option ℕ
space p = if leb (length p.bytes) p.max_size then some (p.max_size - length p.bytes) else none

unfoldable pub reserve_size : ℕ → Packet → Option (ℕ × Packet)
reserve_size n p =
    let p' = record p { res_size = p.res_size + n } in
    if ltb p.max_size (length p.bytes + p.res_size)
    then none
    else if leb (length p.bytes + p.res_size + n) p.max_size
    then some (p.res_size + n, p')
    else some (p.res_size, p)

unfoldable pub reserved_space : Packet → Option ℕ
reserved_space p =
    if leb (length p.bytes + p.res_size) p.max_size
    then some (p.max_size - length p.bytes - p.res_size)
    else none
