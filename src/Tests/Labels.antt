-- ===== src/Tests/Labels.antt =====
-- Avahi's names, as lists of labels, at concrete inputs.
use qt_gretio.Prelude.{ℕ, ◌≡◌, refl, true, false, some, List, [], ◌∷◌, ◌++◌, arith, length}
use qt_gretio.Avahi.Utf8.{utf8_valid, utf8_loop, utf8_step}
use qt_gretio.Avahi.Label.{
  unescape_label, unescape_loop, label_step, escape_step, decimal_step, escape_byte,
}
use qt_gretio.Avahi.Label.Roundtrip.{AllChars}
use qt_gretio.Avahi.Label.Joined.{Labels, no_label, one_more, joined}
use qt_gretio.Avahi.Domain.{
  domain_equal, is_valid_domain_name, is_valid_service_name, is_valid_service_type_generic,
  valid_loop, generic_loop,
}
use qt_gretio.Avahi.Normal.{
  named, normalized, normalize_name, service_name_join, service_name_split,
}
use qt_gretio.Avahi.Normal.Joined.{normalize_name-joined}
use qt_gretio.Avahi.Normal.Rejoined.{service_name_split-service_name_join}
use qt_gretio.Avahi.Hashmap.History.{TableCall, insert_key, replace_key, remove_key}
use qt_gretio.Avahi.Record.{Key}
use qt_gretio.Avahi.Packet.{Packet, done, new_packet}
use qt_gretio.Avahi.Packet.Records.{append_key, consume_key}
use qt_gretio.Avahi.Packet.Numbers.{at, grown}
use qt_gretio.Avahi.Packet.Roundtrip.{IsIndexed, new_packet-IsIndexed}
use qt_gretio.Avahi.Packet.Keys.{append_key-consume_key}

-- Labels, and the name "Web.local.".
abbrev local : List ℕ
local = b'l' ∷ b'o' ∷ b'c' ∷ b'a' ∷ b'l' ∷ []

abbrev http : List ℕ
http = b'_' ∷ b'h' ∷ b't' ∷ b't' ∷ b'p' ∷ []

abbrev web : List ℕ
web = b'W' ∷ b'e' ∷ b'b' ∷ []

abbrev local_dot : List ℕ
local_dot = local ++ b'.' ∷ []

abbrev web_local : List ℕ
web_local = web ++ b'.' ∷ local_dot

local_label : unescape_label 64 local_dot ≡ some (local, [])
unfolding unescape_label unescape_loop label_step escape_step decimal_step utf8_valid utf8_loop
    utf8_step
local_label = refl

web_label : unescape_label 64 web_local ≡ some (web, local_dot)
unfolding unescape_label unescape_loop label_step escape_step decimal_step utf8_valid utf8_loop
    utf8_step
web_label = refl

http_label : unescape_label 64 http ≡ some (http, [])
unfolding unescape_label unescape_loop label_step escape_step decimal_step utf8_valid utf8_loop
    utf8_step
http_label = refl

local-Labels : Labels local_dot (local ∷ [])
local-Labels = one_more _ _ local [] [] local_label (omega arith) no_label

web_local-Labels : Labels web_local (web ∷ local ∷ [])
web_local-Labels = one_more _ _ web local_dot (local ∷ []) web_label (omega arith) local-Labels

http-Labels : Labels http (http ∷ [])
http-Labels = one_more _ _ http [] [] http_label (omega arith) no_label

chars-local : AllChars local_dot
chars-local = ground arith

chars-web_local : AllChars web_local
chars-web_local = ground arith

-- What is written for the two labels.
short : length (joined true (web ∷ local ∷ [])) ≡ 9
unfolding escape_byte
short = refl

normalize_name-joined_example :
    (normalize_name web_local 64 ≡ normalized (joined true (web ∷ local ∷ [])))
    × (normalize_name (joined true (web ∷ local ∷ [])) 64
        ≡ normalized (joined true (web ∷ local ∷ [])))
    × (domain_equal false web_local (joined true (web ∷ local ∷ [])) ≡ some true)
normalize_name-joined_example =
    normalize_name-joined web_local (web ∷ local ∷ []) 64 web_local-Labels chars-web_local
      (omega (arith, short))

abbrev key_one : List ℕ
key_one = b'a' ∷ []

abbrev key_two : List ℕ
key_two = b'b' ∷ []

abbrev unused : ℕ → List ℕ × ℕ
unused e = ([], 0)

abbrev calls : List (TableCall (List ℕ) ℕ)
calls =
    insert_key key_one 1 ∷ insert_key key_two 2 ∷ replace_key key_one 3 ∷ remove_key key_two ∷ []

abbrev web_key : Key
web_key = record { name = web_local; clazz = 1; type = 16 }

append_key-consume_key_example :
    let p = new_packet 1000 in
    (p' : Packet) × (append_key web_key true p ≡ done (length p.bytes) p')
    × (consume_key (at (length p.bytes) (grown (0 ∷ []) p'))
        ≡ done
            (record web_key { name = joined true (web ∷ local ∷ []) }, true)
            (at (length p'.bytes) (grown (0 ∷ []) p')))
    × IsIndexed p'
unfolding new_packet
append_key-consume_key_example =
    append_key-consume_key (new_packet 1000) web_key (web ∷ local ∷ []) true (0 ∷ [])
      (new_packet-IsIndexed 1000) chars-web_local web_local-Labels (omega arith)
      (omega (arith, short)) (omega arith, omega arith) (omega arith)

abbrev tcp : List ℕ
tcp = b'_' ∷ b't' ∷ b'c' ∷ b'p' ∷ []

abbrev http_tcp : List ℕ
http_tcp = http ++ b'.' ∷ tcp

-- A service name with a dot and a space.
abbrev my_web : List ℕ
my_web = b'M' ∷ b'y' ∷ b'.' ∷ b' ' ∷ b'w' ∷ []

my_web-utf8_valid : utf8_valid my_web ≡ true
unfolding utf8_valid utf8_loop utf8_step
my_web-utf8_valid = refl

my_web-is_valid : is_valid_service_name my_web ≡ true
unfolding is_valid_service_name
my_web-is_valid = refl

http_tcp-is_valid : is_valid_service_type_generic http_tcp ≡ true
unfolding is_valid_service_type_generic generic_loop unescape_label unescape_loop label_step
    escape_step decimal_step utf8_valid utf8_loop utf8_step
http_tcp-is_valid = refl

local-is_valid : is_valid_domain_name local_dot ≡ true
unfolding is_valid_domain_name valid_loop unescape_label unescape_loop label_step escape_step
    decimal_step utf8_valid utf8_loop utf8_step
local-is_valid = refl

http_tcp_label : unescape_label 64 http_tcp ≡ some (http, tcp)
unfolding unescape_label unescape_loop label_step escape_step decimal_step utf8_valid utf8_loop
    utf8_step
http_tcp_label = refl

tcp_label : unescape_label 64 tcp ≡ some (tcp, [])
unfolding unescape_label unescape_loop label_step escape_step decimal_step utf8_valid utf8_loop
    utf8_step
tcp_label = refl

http_tcp-Labels : Labels http_tcp (http ∷ tcp ∷ [])
http_tcp-Labels =
    one_more _ _ http tcp (tcp ∷ []) http_tcp_label (omega arith)
      (one_more _ _ tcp [] [] tcp_label (omega arith) no_label)

service_text : length (joined true (my_web ∷ http ∷ tcp ∷ local ∷ [])) ≡ 26
unfolding escape_byte
service_text = refl

type_text : length (joined true (http ∷ tcp ∷ [])) ≡ 10
unfolding escape_byte
type_text = refl

domain_text : length (joined true (local ∷ [])) ≡ 5
unfolding escape_byte
domain_text = refl

chars-service : AllChars my_web × AllChars http_tcp × AllChars local_dot
chars-service = ground arith

service_name_split-service_name_join_example :
    (text : List ℕ) × (service_name_join 256 (some my_web) http_tcp local_dot ≡ named text)
    × (service_name_split text true 64 256 256
        ≡ named (my_web, joined true (http ∷ tcp ∷ []), joined true (local ∷ [])))
service_name_split-service_name_join_example =
    service_name_split-service_name_join my_web http_tcp local_dot http local (tcp ∷ []) [] 256 64
      256 256 chars-service my_web-utf8_valid my_web-is_valid http_tcp-is_valid local-is_valid
      http_tcp-Labels local-Labels (refl, (refl, tt)) refl (omega (arith, service_text))
      (omega arith, omega (arith, type_text), omega (arith, domain_text))
