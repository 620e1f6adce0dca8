-- ===== src/Tests/Names.antt =====
-- The names and texts of Avahi at concrete inputs.
use qt_gretio.Avahi.Domain.Totality.{is_valid_domain_name-total}
use qt_gretio.Avahi.StringList.Kept.{kept}
use qt_gretio.Prelude.{
  ℕ, ◌≤◌, ◌<◌, ◌≡◌, refl, Bool, true, false, some, List, [], ◌∷◌, ◌++◌, arith, length,
}
use qt_gretio.Avahi.Utf8.{utf8_valid, utf8_loop, utf8_step}
use qt_gretio.Avahi.Label.{
  unescape_label, escape_label, unescape_loop, label_step, escape_step, decimal_step, escape_byte,
}
use qt_gretio.Avahi.Label.Roundtrip.{AllChars, unescape_label-escape_label, at_end}
use qt_gretio.Avahi.Label.Bounds.{unescape_label_bounds}
use qt_gretio.Avahi.Domain.{domain_equal, domain_hash, is_valid_domain_name, equal_loop, valid_loop}
use qt_gretio.Avahi.Domain.Hashing.{domain_hash-domain_equal}
use qt_gretio.Avahi.StringList.{StringList, parse, serialize, serialized_size, size_loop}
use qt_gretio.Avahi.StringList.Roundtrip.{parse-serialize}

-- "a.b\" as a label.
abbrev label : List ℕ
label = b'a' ∷ b'.' ∷ b'b' ∷ 92 ∷ []

label-utf8_valid : utf8_valid label ≡ true
unfolding utf8_valid utf8_loop utf8_step
label-utf8_valid = refl

label_fits : (escape_label label 20).success ≡ true
unfolding escape_label escape_byte
label_fits = refl

unescape_label-escape_label_example :
    unescape_label 64 ((escape_label label 20).bytes ++ []) ≡ some (label, [])
unescape_label-escape_label_example =
    unescape_label-escape_label label 64 20 [] [] (omega arith) label-utf8_valid (omega arith)
      label_fits (omega arith) at_end

-- The name "Ab.c" and, behind it, "aB.C".
abbrev name_one : List ℕ
name_one = b'A' ∷ b'b' ∷ b'.' ∷ b'c' ∷ []

abbrev name_two : List ℕ
name_two = b'a' ∷ b'B' ∷ b'.' ∷ b'C' ∷ []

abbrev ab : List ℕ
ab = b'A' ∷ b'b' ∷ []

abbrev c : List ℕ
c = b'c' ∷ []

name_one_label : unescape_label 64 name_one ≡ some (ab, c)
unfolding unescape_label unescape_loop label_step escape_step decimal_step utf8_valid utf8_loop
    utf8_step
name_one_label = refl

names_equal : domain_equal false name_one name_two ≡ some true
unfolding domain_equal equal_loop unescape_label unescape_loop label_step escape_step decimal_step
    utf8_valid utf8_loop utf8_step
names_equal = refl

name_one-is_valid : is_valid_domain_name name_one ≡ true
unfolding is_valid_domain_name valid_loop unescape_label unescape_loop label_step escape_step
    decimal_step utf8_valid utf8_loop utf8_step
name_one-is_valid = refl

name_two-is_valid : is_valid_domain_name name_two ≡ true
unfolding is_valid_domain_name valid_loop unescape_label unescape_loop label_step escape_step
    decimal_step utf8_valid utf8_loop utf8_step
name_two-is_valid = refl

unescape_label_bounds_example :
    (length ab < 64)
    × (utf8_valid ab ≡ true)
    × (length c ≤ length name_one)
    × ((0 < length name_one) → length c < length name_one)
    × (AllChars name_one → AllChars ab × AllChars c)
unescape_label_bounds_example = unescape_label_bounds 64 name_one ab c name_one_label

domain_hash-domain_equal_example :
    (n : ℕ) × (domain_hash name_one ≡ some n) × (domain_hash name_two ≡ some n)
domain_hash-domain_equal_example = domain_hash-domain_equal name_one name_two names_equal

is_valid_domain_name-total_example :
    ((n : ℕ) × (domain_hash name_one ≡ some n))
    × ((r : Bool) × (domain_equal false name_one name_two ≡ some r))
is_valid_domain_name-total_example =
    is_valid_domain_name-total name_one name_two false name_one-is_valid name_two-is_valid

-- "a=1", the empty string, and "b".
abbrev texts : StringList
texts = (b'a' ∷ b'=' ∷ b'1' ∷ []) ∷ [] ∷ (b'b' ∷ []) ∷ []

room : serialized_size texts ≤ 9
unfolding serialized_size size_loop
room = omega arith

parse-serialize_example : parse (serialize texts 9) ≡ some (kept texts)
parse-serialize_example = parse-serialize texts 9 room
