-- ===== src/Avahi/StringList/Roundtrip.antt =====
-- Lists of TXT strings through their serialized form and back.

use qt_gretio.Prelude.{
  ℕ, ◌+◌, ◌≤◌, ◌<◌, min, ◌≡◌, refl, sym, ap, ◌∙◌, ◌⊎◌, inl, inr, some, [], ◌∷◌, arith, length,
}
use qt_gretio.Avahi.StringList.{
  StringList, parse_loop, parse, reverse_list, serialize_loop, serialize, serialized_size,
}
use qt_gretio.Avahi.StringList.Serialized.{
  parse_loop-serialize_loop, length-serialize_loop, serialize_loop_bounds,
}
use qt_gretio.Avahi.StringList.Kept.{
  kept, need, zero-or-positive, if-zero, need-text, need-reverse_loop, reverse_list-reverse_list,
  kept-reverse_loop, size_loop-need,
}

kept-nothing : (l : StringList) → need l ≡ 0 → kept l ≡ []
kept-nothing [] h = refl
kept-nothing (text ∷ l) h = elim (zero-or-positive (length text)) [
  | inl z ↦
      let e = if-zero (length text) (need l) (1 + min (length text) 255 + need l) z in
      if-zero (length text) _ _ z ∙ kept-nothing l (omega (arith, e))
  | inr p ↦ ground (arith, need-text text l p)
]

length-written :
    (l : StringList) (size : ℕ)
    → need l ≤ size
    → length (serialize_loop (reverse_list l) size) ≡ need l
unfolding reverse_list
length-written l size h =
    let e : need (reverse_list l) ≡ need l = omega (arith, need-reverse_loop [] l) in
    length-serialize_loop (reverse_list l) size (omega (arith, e)) ∙ e

parse-written :
    (l : StringList) (size : ℕ)
    → need l ≤ size
    → parse (serialize_loop (reverse_list l) size) ≡ some (kept l)
unfolding parse reverse_list
parse-written l size h =
    let w = serialize_loop (reverse_list l) size in
    parse_loop-serialize_loop (length w) size (reverse_list l) []
      (omega (arith, need-reverse_loop [] l)) (omega arith)
    ∙ ap (λ k. some (reverse_list k)) (kept-reverse_loop [] l)
    ∙ ap some (reverse_list-reverse_list (kept l))

-- The size that the call without a buffer gives is at least 1, and room for the strings.
serialized_size-need :
    (l : StringList)
    → ((need l ≡ 0) × (serialized_size l ≡ 1)) ⊎ ((0 < need l) × (serialized_size l ≡ need l))
unfolding serialized_size
serialized_size-need l = ground (arith, size_loop-need l 0)

serialize-nothing : (l : StringList) (size : ℕ) → need l ≡ 0 → 1 ≤ size → serialize l size ≡ 0 ∷ []
unfolding serialize
serialize-nothing l size h k = ground (arith, length-written l size)

serialize-something :
    (l : StringList) (size : ℕ)
    → 0 < need l
    → need l ≤ size
    → serialize l size ≡ serialize_loop (reverse_list l) size
unfolding serialize
serialize-something l size h k = ground (arith, length-written l size)

parse-zero : parse (0 ∷ []) ≡ some []
unfolding parse parse_loop
parse-zero = refl

-- However small the buffer, no more than its size is written.
pub serialize_bounds : (l : StringList) (size : ℕ) → length (serialize l size) ≤ size
unfolding serialize
serialize_bounds l size = ground (arith, serialize_loop_bounds (reverse_list l) size)

-- When the buffer has the size that the call without a buffer asks for, parsing what is written
-- gives back the strings that are not empty, in their order, each cut at 255 bytes.
pub parse-serialize :
    (l : StringList) (size : ℕ)
    → serialized_size l ≤ size
    → parse (serialize l size) ≡ some (kept l)
parse-serialize l size h = elim (serialized_size-need l) [
  | inl (z, e) ↦
      ap parse (serialize-nothing l size z (omega arith))
      ∙ parse-zero
      ∙ ap some (sym (kept-nothing l z))
  | inr (p, e) ↦
      let room : need l ≤ size = omega arith in
      ap parse (serialize-something l size p room) ∙ parse-written l size room
]

-- The size that the call without a buffer asks for is exactly the number of bytes that are written
-- when there is room for them.
pub serialized_size-serialize :
    (l : StringList) (size : ℕ)
    → serialized_size l ≤ size
    → length (serialize l size) ≡ serialized_size l
serialized_size-serialize l size h = elim (serialized_size-need l) [
  | inl (z, e) ↦ ap length (serialize-nothing l size z (omega arith)) ∙ sym e
  | inr (p, e) ↦
      let room : need l ≤ size = omega arith in
      ap length (serialize-something l size p room) ∙ length-written l size room ∙ sym e
]
