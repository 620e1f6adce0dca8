-- ===== src/Avahi/StringList/Serialized.antt =====
-- The loops that write and read the serialized form of a list, on what fits the buffer.

use qt_gretio.Prelude.{
  ℕ, zero, suc, ◌+◌, ◌-◌, ◌≤◌, ◌<◌, min, ◌≡◌, refl, sym, ap, ◌∙◌, inl, inr, true, some, List, [],
  ◌∷◌, ◌++◌, arith, leb, Bool-cases, length, take, length-append, length-take,
}
use qt_gretio.Avahi.StringList.{StringList, parse_loop, reverse_loop, clipped, serialize_loop}
use qt_gretio.Avahi.StringList.Kept.{
  kept, need, take-min, if-zero, if-false, if-true, parse_loop-text, zero-or-positive, need-text,
  kept-text,
}

serialize_loop-clipped :
    (text : List ℕ) (l : StringList) (size : ℕ)
    → 0 < length text
    → 1 < size
    → serialize_loop (text ∷ l) size
      ≡ clipped (length text) size
        ∷ (take (clipped (length text) size) text
            ++ serialize_loop l (size - (1 + clipped (length text) size)))
unfolding serialize_loop
serialize_loop-clipped text l size h k = ground arith

take-length-take : (text : List ℕ) → take (length (take 255 text)) text ≡ take 255 text
take-length-take text =
    ap (λ k. take k text) (omega (arith, length-take 255 text)) ∙ take-min 255 text

-- A string that is not empty, in front of a list that fits.
serialize_loop-text :
    (text : List ℕ) (l : StringList) (size : ℕ)
    → 0 < length text
    → need (text ∷ l) ≤ size
    → serialize_loop (text ∷ l) size
      ≡ length (take 255 text)
        ∷ (take 255 text ++ serialize_loop l (size - (1 + length (take 255 text))))
serialize_loop-text text l size h k =
    let e : clipped (length text) size ≡ length (take 255 text) =
      omega (arith, length-take 255 text, need-text text l h) in
    serialize_loop-clipped text l size h (omega (arith, length-take 255 text, need-text text l h))
    ∙ ap (λ n. n ∷ (take n text ++ serialize_loop l (size - (1 + n)))) e
    ∙ ap
        (λ t.
          length (take 255 text) ∷ (t ++ serialize_loop l (size - (1 + length (take 255 text)))))
        (take-length-take text)

serialize_loop-small : (l : StringList) (size : ℕ) → leb size 1 ≡ true → serialize_loop l size ≡ []
unfolding serialize_loop
serialize_loop-small [] size h = refl
serialize_loop-small (text ∷ l) size h = if-true (leb size 1) [] _ h

-- An empty string is skipped.
serialize_loop-empty :
    (text : List ℕ) (l : StringList) (size : ℕ)
    → length text ≡ 0
    → serialize_loop (text ∷ l) size ≡ serialize_loop l size
unfolding serialize_loop
serialize_loop-empty text l size h = elim (Bool-cases (leb size 1)) [
  | inl t ↦ serialize_loop-small (text ∷ l) size t ∙ sym (serialize_loop-small l size t)
  | inr f ↦ if-false (leb size 1) _ _ f ∙ if-zero (length text) _ _ h
]

parse_loop-nothing :
    (f size : ℕ) (r : StringList) → parse_loop f (serialize_loop [] size) r ≡ some r
unfolding parse_loop serialize_loop
parse_loop-nothing f size r = refl

parse_loop-positive :
    (f : ℕ) (text rest : List ℕ) (r : StringList)
    → 0 < length text
    → 0 < f
    → parse_loop f (length text ∷ (text ++ rest)) r ≡ parse_loop (f - 1) rest (text ∷ r)
parse_loop-positive zero text rest r h p = ground arith
parse_loop-positive (suc f) text rest r h p =
    let e : f ≡ suc f - 1 = omega arith in
    parse_loop-text f text rest r h ∙ ap (λ n. parse_loop n rest (text ∷ r)) e

pub parse_loop-serialize_loop :
    (f size : ℕ) (l r : StringList)
    → need l ≤ size
    → length (serialize_loop l size) ≤ f
    → parse_loop f (serialize_loop l size) r ≡ some (reverse_loop r (kept l))
unfolding reverse_loop
parse_loop-serialize_loop f size [] r h k = parse_loop-nothing f size r
parse_loop-serialize_loop f size (text ∷ l) r h k = elim (zero-or-positive (length text)) [
  | inl z ↦
      ap (λ s. parse_loop f s r) (serialize_loop-empty text l size z)
      ∙ parse_loop-serialize_loop f size l r
          (omega (arith, if-zero (length text) (need l) (1 + min (length text) 255 + need l) z))
          (omega (arith, ap length (serialize_loop-empty text l size z)))
      ∙ ap (λ t. some (reverse_loop r t)) (sym (if-zero (length text) _ _ z))
  | inr p ↦
      let t = take 255 text in
      let rest = serialize_loop l (size - (1 + length t)) in
      let written : length (serialize_loop (text ∷ l) size) ≡ suc (length (t ++ rest)) =
        ap length (serialize_loop-text text l size p h) in
      ap (λ s. parse_loop f s r) (serialize_loop-text text l size p h)
      ∙ parse_loop-positive f t rest r (omega (arith, length-take 255 text))
          (omega (arith, written))
      ∙ parse_loop-serialize_loop (f - 1) (size - (1 + length t)) l (t ∷ r)
          (omega (arith, need-text text l p)) (omega (arith, written, length-append t rest))
      ∙ ap (λ t. some (reverse_loop r t)) (sym (kept-text text l p))
]

pub serialize_loop_bounds : (l : StringList) (size : ℕ) → length (serialize_loop l size) ≤ size
unfolding serialize_loop
serialize_loop_bounds [] size = omega arith
serialize_loop_bounds (text ∷ l) size = elim (Bool-cases (leb size 1)) [
  | inl t ↦ omega (arith, ap length (if-true (leb size 1) [] _ t))
  | inr f ↦ elim (zero-or-positive (length text)) [
    | inl z ↦
        omega (arith, serialize_loop_bounds l size, ap length (serialize_loop-empty text l size z))
    | inr p ↦
        let big : 1 < size = ground arith in
        let c = clipped (length text) size in
        omega (
          arith,
          length-take c text,
          length-append (take c text) (serialize_loop l (size - (1 + c))),
          serialize_loop_bounds l (size - (1 + c)),
          ap length (serialize_loop-clipped text l size p big),
        )
  ]
]

pub length-serialize_loop :
    (l : StringList) (size : ℕ) → need l ≤ size → length (serialize_loop l size) ≡ need l
unfolding serialize_loop
length-serialize_loop [] size h = refl
length-serialize_loop (text ∷ l) size h = elim (zero-or-positive (length text)) [
  | inl z ↦
      let e = if-zero (length text) (need l) (1 + min (length text) 255 + need l) z in
      ap length (serialize_loop-empty text l size z)
      ∙ length-serialize_loop l size (omega (arith, e))
      ∙ sym e
  | inr p ↦
      let t = take 255 text in
      let n = size - (1 + length t) in
      omega (
        arith,
        ap length (serialize_loop-text text l size p h),
        length-append t (serialize_loop l n),
        need-text text l p,
        length-serialize_loop l n (omega (arith, need-text text l p)),
      )
]
