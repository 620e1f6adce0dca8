-- ===== src/Avahi/StringList/Kept.antt =====
-- The strings of a list that serializing it keeps, and the bytes that they need.
use mathlib.Core.List.{append-nil}
use qt_gretio.Prelude.{
  ℕ, zero, suc, ◌+◌, ◌<◌, min, ◌≡◌, refl, ap, ◌∙◌, ◌⊎◌, inl, inr, Bool, true, false, List, [], ◌∷◌,
  ◌++◌, arith, ◌==◌, if◌then◌else◌, length, take, length-append, length-take, take-length,
  drop-length,
}
use qt_gretio.Avahi.StringList.{
  StringList, add_arbitrary, parse_loop, reverse_loop, reverse_list, size_loop,
}

-- What the serialized form keeps: strings that are not empty, up to 255 bytes of each.
abbrev pub kept : StringList → StringList
kept [] = []
kept (text ∷ l) = if length text == 0 then kept l else take 255 text ∷ kept l

-- The bytes that it takes.
abbrev pub need : StringList → ℕ
need [] = 0
need (text ∷ l) = if length text == 0 then need l else 1 + min (length text) 255 + need l

module _ {ℓ} {A : Type ℓ} where
  pub take-min : (n : ℕ) (xs : List A) → take (min (length xs) n) xs ≡ take n xs
  take-min zero xs = let e : min (length xs) 0 ≡ 0 = omega arith in ap (λ k. take k xs) e
  take-min (suc n) [] = let e : min 0 (suc n) ≡ 0 = omega arith in ap (λ k. take k []) e
  take-min (suc n) (x ∷ xs) =
      let e : min (suc (length xs)) (suc n) ≡ suc (min (length xs) n) = omega arith in
      ap (λ k. take k (x ∷ xs)) e ∙ ap (λ t. x ∷ t) (take-min n xs)

module _ {A : Type 0} where
  if-positive : (n : ℕ) (x y : A) → 0 < n → (if n == 0 then x else y) ≡ y
  if-positive n x y h = ground arith

  pub if-zero : (n : ℕ) (x y : A) → n ≡ 0 → (if n == 0 then x else y) ≡ x
  if-zero n x y h = ground arith

  pub if-false : (b : Bool) (x y : A) → b ≡ false → (if b then x else y) ≡ y
  if-false b x y h = ground arith

  pub if-true : (b : Bool) (x y : A) → b ≡ true → (if b then x else y) ≡ x
  if-true b x y h = ground arith

reverse_loop-reverse_loop :
    (s r l : StringList) → reverse_loop s (reverse_loop r l) ≡ reverse_loop (l ++ s) r
unfolding reverse_loop
reverse_loop-reverse_loop s r [] = refl
reverse_loop-reverse_loop s r (n ∷ l) = reverse_loop-reverse_loop s (n ∷ r) l

pub reverse_list-reverse_list : (l : StringList) → reverse_list (reverse_list l) ≡ l
unfolding reverse_list reverse_loop
reverse_list-reverse_list l = reverse_loop-reverse_loop [] [] l ∙ append-nil l

pub kept-reverse_loop :
    (r l : StringList) → kept (reverse_loop r l) ≡ reverse_loop (kept r) (kept l)
unfolding reverse_loop
kept-reverse_loop r [] = refl
kept-reverse_loop r (text ∷ l) = ground (arith, kept-reverse_loop (text ∷ r) l)

pub need-reverse_loop : (r l : StringList) → need (reverse_loop r l) ≡ need r + need l
unfolding reverse_loop
need-reverse_loop r [] = omega arith
need-reverse_loop r (text ∷ l) = ground (arith, need-reverse_loop (text ∷ r) l)

pub size_loop-need : (l : StringList) (used : ℕ) → size_loop l used ≡ used + need l
unfolding size_loop
size_loop-need [] used = omega arith
size_loop-need (text ∷ l) used =
    ground (arith, size_loop-need l used, size_loop-need l (used + (1 + min (length text) 255)))

-- One string in front of more bytes is read.
pub parse_loop-text :
    (f : ℕ) (text rest : List ℕ) (r : StringList)
    → 0 < length text
    → parse_loop (suc f) (length text ∷ (text ++ rest)) r ≡ parse_loop f rest (text ∷ r)
unfolding parse_loop add_arbitrary
parse_loop-text f text rest r h =
    ground (arith, take-length text rest, drop-length text rest, length-append text rest)

pub zero-or-positive : (n : ℕ) → (n ≡ 0) ⊎ (0 < n)
zero-or-positive zero = inl refl
zero-or-positive (suc n) = inr (omega arith)

pub need-text :
    (text : List ℕ) (l : StringList)
    → 0 < length text
    → need (text ∷ l) ≡ 1 + length (take 255 text) + need l
need-text text l h =
    if-positive (length text) (need l) (1 + min (length text) 255 + need l) h
    ∙ omega (arith, length-take 255 text)

pub kept-text :
    (text : List ℕ) (l : StringList) → 0 < length text → kept (text ∷ l) ≡ take 255 text ∷ kept l
kept-text text l h = if-positive (length text) (kept l) (take 255 text ∷ kept l) h
