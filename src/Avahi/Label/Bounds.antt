-- ===== src/Avahi/Label/Bounds.antt =====
-- What `avahi_unescape_label` leaves: a label that fits the buffer, and a shorter name.
use qt_gretio.Prelude.{
  ℕ, zero, suc, ◌+◌, ◌≤◌, ◌<◌, ◌≡◌, refl, subst, ◌⊎◌, inl, inr, true, Option, none, some, List, [],
  ◌∷◌, arith, leb, Bool-cases, length,
}
use qt_gretio.Avahi.Utf8.{utf8_valid}
use qt_gretio.Avahi.Label.{
  Step, ends, emits, fails, decimal_step, escape_step, label_step, unescape_loop, unescape_label,
}
use qt_gretio.Avahi.Label.Roundtrip.{AllChars}

-- What one step leaves.
abbrev Leaves : List ℕ → Step → Type 0
Leaves name (ends rest) =
    (length rest ≤ length name)
    × ((0 < length name) → length rest < length name)
    × (AllChars name → AllChars rest)
Leaves name (emits c rest) =
    (length rest < length name) × (AllChars name → ((0 < c) × (c < 256)) × AllChars rest)
Leaves name fails = Unit {0}

decimal_step-Leaves : (a : ℕ) (s : List ℕ) → Leaves (a ∷ s) (decimal_step a s)
unfolding decimal_step
decimal_step-Leaves a [] = tt
decimal_step-Leaves a (b ∷ []) = tt
decimal_step-Leaves a (b ∷ c ∷ s) = ground arith

escape_step-Leaves : (s : List ℕ) → Leaves s (escape_step s)
unfolding escape_step
escape_step-Leaves [] = tt
escape_step-Leaves (c ∷ s) = ground (arith, decimal_step-Leaves c s)

Leaves-longer : (c : ℕ) (s : List ℕ) (t : Step) → Leaves s t → Leaves (c ∷ s) t
Leaves-longer c s (ends rest) h = (omega arith, λ p. omega arith, λ v. h.2 v.1)
Leaves-longer c s (emits d rest) h = (omega arith, λ v. h.1 v.1)
Leaves-longer c s fails h = tt

label_step-Leaves : (name : List ℕ) → Leaves name (label_step name)
unfolding label_step
label_step-Leaves [] = (omega arith, λ h. absurd (omega arith), λ v. v)
label_step-Leaves (c ∷ s) = ground (arith, Leaves-longer c s (escape_step s) (escape_step-Leaves s))

-- The three things that a step can be, with the equation.
Step-cases :
    (t : Step)
    → ((rest : List ℕ) × (t ≡ ends rest))
      ⊎ ((c : ℕ) × (rest : List ℕ) × (t ≡ emits c rest))
      ⊎ (t ≡ fails)
Step-cases (ends rest) = inl (rest, refl)
Step-cases (emits c rest) = inr (inl (c, rest, refl))
Step-cases fails = inr (inr refl)

-- What the loop leaves.
abbrev LoopLeaves : ℕ → ℕ → List ℕ → Option (List ℕ × List ℕ) → Type 0
LoopLeaves size i name none = Unit {0}
LoopLeaves size i name (some (label, rest)) =
    (i + length label < size)
    × (length rest ≤ length name)
    × ((0 < length name) → length rest < length name)
    × (AllChars name → AllChars label × AllChars rest)

emit-LoopLeaves :
    (size i c : ℕ) (name rest : List ℕ) (r : Option (List ℕ × List ℕ))
    → Leaves name (emits c rest)
    → LoopLeaves size (i + 1) rest r
    → LoopLeaves size i name (elim r as (λ r. Option (List ℕ × List ℕ)) [
      | none ↦ none
      | some (label, after) ↦ some (c ∷ label, after)
    ])
emit-LoopLeaves size i c name rest none h k = tt
emit-LoopLeaves size i c name rest (some (label, after)) h k = (
  omega arith,
  omega arith,
  λ p. omega arith,
  λ v. (((h.1 v).0, (k.3 (h.1 v).1).0), (k.3 (h.1 v).1).1),
)

unescape_loop-LoopLeaves :
    (f size i : ℕ) (name : List ℕ) → LoopLeaves size i name (unescape_loop f size i name)
unfolding unescape_loop
unescape_loop-LoopLeaves zero size i name = tt
unescape_loop-LoopLeaves (suc f) size i name = elim (Bool-cases (leb size i)) [
  | inl full ↦ rw (unescape_loop, full) tt
  | inr fits ↦ elim (Step-cases (label_step name)) [
    | inl (rest, e) ↦
        let known = subst (Leaves name) e (label_step-Leaves name) in
        rw (unescape_loop, fits, e) (ground arith, known.0, known.1, λ v. (tt, known.2 v))
    | inr (inl (c, rest, e)) ↦
        rw (unescape_loop, fits, e)
          (emit-LoopLeaves size i c name rest (unescape_loop f size (i + 1) rest)
            (subst (Leaves name) e (label_step-Leaves name))
            (unescape_loop-LoopLeaves f size (i + 1) rest))
    | inr (inr e) ↦ rw (unescape_loop, fits, e) tt
  ]
]

-- A label that is read fits the buffer together with its NUL and is valid UTF-8; the pointer moves
-- on, at the end of the name alone it stays; and the bytes of both are bytes of a C string.
pub unescape_label_bounds :
    (size : ℕ) (name label rest : List ℕ)
    → unescape_label size name ≡ some (label, rest)
    → (length label < size)
      × (utf8_valid label ≡ true)
      × (length rest ≤ length name)
      × ((0 < length name) → length rest < length name)
      × (AllChars name → AllChars label × AllChars rest)
unfolding unescape_label
unescape_label_bounds size name label rest h =
    (omega (arith, known.0), ground arith, known.1, known.2, known.3)
  where
    read : unescape_loop (suc (length name)) size 0 name ≡ some (label, rest)
    read = ground arith

    known : LoopLeaves size 0 name (some (label, rest))
    known =
        subst (LoopLeaves size 0 name) read
          (unescape_loop-LoopLeaves (suc (length name)) size 0 name)

-- More rounds than the name has bytes change nothing: the fuel of `unescape_label` is enough.
pub unescape_loop-enough :
    (f g size i : ℕ) (name : List ℕ)
    → length name < f
    → length name < g
    → unescape_loop f size i name ≡ unescape_loop g size i name
unfolding unescape_loop
unescape_loop-enough zero g size i name h k = absurd (omega arith)
unescape_loop-enough (suc f) zero size i name h k = absurd (omega arith)
unescape_loop-enough (suc f) (suc g) size i name h k = elim (Step-cases (label_step name)) [
  | inl (rest, e) ↦ rw (unescape_loop, e)
  | inr (inl (c, rest, e)) ↦
      let known = subst (Leaves name) e (label_step-Leaves name) in
      rw (unescape_loop, e, unescape_loop-enough f g size (i + 1) rest (omega arith) (omega arith))
  | inr (inr e) ↦ rw (unescape_loop, e)
]
