-- ===== src/Avahi/Utf8/Encoding.antt =====
-- The validity check against the encoding of Unicode characters in UTF-8.
use qt_gretio.Prelude.{
  ℕ, zero, suc, ◌+◌, ◌*◌, ◌/◌, ◌%◌, ◌≤◌, ◌<◌, ◌≡◌, refl, ◌∙◌, inl, inr, true, some, List, [], ◌∷◌,
  ◌++◌, arith, ltb, if◌then◌else◌, Bool-cases, Option-cases, length,
}
use qt_gretio.Avahi.Utf8.{
  is_continuation, unicode_valid, two_remaining, three_remaining, one_remaining, utf8_step,
  utf8_loop, utf8_valid,
}

-- The bytes of the code point v.
pub encode : ℕ → List ℕ
encode v =
    if ltb v 128
    then v ∷ []
    else if ltb v 2048
    then (192 + v / 64) ∷ (128 + v % 64) ∷ []
    else if ltb v 65536
    then (224 + v / 4096) ∷ (128 + v / 64 % 64) ∷ (128 + v % 64) ∷ []
    else (240 + v / 262144) ∷ (128 + v / 4096 % 64) ∷ (128 + v / 64 % 64) ∷ (128 + v % 64) ∷ []

-- The rest is a proper part of the string.
utf8_step-length : (c : ℕ) (s rest : List ℕ) → utf8_step c s ≡ some rest → length rest ≤ length s
unfolding utf8_step one_remaining two_remaining three_remaining
utf8_step-length c [] rest h = ground arith
utf8_step-length c (a ∷ []) rest h = ground arith
utf8_step-length c (a ∷ b ∷ []) rest h = ground arith
utf8_step-length c (a ∷ b ∷ d ∷ s) rest h = ground arith

-- More fuel than bytes changes nothing.
utf8_loop-enough :
    (f g : ℕ) (s : List ℕ) → length s ≤ f → length s ≤ g → utf8_loop f s ≡ utf8_loop g s
unfolding utf8_loop
utf8_loop-enough f g [] h k = refl
utf8_loop-enough zero g (c ∷ s) h k = absurd (omega arith)
utf8_loop-enough (suc f) zero (c ∷ s) h k = absurd (omega arith)
utf8_loop-enough (suc f) (suc g) (c ∷ s) h k = elim (Option-cases (utf8_step c s)) [
  | inl e ↦ rw (utf8_loop, e)
  | inr (rest, e) ↦
      rw (utf8_loop, e)
        (utf8_loop-enough f g rest (omega (arith, utf8_step-length c s rest e))
          (omega (arith, utf8_step-length c s rest e)))
]

utf8_loop-step :
    (f c : ℕ) (s rest : List ℕ)
    → utf8_step c s ≡ some rest
    → utf8_loop (suc f) (c ∷ s) ≡ utf8_loop f rest
unfolding utf8_loop
utf8_loop-step f c s rest e = rw (utf8_loop, e)

pub utf8_valid-step :
    (c : ℕ) (s rest : List ℕ) → utf8_step c s ≡ some rest → utf8_valid (c ∷ s) ≡ utf8_valid rest
unfolding utf8_valid
utf8_valid-step c s rest e =
    utf8_loop-step (length s) c s rest e
    ∙ utf8_loop-enough (length s) (length rest) rest (utf8_step-length c s rest e) (omega arith)

-- The code points that a name may hold: those of Unicode, less NUL, the surrogates and the
-- non-characters.
abbrev pub IsUnicode : ℕ → Type 0
IsUnicode v = (0 < v) × (unicode_valid v ≡ true)

two_remaining-lem :
    (lowest val a b v : ℕ) (s : List ℕ)
    → is_continuation a ≡ true
    → is_continuation b ≡ true
    → (val * 64 + a % 64) * 64 + b % 64 ≡ v
    → lowest ≤ v
    → unicode_valid v ≡ true
    → two_remaining lowest val (a ∷ b ∷ s) ≡ some s
unfolding two_remaining
two_remaining-lem lowest val a b v s h k e l u = rw (h, k, e, u) (ground arith)

utf8_step-one : (v : ℕ) (s : List ℕ) → v < 128 → utf8_step v s ≡ some s
unfolding utf8_step
utf8_step-one v s h = ground arith

utf8_step-two :
    (v : ℕ) (s : List ℕ)
    → 128 ≤ v
    → v < 2048
    → utf8_step (192 + v / 64) ((128 + v % 64) ∷ s) ≡ some s
unfolding utf8_step one_remaining
utf8_step-two v s h k = ground arith

utf8_step-three :
    (v : ℕ) (s : List ℕ)
    → 2048 ≤ v
    → v < 65536
    → unicode_valid v ≡ true
    → utf8_step (224 + v / 4096) ((128 + v / 64 % 64) ∷ (128 + v % 64) ∷ s) ≡ some s
unfolding utf8_step
utf8_step-three v s h k u = ground (
  arith,
  two_remaining-lem 2048 ((224 + v / 4096) % 16) (128 + v / 64 % 64) (128 + v % 64) v s
      (ground arith) (ground arith) (omega arith) h u,
)

utf8_step-four :
    (v : ℕ) (s : List ℕ)
    → 65536 ≤ v
    → unicode_valid v ≡ true
    → utf8_step
        (240 + v / 262144)
        ((128 + v / 4096 % 64) ∷ (128 + v / 64 % 64) ∷ (128 + v % 64) ∷ s)
      ≡ some s
unfolding utf8_step three_remaining
utf8_step-four v s h u =
    let below : v < 1114112 = ground arith in
    ground (
      arith,
      two_remaining-lem 65536 ((240 + v / 262144) % 8 * 64 + (128 + v / 4096 % 64) % 64)
          (128 + v / 64 % 64) (128 + v % 64) v s (ground arith) (ground arith) (omega arith) h u,
    )

-- The check accepts the encoding of every such code point in front of what it accepts.
pub utf8_valid-encode :
    (v : ℕ) (s : List ℕ) → IsUnicode v → utf8_valid (encode v ++ s) ≡ utf8_valid s
unfolding encode
utf8_valid-encode v s h = elim (Bool-cases (ltb v 128)) [
  | inl one ↦ rw (encode, one) (utf8_valid-step _ _ _ (utf8_step-one v s (ground arith)))
  | inr one ↦ elim (Bool-cases (ltb v 2048)) [
    | inl two ↦
        rw (encode, one, two)
          (utf8_valid-step _ _ _ (utf8_step-two v s (ground arith) (ground arith)))
    | inr two ↦ elim (Bool-cases (ltb v 65536)) [
      | inl three ↦
          rw (encode, one, two, three)
            (utf8_valid-step _ _ _ (utf8_step-three v s (ground arith) (ground arith) h.1))
      | inr three ↦
          rw (encode, one, two, three)
            (utf8_valid-step _ _ _ (utf8_step-four v s (ground arith) h.1))
    ]
  ]
]
