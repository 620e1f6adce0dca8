-- ===== src/Avahi/Label/Roundtrip.antt =====
-- A label that is escaped is read back.
use qt_gretio.Prelude.{
  ℕ, zero, suc, ◌+◌, ◌-◌, ◌/◌, ◌%◌, ◌≤◌, ◌<◌, ◌≡◌, refl, ap, ◌↔◌, inl, inr, true, some, List, [],
  ◌∷◌, ◌++◌, arith, leb, Bool-cases, length, length-append,
}
use mathlib.Core.List.{append_assoc}
use qt_gretio.Avahi.Utf8.{utf8_valid}
use qt_gretio.Avahi.Label.{
  ends, emits, decimal_step, escape_step, label_step, unescape_loop, unescape_label, escape_byte,
  escape_label,
}

-- The bytes of a C string.
abbrev pub AllChars : List ℕ → Type 0
AllChars [] = Unit {0}
AllChars (c ∷ s) = ((0 < c) × (c < 256)) × AllChars s

-- What may follow a label: the end of the name, or a dot.
pub data Follows : List ℕ → List ℕ → Type 0 where
  at_end : Follows [] []
  at_dot : (rest : List ℕ) → Follows (b'.' ∷ rest) rest

decimal_step-escape_byte :
    (c : ℕ) (s : List ℕ)
    → 0 < c
    → c < 256
    → decimal_step (b'0' + c / 100) ((b'0' + c / 10 % 10) ∷ (b'0' + c % 10) ∷ s) ≡ emits c s
unfolding decimal_step
decimal_step-escape_byte c s h k = ground arith

-- One escaped byte is read as that byte.
label_step-escape_byte :
    (c : ℕ) (s : List ℕ) → 0 < c → c < 256 → label_step (escape_byte c ++ s) ≡ emits c s
unfolding label_step escape_step escape_byte
label_step-escape_byte c s h k = ground (arith, decimal_step-escape_byte c s h k)

label_step-Follows : {s rest : List ℕ} → Follows s rest → label_step s ≡ ends rest
unfolding label_step
label_step-Follows at_end = refl
label_step-Follows (at_dot rest) = refl

abbrev pub escaped : List ℕ → List ℕ
escaped [] = []
escaped (c ∷ s) = escape_byte c ++ escaped s

escape_byte-pos : (c : ℕ) → 1 ≤ length (escape_byte c)
unfolding escape_byte
escape_byte-pos c = ground arith

pub escaped-length : (s : List ℕ) → length s ≤ length (escaped s)
escaped-length [] = omega arith
escaped-length (c ∷ s) =
    omega (arith, escaped-length s, escape_byte-pos c, length-append (escape_byte c) (escaped s))

-- A call that succeeds has written the escaped label, and there is room for the NUL behind it; one
-- that fails has written a part of it. What is written and what is left make up the buffer.
pub escape_label-Written :
    (s : List ℕ) (size : ℕ)
    → 0 < size
    → let w = escape_label s size in
      (length w.bytes + w.left ≡ size)
      × (0 < w.left)
      × (w.success ≡ true → w.bytes ≡ escaped s)
      × ((w.success ≡ true) ↔ (length (escaped s) < size))
unfolding escape_label
escape_label-Written [] size h =
    (omega arith, omega arith, λ e. refl, (λ e. omega arith, λ e. refl))
escape_label-Written (c ∷ s) size h = elim (Bool-cases (leb size (length (escape_byte c)))) [
  | inl full ↦
      rw (escape_label, full)
        (
          omega arith,
          h,
          λ e. cc,
          (λ e. cc, λ k. absurd (ground (arith, length-append (escape_byte c) (escaped s)))),
        )
  | inr fits ↦
      let room = size - length (escape_byte c) in
      let ih = escape_label-Written s room (ground arith) in
      rw (escape_label, fits)
        (
          ground (arith, ih.0, length-append (escape_byte c) (escape_label s room).bytes),
          ih.1,
          λ e. ap (λ t. escape_byte c ++ t) (ih.2 e),
          (
            λ e. ground (arith, ih.3.0 e, length-append (escape_byte c) (escaped s)),
            λ k. ih.3.1 (ground (arith, length-append (escape_byte c) (escaped s))),
          ),
        )
]

unescape_loop-escaped :
    (label : List ℕ) {s rest : List ℕ} (f size i : ℕ)
    → Follows s rest
    → AllChars label
    → length label < f
    → i + length label < size
    → unescape_loop f size i (escaped label ++ s) ≡ some (label, rest)
unfolding unescape_loop
unescape_loop-escaped label zero size i e v h k = absurd (omega arith)
unescape_loop-escaped [] (suc f) size i e v h k = ground (arith, label_step-Follows e)
unescape_loop-escaped (c ∷ label) {s} {rest} (suc f) size i e v h k =
    rw (append_assoc (escape_byte c) (escaped label) s) (
      ground (
        arith,
        label_step-escape_byte c (escaped label ++ s) v.0.0 v.0.1,
        unescape_loop-escaped label f size (i + 1) e v.1 (omega arith) (omega arith),
      ))

-- A label of valid UTF-8 that is shorter than the buffer comes back from its escaped form, whether
-- that is the end of the name or a dot follows it, with the pointer behind that dot.
pub unescape_label-escape_label :
    (label : List ℕ) (size room : ℕ) (s rest : List ℕ)
    → AllChars label
    → utf8_valid label ≡ true
    → length label < size
    → (escape_label label room).success ≡ true
    → 0 < room
    → Follows s rest
    → unescape_label size ((escape_label label room).bytes ++ s) ≡ some (label, rest)
unfolding unescape_label
unescape_label-escape_label label size room s rest v u h w p e =
    rw ((escape_label-Written label room p).2 w) (
      ground (
        arith,
        u,
        unescape_loop-escaped label (suc (length (escaped label ++ s))) size 0 e v
            (omega (arith, escaped-length label, length-append (escaped label) s)) (omega arith),
      ))
