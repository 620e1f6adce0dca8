-- ===== src/Avahi/Utf8.antt =====
-- QtZeroConf/avahi-common/utf8.c. A C string is the list of its bytes before the NUL. The masks of
-- the source are written as quotients and remainders; `mask_table` compares them.
pub mod Encoding
use Prim.Native.Nat.{bit_and}
use qt_gretio.Prelude.{
  ℕ, zero, suc, ◌+◌, ◌*◌, ◌/◌, ◌%◌, ◌≡◌, refl, Bool, true, false, ◌&&◌, ◌||◌, not, Option, none,
  some, List, [], ◌∷◌, ltb, ◌==◌, if◌then◌else◌, length,
}

-- `(c & 0xc0) == 0x80`.
abbrev pub is_continuation : ℕ → Bool
is_continuation c = c / 64 == 2

-- The macro UNICODE_VALID.
abbrev pub unicode_valid : ℕ → Bool
unicode_valid v =
    ltb v 0x110000
    && not (v / 2048 == 27)
    && (ltb v 0xFDD0 || ltb 0xFDEF v)
    && not (v % 65536 / 2 == 32767)

-- The test after the last byte, which leaves the rest of the string.
abbrev pub checked : ℕ → ℕ → List ℕ → Option (List ℕ)
checked lowest val s = if ltb val lowest || not (unicode_valid val) then none else some s

-- From the label TWO_REMAINING.
unfoldable pub two_remaining : ℕ → ℕ → List ℕ → Option (List ℕ)
two_remaining lowest val (a ∷ b ∷ s) =
    if is_continuation a && is_continuation b
    then checked lowest ((val * 64 + a % 64) * 64 + b % 64) s
    else none
two_remaining lowest val _ = none

unfoldable pub three_remaining : ℕ → List ℕ → Option (List ℕ)
three_remaining val [] = none
three_remaining val (a ∷ s) =
    if is_continuation a then two_remaining 65536 (val * 64 + a % 64) s else none

unfoldable pub one_remaining : List ℕ → Option (List ℕ)
one_remaining [] = none
one_remaining (a ∷ s) = if is_continuation a then some s else none

-- One character whose first byte is c: the rest of the string, or an error.
unfoldable pub utf8_step : ℕ → List ℕ → Option (List ℕ)
utf8_step c s =
    if ltb c 128
    then some s
    else if c / 32 == 6
    then (if c / 2 % 16 == 0 then none else one_remaining s)
    else if c / 16 == 14
    then two_remaining 2048 (c % 16) s
    else if c / 8 == 30
    then three_remaining (c % 8) s
    else none

-- The loop, with one round of fuel for each character.
unfoldable pub utf8_loop : ℕ → List ℕ → Bool
utf8_loop f [] = true
utf8_loop zero (c ∷ s) = false
utf8_loop (suc f) (c ∷ s) = elim (utf8_step c s) [ none ↦ false | some rest ↦ utf8_loop f rest ]

unfoldable pub utf8_valid : List ℕ → Bool
utf8_valid s = utf8_loop (length s) s

all_below : ℕ → (ℕ → Bool) → Bool
all_below zero p = true
all_below (suc n) p = p n && all_below n p

abbrev same : Bool → Bool → Bool
same true b = b
same false b = not b

-- On bytes the quotients are the masks of the source.
mask_table :
    all_below 256 (λ c.
      same (c / 64 == 2) (bit_and c 0xc0 == 0x80)
      && same (c / 32 == 6) (bit_and c 0xe0 == 0xc0)
      && same (c / 2 % 16 == 0) (bit_and c 0x1e == 0)
      && same (c / 16 == 14) (bit_and c 0xf0 == 0xe0)
      && same (c / 8 == 30) (bit_and c 0xf8 == 0xf0)
      && (c % 64 == bit_and c 0x3f)
      && (c % 16 == bit_and c 0x0f)
      && (c % 8 == bit_and c 0x07))
    ≡ true
unfolding all_below
mask_table = refl
