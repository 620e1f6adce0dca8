-- ===== src/Avahi/Label.antt =====
-- QtZeroconf/avahi-common/domain.c: `avahi_unescape_label` and `avahi_escape_label`. A C string is
-- the list of its bytes before the NUL, and a pointer into it is the rest of the list; a buffer is
-- what has been written to it, with the number of bytes that are left.
pub mod Roundtrip
pub mod Bounds
pub mod Joined
use qt_gretio.Prelude.{
  ℕ, zero, suc, ◌+◌, ◌-◌, ◌*◌, ◌/◌, ◌%◌, Bool, true, false, ◌&&◌, ◌||◌, Option, none, some, List,
  [], ◌∷◌, ◌++◌, ltb, leb, ◌==◌, if◌then◌else◌, length,
}
use qt_gretio.Avahi.Utf8.{utf8_valid}

-- AVAHI_LABEL_MAX and AVAHI_DOMAIN_NAME_MAX.
abbrev pub label_max : ℕ
label_max = 64

abbrev pub domain_name_max : ℕ
domain_name_max = 1014

abbrev pub is_digit : ℕ → Bool
is_digit c = leb b'0' c && leb c b'9'

-- What the loop finds at the pointer: the end of the label, a byte of it, or a bad escape.
pub data Step : Type 0 where
  ends : List ℕ → Step
  emits : ℕ → List ℕ → Step
  fails : Step

abbrev pub decimal : ℕ → ℕ → ℕ → ℕ
decimal a b c = (a - b'0') * 100 + (b - b'0') * 10 + (c - b'0')

unfoldable pub decimal_step : ℕ → List ℕ → Step
decimal_step a (b ∷ c ∷ s) =
    if is_digit b && is_digit c
    then (if ltb 255 (decimal a b c) || decimal a b c == 0 then fails else emits (decimal a b c) s)
    else fails
decimal_step a _ = fails

unfoldable pub escape_step : List ℕ → Step
escape_step [] = fails
escape_step (c ∷ s) =
    if c == b'\\' || c == b'.' then emits c s else if is_digit c then decimal_step c s else fails

unfoldable pub label_step : List ℕ → Step
label_step [] = ends []
label_step (c ∷ s) = if c == b'.' then ends s else if c == b'\\' then escape_step s else emits c s

-- The loop, with one round of fuel for each byte of the name and one for its end; i bytes of the
-- buffer are used.
unfoldable pub unescape_loop : ℕ → ℕ → ℕ → List ℕ → Option (List ℕ × List ℕ)
unescape_loop zero size i name = none
unescape_loop (suc f) size i name = if leb size i then none else (elim (label_step name) [
  | ends rest ↦ some ([], rest)
  | fails ↦ none
  | emits c rest ↦ elim (unescape_loop f size (i + 1) rest) [
    | none ↦ none
    | some (label, after) ↦ some (c ∷ label, after)
  ]
])

-- The label, and the pointer behind it.
unfoldable pub unescape_label : ℕ → List ℕ → Option (List ℕ × List ℕ)
unescape_label size name = elim (unescape_loop (suc (length name)) size 0 name) [
  | none ↦ none
  | some (label, rest) ↦ if utf8_valid label then some (label, rest) else none
]

abbrev pub is_proper : ℕ → Bool
is_proper c =
    c == b'_'
    || c == b'-'
    || (leb b'0' c && leb c b'9')
    || (leb b'a' c && leb c b'z')
    || (leb b'A' c && leb c b'Z')

-- The bytes that one byte of the label is written as.
unfoldable pub escape_byte : ℕ → List ℕ
escape_byte c =
    if c == b'.' || c == b'\\'
    then b'\\' ∷ c ∷ []
    else if is_proper c
    then c ∷ []
    else b'\\' ∷ (b'0' + c / 100) ∷ (b'0' + c / 10 % 10) ∷ (b'0' + c % 10) ∷ []

-- A buffer that has been written to: whether the call succeeded, which is when the NUL was written,
-- the bytes before the pointer, and the size that is left.
pub record Written : Type 0 where
  pub success : Bool
  pub bytes : List ℕ
  pub left : ℕ

abbrev pub prepend : List ℕ → Written → Written
prepend s w = record w { bytes = s ++ w.bytes }

unfoldable pub escape_label : List ℕ → ℕ → Written
escape_label [] size = record { success = true; bytes = []; left = size }
escape_label (c ∷ s) size =
    if leb size (length (escape_byte c))
    then record { success = false; bytes = []; left = size }
    else prepend (escape_byte c) (escape_label s (size - length (escape_byte c)))
