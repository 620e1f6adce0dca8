-- ===== src/Qt.antt =====
-- What the wrapper uses of Qt, which the repository does not hold: strings, byte arrays in
-- hexadecimal, JSON objects and documents, and the public key of a certificate. The operations are
-- the fields of `Qt`, which every definition that calls Qt takes as a parameter; `QtLaws` states
-- the documented behaviour that a theorem relies on, and is a hypothesis where it is needed.
-- `Qt.Sample` is one concrete choice, at which the theorems are tried.

pub mod Sample
use Prim.Native.Char.{code}
use text.Mathlib.Text.{◌==◌}
use qt_gretio.Prelude.{
  ℕ, ◌<◌, String, ◌≡◌, Bool, true, false, Option, some, List, [], ◌∷◌, ◌++◌, if◌then◌else◌, ℤ, pos,
  u32_mod,
}

-- A QByteArray or a buffer of the source holds bytes.
abbrev pub AllBytes : List ℕ → Type 0
AllBytes [] = Unit {0}
AllBytes (x ∷ xs) = (x < 256) × AllBytes xs

-- The code points of a literal: its bytes, if they are ASCII.
abbrev pub codes : String → List ℕ
codes String.[] = []
codes (String.◌∷◌ c s) = code c ∷ codes s

abbrev pub AllAscii : List ℕ → Type 0
AllAscii [] = Unit {0}
AllAscii (x ∷ xs) = (x < 128) × AllAscii xs

-- A JSON key is a literal of the source, or a PEM text.
pub record Qt : Type 1 where
  pub Str : Type 0
  pub Value : Type 0
  pub Object : Type 0
  pub Key : Type 0
  -- QString: a literal, the null string, `isNull`, `+` and `QString::number`.
  pub text : String → Str
  pub null_str : Str
  pub is_null : Str → Bool
  pub concat : Str → Str → Str
  pub number : ℕ → Str
  -- `QString(bytes.toHex())` and `QByteArray::fromHex(str.toUtf8())`.
  pub to_hex : List ℕ → Str
  pub from_hex : Str → List ℕ
  -- QJsonValue: one constructor for each type that the source stores, and the accessors, whose
  -- first argument is the default where there is one.
  pub of_int : ℤ → Value
  pub of_str : Str → Value
  pub of_bool : Bool → Value
  pub of_object : Object → Value
  pub of_array : List Object → Value
  pub to_int : ℤ → Value → ℤ
  pub to_str : Value → Str
  pub to_bool : Value → Bool
  pub to_array : Value → List Object
  pub to_long_long : Value → ℤ
  pub is_str : Value → Bool
  -- QJsonObject: `{}`, assignment through `operator[]`, its value, and `contains`.
  pub empty : Object
  pub insert : Object → String → Value → Object
  pub value : Object → String → Value
  pub contains : Object → String → Bool
  -- QJsonDocument: `toJson` (indented or compact) and `fromJson(...).object()`.
  pub to_json : Bool → Object → Str
  pub from_json : Str → Option Object
  -- `str.toStdString()`.
  pub to_utf8 : Str → List ℕ
  -- A null QSslKey, `key.toPem()`, and `QUrl(text).isValid()`.
  pub null_key : Key
  pub pem : Key → String
  pub is_valid_url : Str → Bool
  -- Whether `connect` makes a connection when it is given QWidget::close, which is a slot, in the
  -- place of a signal.
  pub connects_close : Bool

pub record QtLaws (q : Qt) : Type 0 where
  pub value-insert :
      (o : q.Object) (k j : String) (v : q.Value)
      → q.value (q.insert o k v) j ≡ (if k == j then v else q.value o j)
  pub to_int-of_int : (d n : ℤ) → q.to_int d (q.of_int n) ≡ n
  pub to_str-of_str : (s : q.Str) → q.to_str (q.of_str s) ≡ s
  pub is_str-of_str : (s : q.Str) → q.is_str (q.of_str s) ≡ true
  pub to_bool-of_bool : (b : Bool) → q.to_bool (q.of_bool b) ≡ b
  pub to_array-of_array : (os : List q.Object) → q.to_array (q.of_array os) ≡ os
  pub to_long_long-number : (n : ℕ) → n < u32_mod → q.to_long_long (q.of_str (q.number n)) ≡ pos n
  pub from_hex-to_hex :
      (xs ys : List ℕ)
      → AllBytes xs
      → AllBytes ys
      → q.from_hex (q.concat (q.to_hex xs) (q.to_hex ys)) ≡ xs ++ ys
  pub to_utf8-text : (s : String) → AllAscii (codes s) → q.to_utf8 (q.text s) ≡ codes s
  pub is_null-text : (s : String) → q.is_null (q.text s) ≡ false
  pub is_null-null_str : q.is_null q.null_str ≡ true
  pub from_json-to_json : (b : Bool) (o : q.Object) → q.from_json (q.to_json b o) ≡ some o
