-- ===== src/Qt/Sample.antt =====
-- One concrete choice of the Qt parameter, at which the theorems are tried: texts and JSON values
-- as syntax, an object as the list of its assignments, the newest first.
use package.text.Mathlib.Text.{◌==◌}
use qt_gretio.Prelude.{
  ℕ, String, ◌≡◌, refl, ap, Bool, true, false, not, Option, none, some, List, [], ◌∷◌, ◌++◌,
  if◌then◌else◌, ℤ, pos,
}
use qt_gretio.Qt.{Qt, QtLaws, codes}

mutual
  pub data Str : Type 0 where
    null_str : Str
    text : String → Str
    number : ℕ → Str
    hex : List ℕ → Str
    concat : Str → Str → Str
    json : Bool → Object → Str

  pub data Value : Type 0 where
    null : Value
    int : ℤ → Value
    str : Str → Value
    bool : Bool → Value
    object : Object → Value
    array : Objects → Value

  pub data Object : Type 0 where
    empty : Object
    insert : Object → String → Value → Object

  pub data Objects : Type 0 where
    nil : Objects
    cons : Object → Objects → Objects

abbrev from_list : List Object → Objects
from_list [] = nil
from_list (o ∷ os) = cons o (from_list os)

abbrev objects : Objects → List Object
objects nil = []
objects (cons o os) = o ∷ objects os

objects-from_list : (os : List Object) → objects (from_list os) ≡ os
objects-from_list [] = refl
objects-from_list (o ∷ os) = ap (λ os'. o ∷ os') (objects-from_list os)

abbrev value : Object → String → Value
value empty k = null
value (insert o j v) k = if j == k then v else value o k

abbrev contains : Object → String → Bool
contains empty k = false
contains (insert o j v) k = if j == k then true else contains o k

abbrev is_null : Str → Bool
is_null null_str = true
is_null _ = false

abbrev from_hex : Str → List ℕ
from_hex (hex xs) = xs
from_hex (concat s t) = from_hex s ++ from_hex t
from_hex _ = []

abbrev to_utf8 : Str → List ℕ
to_utf8 (text s) = codes s
to_utf8 _ = []

abbrev to_int : ℤ → Value → ℤ
to_int d (int n) = n
to_int d _ = d

abbrev to_str : Value → Str
to_str (str s) = s
to_str _ = null_str

abbrev to_bool : Value → Bool
to_bool (bool b) = b
to_bool _ = false

abbrev to_array : Value → List Object
to_array (array os) = objects os
to_array _ = []

abbrev number_of : Str → ℤ
number_of (number n) = pos n
number_of _ = pos 0

abbrev to_long_long : Value → ℤ
to_long_long (str s) = number_of s
to_long_long (int n) = n
to_long_long _ = pos 0

abbrev is_str : Value → Bool
is_str (str s) = true
is_str _ = false

abbrev from_json : Str → Option Object
from_json (json b o) = some o
from_json _ = none

abbrev pub sample : Qt
sample = record {
  Str = Str;
  Value = Value;
  Object = Object;
  Key = String;
  text = text;
  null_str = null_str;
  is_null = is_null;
  concat = concat;
  number = number;
  to_hex = hex;
  from_hex = from_hex;
  of_int = int;
  of_str = str;
  of_bool = bool;
  of_object = object;
  of_array = λ os. array (from_list os);
  to_int = to_int;
  to_str = to_str;
  to_bool = to_bool;
  to_array = to_array;
  to_long_long = to_long_long;
  is_str = is_str;
  empty = empty;
  insert = insert;
  value = value;
  contains = contains;
  to_json = json;
  from_json = from_json;
  to_utf8 = to_utf8;
  null_key = "";
  pem = λ k. k;
  is_valid_url = λ u. not (is_null u);
  connects_close = false;
}

pub sample_laws : QtLaws sample
sample_laws = record {
  value-insert = λ o k j v. refl;
  to_int-of_int = λ d n. refl;
  to_str-of_str = λ s. refl;
  is_str-of_str = λ s. refl;
  to_bool-of_bool = λ b. refl;
  to_array-of_array = objects-from_list;
  to_long_long-number = λ n h. refl;
  from_hex-to_hex = λ xs ys h k. refl;
  to_utf8-text = λ s h. refl;
  is_null-text = λ s. refl;
  is_null-null_str = refl;
  from_json-to_json = λ b o. refl;
}
