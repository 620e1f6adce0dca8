-- ===== src/Avahi/Label/Joined.antt =====
-- Names as lists of labels: the labels that a name is read as, and the text that is written for
-- them.
use qt_gretio.Prelude.{
  ℕ, suc, ◌≤◌, ◌<◌, ◌≡◌, refl, sym, ap, ◌∙◌, subst, Bool, true, false, Option, some, List, [], ◌∷◌,
  ◌++◌, arith, if◌then◌else◌, length, length-append,
}
use qt_gretio.Avahi.Utf8.{utf8_valid}
use qt_gretio.Avahi.Label.{unescape_label}
use qt_gretio.Avahi.Label.Bounds.{unescape_label_bounds}
use qt_gretio.Avahi.Label.Roundtrip.{
  AllChars, Follows, at_end, at_dot, escaped, escaped-length, escape_label-Written,
  unescape_label-escape_label,
}

-- The labels of a name, none of which is empty.
pub data Labels : List ℕ → List (List ℕ) → Type 0 where
  no_label : Labels [] []
  one_more :
      (c : ℕ) (name label rest : List ℕ) (ls : List (List ℕ))
      → unescape_label 64 (c ∷ name) ≡ some (label, rest)
      → 0 < length label
      → Labels rest ls
      → Labels (c ∷ name) (label ∷ ls)

pub same-Labels :
    {name : List ℕ} {ls ms : List (List ℕ)} → Labels name ls → Labels name ms → ls ≡ ms
same-Labels no_label no_label = refl
same-Labels (one_more c name label rest ls e p h) (one_more _ _ label' rest' ms e' p' h') =
    let both : ◌≡◌ {A = Option (List ℕ × List ℕ)} (some (label, rest)) (some (label', rest')) =
      sym e ∙ e' in
    let q : label ≡ label' = cc in
    let r : rest' ≡ rest = cc in
    rw q (ap (λ t. label' ∷ t) (same-Labels h (subst (λ t. Labels t ms) r h')))

-- The text of the labels: each escaped, with dots between them.
abbrev pub joined : Bool → List (List ℕ) → List ℕ
joined is_first [] = []
joined is_first (label ∷ ls) =
    (if is_first then [] else b'.' ∷ []) ++ (escaped label ++ joined false ls)

-- The text of labels has these labels.
joined-Follows : (ls : List (List ℕ)) → Follows (joined false ls) (joined true ls)
joined-Follows [] = at_end
joined-Follows (label ∷ ls) = at_dot (escaped label ++ joined false ls)

Labels-of :
    (t label rest : List ℕ) (ls : List (List ℕ))
    → unescape_label 64 t ≡ some (label, rest)
    → 0 < length label
    → length label ≤ length t
    → Labels rest ls
    → Labels t (label ∷ ls)
Labels-of [] label rest ls e p h names = absurd (omega arith)
Labels-of (c ∷ t) label rest ls e p h names = one_more c t label rest ls e p names

unescape_label-escaped :
    (label s rest : List ℕ)
    → AllChars label
    → utf8_valid label ≡ true
    → length label < 64
    → Follows s rest
    → unescape_label 64 (escaped label ++ s) ≡ some (label, rest)
unescape_label-escaped label s rest v u h f =
    let room = suc (length (escaped label)) in
    let w = escape_label-Written label room (omega arith) in
    let ok = w.3.1 (omega arith) in
    subst (λ t. unescape_label 64 (t ++ s) ≡ some (label, rest)) (w.2 ok)
      (unescape_label-escape_label label 64 room s rest v u h ok (omega arith) f)

-- The text of one more label in front.
pub joined-cons :
    (label : List ℕ) (ls : List (List ℕ))
    → AllChars label
    → utf8_valid label ≡ true
    → length label < 64
    → 0 < length label
    → Labels (joined true ls) ls
    → Labels (joined true (label ∷ ls)) (label ∷ ls)
joined-cons label ls v u h p names =
    Labels-of (joined true (label ∷ ls)) label (joined true ls) ls
      (unescape_label-escaped label (joined false ls) (joined true ls) v u h (joined-Follows ls)) p
      (omega (arith, escaped-length label, length-append (escaped label) (joined false ls))) names

-- The text of the labels of one name, and then of those of another.
pub joined-append :
    {a : List ℕ} {ls ms : List (List ℕ)}
    → Labels a ls
    → AllChars a
    → Labels (joined true ms) ms
    → Labels (joined true (ls ++ ms)) (ls ++ ms)
joined-append no_label v k = k
joined-append {ms} (one_more c name label rest ls e p names) v k =
    let known = unescape_label_bounds 64 (c ∷ name) label rest e in
    let chars = known.4 v in
    joined-cons label (ls ++ ms) chars.0 known.1 known.0 p (joined-append names chars.1 k)

pub joined-Labels :
    {name : List ℕ} {ls : List (List ℕ)}
    → Labels name ls
    → AllChars name
    → Labels (joined true ls) ls
joined-Labels no_label v = no_label
joined-Labels (one_more c name label rest ls e p names) v =
    let known = unescape_label_bounds 64 (c ∷ name) label rest e in
    let chars = known.4 v in
    joined-cons label ls chars.0 known.1 known.0 p (joined-Labels names chars.1)
