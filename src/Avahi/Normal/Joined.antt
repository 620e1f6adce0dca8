-- ===== src/Avahi/Normal/Joined.antt =====
-- Normalizing a name writes the text of its labels.
use qt_gretio.Prelude.{
  ℕ, zero, suc, ◌+◌, ◌-◌, ◌≤◌, ◌<◌, ◌≡◌, refl, sym, ap, ◌∙◌, Bool, true, false, ◌&&◌, not, some,
  List, [], ◌∷◌, ◌++◌, arith, ◌==◌, if◌then◌else◌, length, length-append,
}
use mathlib.Core.List.{append_assoc, append-nil}
use qt_gretio.Avahi.Label.{label_max, unescape_label, escape_label}
use qt_gretio.Avahi.Label.Bounds.{unescape_label_bounds}
use qt_gretio.Avahi.Label.Roundtrip.{AllChars, escaped, escape_label-Written}
use qt_gretio.Avahi.Label.Joined.{Labels, no_label, one_more, joined, joined-Labels}
use qt_gretio.Avahi.Domain.Hashing.{unescape_label-nil}
use qt_gretio.Avahi.Domain.{is_empty, case_equal, equal_loop, domain_equal}
use qt_gretio.Avahi.Normal.{normalized, normalize_loop, normalize_name}

pub is_empty-false : (s : List ℕ) → 0 < length s → is_empty s ≡ false
is_empty-false [] h = absurd (omega arith)
is_empty-false (c ∷ s) h = refl

-- One round: a label that is not empty, with room for its escaped form.
round_label :
    (f c : ℕ) (name out : List ℕ) (size : ℕ) (empty : Bool) (label rest : List ℕ)
    → unescape_label label_max (c ∷ name) ≡ some (label, rest)
    → 0 < length label
    → let dot : List ℕ = if empty then [] else b'.' ∷ [] in
      length dot + length (escaped label) < size
      → normalize_loop (suc f) (c ∷ name) out size empty true
        ≡ normalize_loop f rest
            (out ++ dot ++ escaped label)
            (size - length dot - length (escaped label))
            false
            true
unfolding normalize_loop
round_label f c name out size empty label rest e p room =
    let dot : List ℕ = if empty then [] else b'.' ∷ [] in
    let left = size - length dot in
    let known = escape_label-Written label left (omega arith) in
    let ok : (escape_label label left).success ≡ true = known.3.1 (omega arith) in
    let some_bytes : is_empty label ≡ false = is_empty-false label p in
    let some_size : (not empty && size == 0) ≡ false = ground arith in
    let some_room : (left == 0) ≡ false = ground arith in
    let remains : (escape_label label left).left ≡ left - length (escaped label) =
      omega (arith, known.0, ap length (known.2 ok)) in
    rw (normalize_loop, e, some_bytes, some_size, some_room, ok, known.2 ok, remains) refl

normalize_loop-Labels :
    (f : ℕ) {name : List ℕ} {ls : List (List ℕ)} (out : List ℕ) (size : ℕ) (empty : Bool)
    → Labels name ls
    → length name ≤ f
    → length (joined empty ls) < size
    → normalize_loop f name out size empty true ≡ normalized (out ++ joined empty ls)
unfolding normalize_loop
normalize_loop-Labels f out size empty no_label h room = ap normalized (sym (append-nil out))
normalize_loop-Labels zero out size empty (one_more c name label rest ls e p names) h room =
    absurd (omega arith)
normalize_loop-Labels (suc f) out size empty (one_more c name label rest ls e p names) h room =
    let dot : List ℕ = if empty then [] else b'.' ∷ [] in
    let whole =
      length-append dot (escaped label ++ joined false ls)
      ∙ ap (λ n. length dot + n) (length-append (escaped label) (joined false ls)) in
    let shorter = (unescape_label_bounds label_max (c ∷ name) label rest e).3 (omega arith) in
    round_label f c name out size empty label rest e p (omega (arith, whole))
    ∙ normalize_loop-Labels f (out ++ dot ++ escaped label)
        (size - length dot - length (escaped label)) false names (omega arith)
        (omega (arith, whole))
    ∙ ap normalized (simp append_assoc)

case_equal_refl : (s : List ℕ) → case_equal s s ≡ true
case_equal_refl [] = refl
case_equal_refl (c ∷ s) = ground (arith, case_equal_refl s)

either : {A : Type 0} {a b : A} (c : Bool) → b ≡ a → (if c then a else b) ≡ a
either true h = refl
either false h = h

-- Names with the same labels compare equal.
equal_loop-Labels :
    (f : ℕ) {a b : List ℕ} {ls : List (List ℕ)}
    → Labels a ls
    → Labels b ls
    → length a < f
    → equal_loop f a b ≡ some true
unfolding equal_loop
equal_loop-Labels zero h k m = absurd (omega arith)
equal_loop-Labels (suc f) no_label no_label m =
    rw (equal_loop, unescape_label-nil, unescape_label-nil) refl
equal_loop-Labels (suc f) (one_more c name label rest ls e p names)
      (one_more d other _ rest' _ e' p' others) m =
    let shorter = (unescape_label_bounds label_max (c ∷ name) label rest e).3 (omega arith) in
    let later = equal_loop-Labels f names others (omega arith) in
    rw (equal_loop, e, e', case_equal_refl label) (either (is_empty rest && is_empty rest') later)

-- A name of labels that are not empty, in a buffer with room for their text, is normalized to that
-- text: the escaped labels with dots between them. The text is normalized to itself, and compares
-- equal to the name.
pub normalize_name-joined :
    (name : List ℕ) (ls : List (List ℕ)) (size : ℕ)
    → Labels name ls
    → AllChars name
    → length (joined true ls) < size
    → (normalize_name name size ≡ normalized (joined true ls))
      × (normalize_name (joined true ls) size ≡ normalized (joined true ls))
      × (domain_equal false name (joined true ls) ≡ some true)
unfolding normalize_name domain_equal
normalize_name-joined name ls size names v room =
    let again = joined-Labels names v in
    (
      normalize_loop-Labels (length name) [] size true names (omega arith) room,
      normalize_loop-Labels (length (joined true ls)) [] size true again (omega arith) room,
      equal_loop-Labels (suc (length name + length (joined true ls))) names again (omega arith),
    )
