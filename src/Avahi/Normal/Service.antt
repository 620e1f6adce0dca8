-- ===== src/Avahi/Normal/Service.antt =====
-- The name, the type and the domain of a service: joining them and splitting the result.
use qt_gretio.Prelude.{
  ℕ, zero, suc, ◌+◌, ◌-◌, ◌≤◌, ◌<◌, ◌≡◌, refl, sym, ap, ◌∙◌, Bool, true, false, ◌&&◌, not, List, [],
  ◌∷◌, ◌++◌, arith, ◌==◌, if◌then◌else◌, length, take, length-append,
}
use mathlib.Core.List.{append_assoc, append-nil}
use qt_gretio.Avahi.Label.{escape_label}
use qt_gretio.Avahi.Label.Bounds.{unescape_label_bounds}
use qt_gretio.Avahi.Label.Roundtrip.{escaped, escape_label-Written}
use qt_gretio.Avahi.Label.Joined.{Labels, no_label, one_more, joined}
use qt_gretio.Avahi.Normal.{
  named, Buffer, add_label, is_type_label, at_type, at_domain, split_loop, service_name_split,
}

-- Labels that are added to a buffer with room for them.
abbrev holding : List ℕ → ℕ → Bool → Buffer
holding text left is_new = record { text = text; left = left; is_new = is_new }

abbrev dot_of : Bool → List ℕ
dot_of is_new = if is_new then [] else b'.' ∷ []

add_label-fits :
    (label text : List ℕ) (left : ℕ) (is_new : Bool)
    → length (dot_of is_new) + length (escaped label) < left
    → add_label label (holding text left is_new)
      ≡ named (
          holding
            (text ++ dot_of is_new ++ escaped label)
            (left - length (dot_of is_new) - length (escaped label))
            false)
unfolding add_label
add_label-fits label text left is_new h =
    let dot : List ℕ = if is_new then [] else b'.' ∷ [] in
    let room = left - length dot in
    let known = escape_label-Written label room (omega arith) in
    let ok : (escape_label label room).success ≡ true = known.3.1 (omega arith) in
    let some_left : (not is_new && left == 0) ≡ false = ground arith in
    let some_room : (room == 0) ≡ false = ground arith in
    let remains : (escape_label label room).left ≡ room - length (escaped label) =
      omega (arith, known.0, ap length (known.2 ok)) in
    rw (add_label, some_left, some_room, ok, known.2 ok, remains) refl

-- The loop over the labels of a domain.
split_loop-domain :
    (f : ℕ) {p : List ℕ} {ls : List (List ℕ)} (name_size : ℕ) (name : List ℕ) (type : Buffer)
    (text : List ℕ) (left : ℕ) (is_new : Bool)
    → Labels p ls
    → length p ≤ f
    → length (joined is_new ls) < left
    → split_loop f at_domain p name_size name type (holding text left is_new)
      ≡ named (name, type.text, text ++ joined is_new ls)
unfolding split_loop
split_loop-domain f name_size name type text left is_new no_label h room =
    ap (λ (t : List ℕ). named (name, type.text, t)) (sym (append-nil text))
split_loop-domain zero name_size name type text left is_new
      (one_more c p label rest ls e some_bytes labels) h room =
    absurd (omega arith)
split_loop-domain (suc f) name_size name type text left is_new
      (one_more c p label rest ls e some_bytes labels) h room =
    let dot : List ℕ = if is_new then [] else b'.' ∷ [] in
    let whole =
      length-append dot (escaped label ++ joined false ls)
      ∙ ap (λ n. length dot + n) (length-append (escaped label) (joined false ls)) in
    let shorter = (unescape_label_bounds 64 (c ∷ p) label rest e).3 (omega arith) in
    let added = add_label-fits label text left is_new (omega (arith, whole)) in
    rw (split_loop, e, added)
      (split_loop-domain f name_size name type (text ++ dot ++ escaped label)
          (left - length dot - length (escaped label)) false labels (omega arith)
          (omega (arith, whole))
        ∙ ap (λ (t : List ℕ). named (name, type.text, t)) (simp append_assoc))

abbrev pub AllTyped : List (List ℕ) → Type 0
AllTyped [] = Unit {0}
AllTyped (t ∷ ts) = (is_type_label t ≡ true) × AllTyped ts

-- The domain does not begin like a type.
abbrev pub StartsPlain : List (List ℕ) → Type 0
StartsPlain [] = Unit {0}
StartsPlain (d ∷ ds) = is_type_label d ≡ false

-- The loop over the labels of a type, up to those of the domain.
split_loop-type :
    (ts : List (List ℕ)) (f : ℕ) {p : List ℕ} (ds : List (List ℕ)) (name_size : ℕ)
    (name text : List ℕ) (left domain_size : ℕ) (is_new : Bool)
    → Labels p (ts ++ ds)
    → AllTyped ts
    → StartsPlain ds
    → length p ≤ f
    → length (joined is_new ts) < left
    → length (joined true ds) < domain_size
    → split_loop f at_type p name_size name (holding text left is_new) (holding [] domain_size true)
      ≡ named (name, text ++ joined is_new ts, joined true ds)
unfolding split_loop
split_loop-type [] f [] name_size name text left domain_size is_new no_label a b h r q =
    ap (λ (t : List ℕ). named (name, t, [])) (sym (append-nil text))
split_loop-type [] zero (d ∷ ds) name_size name text left domain_size is_new
      (one_more c p label rest ls e some_bytes labels) a b h r q =
    absurd (omega arith)
split_loop-type [] (suc f) (d ∷ ds) name_size name text left domain_size is_new
      (one_more c p label rest ls e some_bytes labels) a b h r q =
    let shorter = (unescape_label_bounds 64 (c ∷ p) d rest e).3 (omega arith) in
    let whole = length-append (escaped d) (joined false ds) in
    let added = add_label-fits d [] domain_size true (omega (arith, whole)) in
    rw (split_loop, e, b, added)
      (split_loop-domain f name_size name (holding text left is_new) (escaped d)
          (domain_size - 0 - length (escaped d)) false labels (omega arith) (omega (arith, whole))
        ∙ ap (λ (t : List ℕ). named (name, t, escaped d ++ joined false ds))
            (sym (append-nil text)))
split_loop-type (t ∷ ts) zero ds name_size name text left domain_size is_new
      (one_more c p label rest ls e some_bytes labels) a b h r q =
    absurd (omega arith)
split_loop-type (t ∷ ts) (suc f) ds name_size name text left domain_size is_new
      (one_more c p label rest ls e some_bytes labels) a b h r q =
    let dot : List ℕ = if is_new then [] else b'.' ∷ [] in
    let whole =
      length-append dot (escaped t ++ joined false ts)
      ∙ ap (λ n. length dot + n) (length-append (escaped t) (joined false ts)) in
    let shorter = (unescape_label_bounds 64 (c ∷ p) t rest e).3 (omega arith) in
    let added = add_label-fits t text left is_new (omega (arith, whole)) in
    rw (split_loop, e, a.0, added)
      (split_loop-type ts f ds name_size name (text ++ dot ++ escaped t)
          (left - length dot - length (escaped t)) domain_size false labels a.1 b (omega arith)
          (omega (arith, whole)) q
        ∙ ap (λ (u : List ℕ). named (name, u, joined true ds)) (simp append_assoc))

pub take-enough : {A : Type 0} (n : ℕ) (xs : List A) → length xs ≤ n → take n xs ≡ xs
take-enough zero [] h = refl
take-enough zero (x ∷ xs) h = absurd (omega arith)
take-enough (suc n) [] h = refl
take-enough (suc n) (x ∷ xs) h = ap (λ t. x ∷ t) (take-enough n xs (omega arith))

-- Splitting reads the first label as the name, those that begin with _ as the type, and the others
-- as the domain.
pub service_name_split-Labels :
    (name : List ℕ) (ts ds : List (List ℕ)) (p : List ℕ) (name_size type_size domain_size : ℕ)
    → Labels p (name ∷ ts ++ ds)
    → AllTyped ts
    → StartsPlain ds
    → length name < name_size
    → length (joined true ts) < type_size
    → length (joined true ds) < domain_size
    → service_name_split p true name_size type_size domain_size
      ≡ named (name, joined true ts, joined true ds)
unfolding service_name_split split_loop
service_name_split-Labels name ts ds p name_size type_size domain_size
      (one_more c q label rest ls e some_bytes labels) a b h r k =
    let shorter = (unescape_label_bounds 64 (c ∷ q) name rest e).3 (omega arith) in
    rw (service_name_split, split_loop, e, take-enough (name_size - 1) name (omega arith))
      (split_loop-type ts (length q) ds name_size name [] type_size domain_size true labels a b
        (omega arith) r k)
