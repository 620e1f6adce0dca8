-- ===== src/Avahi/Normal/Bounds.antt =====
-- What normalizing a name writes.
use qt_gretio.Prelude.{
  ℕ, zero, suc, ◌+◌, ◌-◌, ◌<◌, ◌≡◌, refl, inl, inr, Bool, true, false, ◌&&◌, ◌||◌, not, List, [],
  ◌∷◌, ◌++◌, arith, ◌==◌, if◌then◌else◌, Option-cases, length, length-append,
}
use qt_gretio.Avahi.Label.{label_max, unescape_label, escape_label}
use qt_gretio.Avahi.Label.Roundtrip.{escape_label-Written}
use qt_gretio.Avahi.Domain.{is_empty}
use qt_gretio.Avahi.Normal.{
  Normalized, normalized, unterminated, refused, aborted, normalize_loop, normalize_name,
}

-- The text that an outcome leaves in the buffer is shorter than the buffer.
abbrev pub StaysBelow : ℕ → Normalized → Type 0
StaysBelow n (normalized t) = length t < n
StaysBelow n (unterminated t) = length t < n
StaysBelow n refused = Unit {0}
StaysBelow n aborted = Unit {0}

closed-StaysBelow :
    (n : ℕ) (t : List ℕ) (closed : Bool)
    → length t < n
    → StaysBelow n (if closed then normalized t else unterminated t)
closed-StaysBelow n t true h = h
closed-StaysBelow n t false h = h

guarded-StaysBelow :
    (n : ℕ) (out : List ℕ) (a b c d : Bool) (next : Normalized)
    → length out < n
    → (d ≡ false → StaysBelow n next)
    → StaysBelow n (
        if a
        then (if b then normalized out else refused)
        else if c
        then refused
        else if d
        then aborted
        else next)
guarded-StaysBelow n out true true c d next h k = h
guarded-StaysBelow n out true false c d next h k = tt
guarded-StaysBelow n out false b true d next h k = tt
guarded-StaysBelow n out false b false true next h k = tt
guarded-StaysBelow n out false b false false next h k = k refl

length-added :
    (out dot bytes : List ℕ) (left size n : ℕ)
    → length bytes + left ≡ size - length dot
    → 0 < size - length dot
    → length out + size ≡ n
    → length (out ++ dot ++ bytes) + left ≡ n
length-added out dot bytes left size n e h k =
    omega (arith, length-append (out ++ dot) bytes, length-append out dot)

normalize_loop-StaysBelow :
    (n f : ℕ) (s out : List ℕ) (size : ℕ) (empty closed : Bool)
    → length out + size ≡ n
    → 0 < size
    → StaysBelow n (normalize_loop f s out size empty closed)
unfolding normalize_loop
normalize_loop-StaysBelow n f [] out size empty closed e h =
    closed-StaysBelow n out closed (omega arith)
normalize_loop-StaysBelow n zero (c ∷ s) out size empty closed e h = tt
normalize_loop-StaysBelow n (suc f) (c ∷ s) out size empty closed e h =
    elim (Option-cases (unescape_label label_max (c ∷ s))) [
      | inl none_left ↦ rw (none_left, normalize_loop) tt
      | inr ((label, rest), found) ↦
          let dot : List ℕ = if empty then [] else b'.' ∷ [] in
          let room = size - length dot in
          let w = escape_label label room in
          rw (found, normalize_loop)
            (guarded-StaysBelow n out (is_empty label) (is_empty rest && empty)
              (not empty && size == 0) (room == 0) _ (omega arith)
              λ some_room.
                let positive : 0 < room = ground arith in
                let known = escape_label-Written label room positive in
                normalize_loop-StaysBelow n f rest (out ++ dot ++ w.bytes) w.left false
                  (w.success || (empty && is_empty w.bytes))
                  (length-added out dot w.bytes w.left size n known.0 positive e) known.1)
    ]

-- However long the name, no outcome leaves more in the buffer than its size less one byte.
pub normalize_name-StaysBelow :
    (s : List ℕ) (size : ℕ) → 0 < size → StaysBelow size (normalize_name s size)
unfolding normalize_name
normalize_name-StaysBelow s size h =
    normalize_loop-StaysBelow size (length s) s [] size true true (omega arith) h
