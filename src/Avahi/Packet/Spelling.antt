-- ===== src/Avahi/Packet/Spelling.antt =====
-- What the bytes of a packet spell from an index on, by the format of names; and that
-- `consume_labels` reads it.
use qt_gretio.Prelude.{
  ℕ, zero, suc, ◌+◌, ◌-◌, ◌*◌, ◌/◌, ◌%◌, ◌≤◌, ◌<◌, ◌≡◌, refl, sym, ap, ◌∙◌, subst, Bool, true,
  false, Option, some, List, [], ◌∷◌, ◌++◌, arith, ltb, leb, ◌==◌, if◌then◌else◌, length, take,
  drop, length-append, length-drop, take-length,
}
use mathlib.Core.List.{append_assoc, append-nil}
use qt_gretio.Avahi.Label.{escape_label}
use qt_gretio.Avahi.Label.Roundtrip.{escaped, escaped-length, escape_label-Written}
use qt_gretio.Avahi.Label.Joined.{joined}
use qt_gretio.Avahi.Packet.{header_size}
use qt_gretio.Avahi.Packet.Names.{labels_loop}

-- From index `idx` on the bytes spell these labels: each after its length, and a zero at the end;
-- or a pointer back to a place that spells them. What stands at the index itself ends at `e`, and a
-- reader needs `r` rounds.
pub data Spells (bytes : List ℕ) : ℕ → ℕ → ℕ → List (List ℕ) → Type 0 where
  ends :
      (idx e : ℕ) (after : List ℕ)
      → drop idx bytes ≡ 0 ∷ after
      → e ≡ idx + 1
      → Spells bytes idx e 1 []
  label_at :
      (idx e r : ℕ) (label after : List ℕ) (ls : List (List ℕ))
      → 0 < length label
      → length label ≤ 63
      → drop idx bytes ≡ length label ∷ label ++ after
      → Spells bytes (idx + 1 + length label) e r ls
      → Spells bytes idx e (suc r) (label ∷ ls)
  pointer :
      (idx e e' r target : ℕ) (after : List ℕ) (ls : List (List ℕ))
      → header_size ≤ target
      → target < idx
      → target < 0x4000
      → drop idx bytes ≡ (0xC0 + target / 256) ∷ (target % 256) ∷ after
      → e ≡ idx + 2
      → Spells bytes target e' r ls
      → Spells bytes idx e (suc r) ls

pub Spells-lt :
    {bytes : List ℕ} {idx e r : ℕ} {ls : List (List ℕ)} → Spells bytes idx e r ls → idx < e
Spells-lt (ends idx e after d q) = omega arith
Spells-lt (label_at idx e r label after ls p k d s) = omega (arith, Spells-lt s)
Spells-lt (pointer idx e e' r target after ls h t k d q s) = omega arith

abbrev ret_after : Bool → ℕ → ℕ → ℕ → ℕ
ret_after compressed ret idx e = if compressed then ret else ret + (e - idx)

within :
    {A : Type 0} (idx : ℕ) (bytes : List A) (x : A) (rest : List A)
    → drop idx bytes ≡ x ∷ rest
    → idx + 1 + length rest ≡ length bytes
within idx bytes x rest h = omega (arith, ap length h, length-drop idx bytes)

-- One round of the loop: at the end of a name, at a label, and at a pointer.
module _ (f : ℕ) (bytes : List ℕ) (idx : ℕ) (name : List ℕ) (l : ℕ) (is_first compressed : Bool)
    (ret : ℕ) where
  abbrev dot : List ℕ
  dot = if is_first then [] else b'.' ∷ []

  round_end :
      (after : List ℕ)
      → drop idx bytes ≡ 0 ∷ after
      → 0 < l
      → labels_loop (suc f) bytes idx name l is_first compressed ret
        ≡ some (if compressed then ret else ret + 1, name)
  unfolding labels_loop
  round_end after d h =
      let some_room : (l == 0) ≡ false = ground arith in rw (labels_loop, d, some_room) refl

  round_label :
      (n : ℕ) (after : List ℕ)
      → drop idx bytes ≡ n ∷ after
      → 0 < n
      → n ≤ 63
      → n ≤ length after
      → n < l
      → let w = escape_label (take n after) (l - length dot) in
        w.success ≡ true
        → labels_loop (suc f) bytes idx name l is_first compressed ret
          ≡ labels_loop f bytes
              (idx + 1 + n)
              (name ++ dot ++ w.bytes)
              w.left
              false
              compressed
              (if compressed then ret else ret + 1 + n)
  unfolding labels_loop
  round_label n after d p m fits room ok =
      let some_label : (n == 0) ≡ false = ground arith in
      let short : leb n 63 ≡ true = ground arith in
      let inside : ltb (length bytes) (idx + 1 + n) ≡ false =
        ground (arith, within idx bytes n after d) in
      let roomy : leb l n ≡ false = ground arith in
      rw (labels_loop, d, some_label, short, inside, roomy, ok) refl

  -- The label that the bytes spell, if there is room for its escaped form.
  round_spelled :
      (label after : List ℕ)
      → drop idx bytes ≡ length label ∷ label ++ after
      → 0 < length label
      → length label ≤ 63
      → length dot + length (escaped label) < l
      → labels_loop (suc f) bytes idx name l is_first compressed ret
        ≡ labels_loop f bytes
            (idx + 1 + length label)
            (name ++ dot ++ escaped label)
            (l - length dot - length (escaped label))
            false
            compressed
            (if compressed then ret else ret + 1 + length label)
  round_spelled label after d p m room =
      let n = length label in
      let ret' = if compressed then ret else ret + 1 + n in
      let size = l - length dot in
      let w = escape_label label size in
      let known = escape_label-Written label size (omega arith) in
      let ok : w.success ≡ true = known.3.1 (omega arith) in
      let same : take n (label ++ after) ≡ label = take-length label after in
      let left : w.left ≡ size - length (escaped label) =
        omega (arith, known.0, ap length (known.2 ok)) in
      round_label n (label ++ after) d p m (omega (arith, length-append label after))
        (omega (arith, escaped-length label))
        (subst (λ t. (escape_label t size).success ≡ true) (sym same) ok)
      ∙ ap
          (λ t.
            labels_loop f bytes (idx + 1 + n) (name ++ dot ++ (escape_label t size).bytes)
              (escape_label t size).left false compressed ret')
          same
      ∙ ap (λ b. labels_loop f bytes (idx + 1 + n) (name ++ dot ++ b) w.left false compressed ret')
          (known.2 ok)
      ∙ ap
          (λ k.
            labels_loop f bytes (idx + 1 + n) (name ++ dot ++ escaped label) k false compressed
              ret')
          left

  round_pointer :
      (target : ℕ) (after : List ℕ)
      → drop idx bytes ≡ (0xC0 + target / 256) ∷ (target % 256) ∷ after
      → header_size ≤ target
      → target < idx
      → labels_loop (suc f) bytes idx name l is_first compressed ret
        ≡ labels_loop f bytes target name l is_first true (if compressed then ret else ret + 2)
  unfolding labels_loop
  round_pointer target after d g t =
      let no_end : (0xC0 + target / 256 == 0) ≡ false = ground arith in
      let no_label : leb (0xC0 + target / 256) 63 ≡ false = ground arith in
      let is_pointer : leb 0xC0 (0xC0 + target / 256) ≡ true = ground arith in
      let there : (0xC0 + target / 256 - 0xC0) * 256 + target % 256 ≡ target = omega arith in
      let above : ltb target header_size ≡ false = ground arith in
      let back : leb idx target ≡ false = ground arith in
      rw (labels_loop, d, no_end, no_label, is_pointer, there, above, back) refl

read_as :
    {n m : ℕ} {s t : List ℕ}
    → n ≡ m
    → s ≡ t
    → ◌≡◌ {A = Option (ℕ × List ℕ)} (some (n, s)) (some (m, t))
read_as p q = rw (p, q) refl

advance :
    (compressed : Bool) (ret idx e k : ℕ)
    → e ≡ idx + k
    → (if compressed then ret else ret + k) ≡ ret_after compressed ret idx e
advance true ret idx e k h = refl
advance false ret idx e k h = omega arith

advance_label :
    (compressed : Bool) (ret idx e n : ℕ)
    → idx + 1 + n < e
    → ret_after compressed (if compressed then ret else ret + 1 + n) (idx + 1 + n) e
      ≡ ret_after compressed ret idx e
advance_label true ret idx e n h = refl
advance_label false ret idx e n h = omega arith

-- Reading what the bytes spell, from any state of the loop with enough rounds and room.
pub labels_loop-Spells :
    (f : ℕ) (bytes : List ℕ) (name : List ℕ) (l : ℕ) (is_first compressed : Bool) (ret : ℕ)
    {idx e r : ℕ} {ls : List (List ℕ)}
    → Spells bytes idx e r ls
    → r ≤ f
    → length (joined is_first ls) < l
    → labels_loop f bytes idx name l is_first compressed ret
      ≡ some (ret_after compressed ret idx e, name ++ joined is_first ls)
labels_loop-Spells zero bytes name l is_first compressed ret (ends idx e after d q) h k =
    absurd (omega arith)
labels_loop-Spells zero bytes name l is_first compressed ret
      (label_at idx e r label after ls p m d s) h k =
    absurd (omega arith)
labels_loop-Spells zero bytes name l is_first compressed ret
      (pointer idx e e' r target after ls g t m d q s) h k =
    absurd (omega arith)
labels_loop-Spells (suc f) bytes name l is_first compressed ret (ends idx e after d q) h k =
    round_end f bytes idx name l is_first compressed ret after d (omega arith)
    ∙ read_as (advance compressed ret idx e 1 q) (sym (append-nil name))
labels_loop-Spells (suc f) bytes name l is_first compressed ret
      (label_at idx e r label after ls p m d s) h k =
    let dot : List ℕ = if is_first then [] else b'.' ∷ [] in
    let whole =
      length-append dot (escaped label ++ joined false ls)
      ∙ ap (λ n. length dot + n) (length-append (escaped label) (joined false ls)) in
    round_spelled f bytes idx name l is_first compressed ret label after d p m
      (omega (arith, whole))
    ∙ labels_loop-Spells f bytes (name ++ dot ++ escaped label)
        (l - length dot - length (escaped label)) false compressed
        (if compressed then ret else ret + 1 + length label) s (omega arith) (omega (arith, whole))
    ∙ read_as (advance_label compressed ret idx e (length label) (Spells-lt s)) (simp append_assoc)
labels_loop-Spells (suc f) bytes name l is_first compressed ret
      (pointer idx e e' r target after ls g t m d q s) h k =
    round_pointer f bytes idx name l is_first compressed ret target after d g t
    ∙ labels_loop-Spells f bytes name l is_first true (if compressed then ret else ret + 2) s
        (omega arith) k
    ∙ read_as (advance compressed ret idx e 2 q) refl
