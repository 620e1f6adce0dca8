-- ===== src/Avahi/Record/Order.antt =====
-- The comparison of records, by which hosts that announce conflicting records break the tie.
use qt_gretio.Prelude.{
  ℕ, zero, suc, ◌+◌, ◌<◌, ◌≡◌, refl, ap, ◌∙◌, inl, inr, Bool, true, false, ◌&&◌, Option, none, some,
  List, [], ◌∷◌, ◌++◌, arith, ◌==◌, if◌then◌else◌, Option-cases, length, length-append,
}
use qt_gretio.Avahi.Label.{label_max, unescape_label}
use qt_gretio.Avahi.Record.{Record, Rdata, generic, srv, ptr, hinfo, txt, a, aaaa}
use qt_gretio.Avahi.Record.Compare.{
  Sign, less, equal, greater, or_else, uint16_cmp, memcmp, lexicographical_memcmp, strcmp,
  binary_loop, binary_domain_cmp, serialized, rdata_compare, record_lexicographical_compare,
}

-- The sign of the negated int.
abbrev pub flip : Sign → Sign
flip less = greater
flip equal = equal
flip greater = less

abbrev pub flip_some : Option Sign → Option Sign
flip_some none = none
flip_some (some s) = some (flip s)

or_else-flip : (r s : Sign) → or_else (flip r) (flip s) ≡ flip (or_else r s)
or_else-flip less s = refl
or_else-flip equal s = refl
or_else-flip greater s = refl

uint16_cmp-flip : (x y : ℕ) → uint16_cmp y x ≡ flip (uint16_cmp x y)
unfolding uint16_cmp
uint16_cmp-flip x y = ground arith

memcmp-flip : (s t : List ℕ) → memcmp t s ≡ flip (memcmp s t)
unfolding memcmp
memcmp-flip [] [] = refl
memcmp-flip [] (y ∷ t) = refl
memcmp-flip (x ∷ s) [] = refl
memcmp-flip (x ∷ s) (y ∷ t) = ground (arith, memcmp-flip s t)

strcmp-flip : (s t : List ℕ) → strcmp t s ≡ flip (strcmp s t)
unfolding strcmp
strcmp-flip [] [] = refl
strcmp-flip [] (y ∷ t) = refl
strcmp-flip (x ∷ s) [] = refl
strcmp-flip (x ∷ s) (y ∷ t) = ground (arith, strcmp-flip s t)

lexicographical_memcmp-flip :
    (s t : List ℕ) → lexicographical_memcmp t s ≡ flip (lexicographical_memcmp s t)
unfolding lexicographical_memcmp
lexicographical_memcmp-flip s t = ground (arith, memcmp-flip s t)

decided-flip :
    (r : Sign) (x x' : Option Sign)
    → x' ≡ flip_some x
    → (elim (flip r) [ less ↦ some less | greater ↦ some greater | equal ↦ x' ])
      ≡ flip_some (elim r [ less ↦ some less | greater ↦ some greater | equal ↦ x ])
decided-flip less x x' h = refl
decided-flip equal x x' h = h
decided-flip greater x x' h = refl

ended-flip :
    (m n : ℕ) (x x' : Option Sign)
    → x' ≡ flip_some x
    → (if n == 0 && m == 0 then some equal else x')
      ≡ flip_some (if m == 0 && n == 0 then some equal else x)
ended-flip m n x x' h = ground arith

binary_loop-flip : (f : ℕ) (s t : List ℕ) → binary_loop f t s ≡ flip_some (binary_loop f s t)
unfolding binary_loop
binary_loop-flip zero s t = refl
binary_loop-flip (suc f) s t = elim (Option-cases (unescape_label label_max s)) [
  | inl none_s ↦ elim (Option-cases (unescape_label label_max t)) [
    | inl none_t ↦ rw (binary_loop, none_s, none_t) refl
    | inr (p, some_t) ↦ rw (binary_loop, none_s, some_t, none_s) refl
  ]
  | inr ((cs, s'), some_s) ↦ elim (Option-cases (unescape_label label_max t)) [
    | inl none_t ↦ rw (binary_loop, some_s, none_t) refl
    | inr ((ct, t'), some_t) ↦
        rw (binary_loop, some_s, some_t, some_s, strcmp-flip cs ct)
          (decided-flip (strcmp cs ct) _ _
            (ended-flip (length s') (length t') _ _ (binary_loop-flip f s' t')))
  ]
]

binary_domain_cmp-flip : (s t : List ℕ) → binary_domain_cmp t s ≡ flip_some (binary_domain_cmp s t)
unfolding binary_domain_cmp
binary_domain_cmp-flip s t =
    let e : length t + length s ≡ length s + length t = omega arith in
    ap (λ n. binary_loop (suc n) t s) e ∙ binary_loop-flip (suc (length s + length t)) s t

or_else-pair : (r s r' s' : Sign) → r' ≡ flip r → s' ≡ flip s → or_else r' s' ≡ flip (or_else r s)
or_else-pair r s r' s' h k = ap (λ x. or_else x s') h ∙ ap (or_else (flip r)) k ∙ or_else-flip r s

ordered-flip :
    (r r' : Sign) (x x' : Option Sign)
    → r' ≡ flip r
    → x' ≡ flip_some x
    → (elim r' [ less ↦ some less | greater ↦ some greater | equal ↦ x' ])
      ≡ flip_some (elim r [ less ↦ some less | greater ↦ some greater | equal ↦ x ])
ordered-flip r r' x x' h k = rw h (decided-flip r x x' k)

rdata_compare-flip : (x y : Rdata) → rdata_compare y x ≡ flip_some (rdata_compare x y)
unfolding rdata_compare
rdata_compare-flip (ptr n) (ptr n') = binary_domain_cmp-flip n n'
rdata_compare-flip (srv p w q n) (srv p' w' q' n') =
    ordered-flip _ _ _ _
      (or_else-pair _ _ _ _ (uint16_cmp-flip p p')
        (or_else-pair _ _ _ _ (uint16_cmp-flip w w') (uint16_cmp-flip q q')))
      (binary_domain_cmp-flip n n')
rdata_compare-flip (hinfo cpu os) (hinfo cpu' os') =
    ap some (or_else-pair _ _ _ _ (strcmp-flip cpu cpu') (strcmp-flip os os'))
rdata_compare-flip (txt l) (txt l') =
    ap some (lexicographical_memcmp-flip (serialized l) (serialized l'))
rdata_compare-flip (a x) (a y) = ap some (memcmp-flip x y)
rdata_compare-flip (aaaa x) (aaaa y) = ap some (memcmp-flip x y)
rdata_compare-flip (generic x) (generic y) = ap some (lexicographical_memcmp-flip x y)
rdata_compare-flip x y = refl

-- Comparing two records the other way round gives the opposite result, also where an assertion
-- fails, so that of two hosts with different records at most one gives way.
pub record_lexicographical_compare-flip :
    (same : Bool) (r s : Record)
    → record_lexicographical_compare same s r ≡ flip_some (record_lexicographical_compare same r s)
unfolding record_lexicographical_compare
record_lexicographical_compare-flip true r s = refl
record_lexicographical_compare-flip false r s =
    ordered-flip _ _ _ _
      (or_else-pair _ _ _ _ (uint16_cmp-flip r.key.clazz s.key.clazz)
        (uint16_cmp-flip r.key.type s.key.type))
      (rdata_compare-flip r.rdata s.rdata)

memcmp-prefix : (s t : List ℕ) → memcmp s (s ++ t) ≡ equal
unfolding memcmp
memcmp-prefix [] t = refl
memcmp-prefix (x ∷ s) t = ground (arith, memcmp-prefix s t)

-- A text that is a proper prefix of another compares as greater than it.
pub lexicographical_memcmp-prefix :
    (s t : List ℕ) → 0 < length t → lexicographical_memcmp s (s ++ t) ≡ greater
unfolding lexicographical_memcmp
lexicographical_memcmp-prefix s t h = ground (arith, memcmp-prefix s t, length-append s t)
