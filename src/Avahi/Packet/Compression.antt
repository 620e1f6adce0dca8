-- ===== src/Avahi/Packet/Compression.antt =====
-- What appending a name writes: bytes that spell its labels, with a pointer to a name that the
-- table knows, and a table that goes on knowing where its names are spelled.
use qt_gretio.Prelude.{
  ℕ, zero, suc, ◌+◌, ◌≤◌, ◌<◌, ◌≡◌, refl, sym, ap, ◌∙◌, subst, inl, inr, Bool, true, false, List,
  [], ◌∷◌, ◌++◌, arith, ltb, leb, if◌then◌else◌, ltb→lt, Option-cases, length, drop, length-append,
  drop-length,
}
use mathlib.Core.List.{append_assoc}
use qt_gretio.Avahi.Label.Bounds.{unescape_label_bounds}
use qt_gretio.Avahi.Label.Joined.{Labels, no_label, one_more, same-Labels}
use qt_gretio.Avahi.Packet.{Packet, Outcome, done, refused, aborted}
use qt_gretio.Avahi.Packet.Names.{find_name, note_name, append_name_loop}
use qt_gretio.Avahi.Packet.Spelling.{Spells, label_at, Spells-lt}
use qt_gretio.Avahi.Packet.Numbers.{grown, append-grown}
use qt_gretio.Avahi.Packet.Index.{wire, IsSpelled, IsSpelled-append, Indexed, find_name-note_name}
use qt_gretio.Avahi.Packet.Appending.{
  Appended, Succeeds, append_string-grown, append-end, pointer_to, wire-pos, wire-pos,
  append-pointer,
}

abbrev labelled : List ℕ → List ℕ → Packet → Packet
labelled name label p = note_name name (length p.bytes) (grown (length label ∷ label) p)

labelled-Indexed :
    (name label : List ℕ) (n : ℕ) (p : Packet)
    → Indexed (length name) p
    → n < length name
    → Indexed n (labelled name label p)
unfolding note_name
labelled-Indexed name label n p x h = record {
  agrees =
      (find_name-note_name [] name (length p.bytes) 0 (grown (length label ∷ label) p) x.agrees).0;
  spelled = λ m ms i k l f.
      elim ((find_name-note_name m name (length p.bytes) i (grown (length label ∷ label) p)
          x.agrees).1
        f) [
          | inl old ↦ IsSpelled-append (length label ∷ label) (x.spelled m ms i (omega arith) l old)
          | inr (same, _) ↦ absurd (omega (arith, ap length same))
        ];
  has_header = omega (arith, x.has_header, length-append p.bytes (length label ∷ label));
}

-- A label in front of what has been appended.
append-label :
    (name label : List ℕ) (ls : List (List ℕ)) (p p' : Packet)
    → Indexed (length name) p
    → Labels name (label ∷ ls)
    → 0 < length label
    → length label ≤ 63
    → Appended (labelled name label p) ls p'
    → Appended p (label ∷ ls) p'
unfolding note_name
append-label name label ls p p' x names some_bytes fits r =
    let here : List ℕ = length label ∷ label in
    let grows : p'.bytes ≡ p.bytes ++ (here ++ r.more) =
      r.grows ∙ append_assoc p.bytes here r.more in
    let place : length (p.bytes ++ here) ≡ length p.bytes + 1 + length label =
      omega (arith, length-append p.bytes here) in
    let spells : Spells p'.bytes (length p.bytes) (length p'.bytes) (suc r.rounds) (label ∷ ls) =
      label_at (length p.bytes) (length p'.bytes) r.rounds label r.more ls some_bytes fits
        (ap (drop (length p.bytes)) grows ∙ drop-length p.bytes (here ++ r.more))
        (subst (λ n. Spells p'.bytes n (length p'.bytes) r.rounds ls) place r.spells) in
    record {
      more = here ++ r.more;
      grows = grows;
      rounds = suc r.rounds;
      spells = spells;
      short = omega (arith, r.short);
      agrees = r.agrees;
      same_size = r.same_size;
      bounded = omega (arith, r.bounded, length-append p.bytes here);
      known = λ n ms i l f. elim (r.known n ms i l f) [
        | inr now ↦ inr now
        | inl before ↦
            elim ((find_name-note_name n name (length p.bytes) i (grown here p) x.agrees).1
              before) [
                | inl old ↦ inl old
                | inr (same, place_of) ↦
                    let all : label ∷ ls ≡ ms =
                      same-Labels names (subst (λ t. Labels t ms) same l) in
                    inr (
                      subst (IsSpelled p'.bytes i) all (
                        subst (λ k. IsSpelled p'.bytes k (label ∷ ls)) (sym place_of)
                          (record {
                            stop = length p'.bytes;
                            rounds = suc r.rounds;
                            spells = spells;
                            short = omega (arith, r.short);
                            behind_header = x.has_header;
                            inside = Spells-lt spells;
                          })))
              ]
      ];
    }

later-Succeeds :
    (saved : ℕ) (p q : Packet) (ls ms : List (List ℕ)) (o : Outcome ℕ)
    → ((p' : Packet) → Appended q ls p' → Appended p ms p')
    → Succeeds saved q ls o
    → Succeeds saved p ms o
later-Succeeds saved p q ls ms (done d p') f h = (h.0, f p' h.1)
later-Succeeds saved p q ls ms (refused p') f h = absurd h
later-Succeeds saved p q ls ms aborted f h = absurd h

if-Succeeds :
    (saved : ℕ) (p : Packet) (ls : List (List ℕ)) (b : Bool) (x y : Outcome ℕ)
    → (b ≡ true → Succeeds saved p ls x)
    → Succeeds saved p ls y
    → Succeeds saved p ls (if b then x else y)
if-Succeeds saved p ls true x y h k = h refl
if-Succeeds saved p ls false x y h k = k

labelled_room :
    (name label : List ℕ) (ls : List (List ℕ)) (p : Packet)
    → length p.bytes + wire (label ∷ ls) ≤ p.max_size
    → length (labelled name label p).bytes + wire ls ≤ (labelled name label p).max_size
unfolding note_name
labelled_room name label ls p h = omega (arith, length-append p.bytes (length label ∷ label))

pub append_name_loop-Succeeds :
    (f saved : ℕ) {name : List ℕ} {ls : List (List ℕ)}
    → Labels name ls
    → (p : Packet) → Indexed (length name) p
    → length name ≤ f
    → length p.bytes + wire ls ≤ p.max_size
    → Succeeds saved p ls (append_name_loop f saved name p)
unfolding append_name_loop
append_name_loop-Succeeds f saved no_label p x h room =
    rw (append_name_loop, append-grown (0 ∷ []) p (omega arith)) (refl, append-end saved p x.agrees)
append_name_loop-Succeeds zero saved (one_more c name label rest ls e some_bytes names) p x h room =
    absurd (omega arith)
append_name_loop-Succeeds (suc f) saved (one_more c name label rest ls e some_bytes names) p x h
      room =
    let bounds = unescape_label_bounds 64 (c ∷ name) label rest e in
    let smaller : length rest < length (c ∷ name) = bounds.3 (omega arith) in
    let q = labelled (c ∷ name) label p in
    let later : Succeeds saved q ls (append_name_loop f saved rest q) =
      append_name_loop-Succeeds f saved names q
        (labelled-Indexed (c ∷ name) label (length rest) p x smaller) (omega arith)
        (labelled_room (c ∷ name) label ls p room) in
    let all = one_more c name label rest ls e some_bytes names in
    let plain : Succeeds saved p (label ∷ ls) (append_name_loop f saved rest q) =
      later-Succeeds saved p q ls (label ∷ ls) _
        (λ p'. append-label (c ∷ name) label ls p p' x all some_bytes (omega (arith, bounds.0)))
        later in
    let written = append_string-grown label p (omega (arith, bounds.0)) (omega arith) in
    elim (Option-cases (find_name (c ∷ name) p)) [
      | inl missing ↦ rw (append_name_loop, missing, e, written) plain
      | inr (idx, found) ↦
          let s = x.spelled (c ∷ name) (label ∷ ls) idx (omega arith) all found in
          let inside : leb (length p.bytes) idx ≡ false = ground (arith, s.inside) in
          rw (append_name_loop, found, inside, e, written)
            (if-Succeeds saved p (label ∷ ls) (ltb idx 0x4000) _ _
              (λ low.
                let put = append-grown (pointer_to idx) p (omega arith) in
                rw put (
                  refl,
                  append-pointer p (label ∷ ls) idx x.agrees s (ltb→lt idx 0x4000 low)
                      (omega (arith, wire-pos ls)),
                ))
              plain)
    ]
