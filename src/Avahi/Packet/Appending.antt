-- ===== src/Avahi/Packet/Appending.antt =====
-- What appending a name does to a packet: the end of a name, and a pointer to an earlier one.
use qt_gretio.Prelude.{
  ℕ, suc, ◌+◌, ◌*◌, ◌/◌, ◌%◌, ◌≤◌, ◌<◌, ◌≡◌, refl, ◌⊎◌, inl, false, some, List, [], ◌∷◌, ◌++◌,
  arith, leb, length, length-append, drop-length, take_all,
}
use qt_gretio.Avahi.Label.Joined.{Labels}
use qt_gretio.Avahi.Packet.{Packet, Outcome, done, refused, aborted, append_string}
use qt_gretio.Avahi.Packet.Names.{find_name}
use qt_gretio.Avahi.Packet.Spelling.{Spells, ends, pointer}
use qt_gretio.Avahi.Packet.Numbers.{grown, append-grown}
use qt_gretio.Avahi.Packet.Index.{wire, Spells-append, IsSpelled, TableAgrees}

-- What a successful call leaves: the packet has grown by bytes that spell the labels, and every
-- name that is found now was found before or is spelled where it is found.
pub record Appended (p : Packet) (ls : List (List ℕ)) (p' : Packet) : Type 0 where
  pub more : List ℕ
  pub grows : p'.bytes ≡ p.bytes ++ more
  pub rounds : ℕ
  pub spells : Spells p'.bytes (length p.bytes) (length p'.bytes) rounds ls
  pub short : rounds ≤ 2 * length ls + 1
  pub agrees : TableAgrees p'.name_table
  pub same_size : p'.max_size ≡ p.max_size
  pub bounded : length p'.bytes ≤ length p.bytes + wire ls
  pub known :
      (n : List ℕ) (ms : List (List ℕ)) (i : ℕ)
      → Labels n ms
      → find_name n p' ≡ some i
      → (find_name n p ≡ some i) ⊎ IsSpelled p'.bytes i ms

abbrev pub Succeeds : ℕ → Packet → List (List ℕ) → Outcome ℕ → Type 0
Succeeds saved p ls (done d p') = (d ≡ saved) × Appended p ls p'
Succeeds saved p ls (refused p') = ⊥
Succeeds saved p ls aborted = ⊥

pub append_string-grown :
    (label : List ℕ) (p : Packet)
    → length label ≤ 63
    → length p.bytes + 1 + length label ≤ p.max_size
    → append_string label p ≡ done (length p.bytes) (grown (length label ∷ label) p)
unfolding append_string
append_string-grown label p h room =
    let short : leb 255 (length label) ≡ false = ground arith in
    rw (short, take_all label) (append-grown (length label ∷ label) p (omega arith))

-- The zero at the end.
pub append-end :
    (saved : ℕ) (p : Packet) → TableAgrees p.name_table → Appended p [] (grown (0 ∷ []) p)
append-end saved p a = record {
  more = 0 ∷ [];
  grows = refl;
  rounds = 1;
  spells =
      ends (length p.bytes) _ [] (drop-length p.bytes (0 ∷ []))
        (omega (arith, length-append p.bytes (0 ∷ [])));
  short = omega arith;
  agrees = a;
  same_size = refl;
  bounded = omega (arith, length-append p.bytes (0 ∷ []));
  known = λ n ms i l h. inl h;
}

abbrev pub pointer_to : ℕ → List ℕ
pointer_to idx = (0xC0 + idx / 256) ∷ (idx % 256) ∷ []

pub wire-pos : (ls : List (List ℕ)) → 0 < wire ls
wire-pos [] = omega arith
wire-pos (label ∷ ls) = omega arith

-- A pointer to a name that is spelled.
pub append-pointer :
    (p : Packet) (ls : List (List ℕ)) (idx : ℕ)
    → TableAgrees p.name_table
    → IsSpelled p.bytes idx ls
    → idx < 0x4000
    → 2 ≤ wire ls
    → Appended p ls (grown (pointer_to idx) p)
append-pointer p ls idx a s h two = record {
  more = pointer_to idx;
  grows = refl;
  rounds = suc s.rounds;
  spells =
      pointer (length p.bytes) _ s.stop s.rounds idx [] ls s.behind_header s.inside h
        (drop-length p.bytes (pointer_to idx))
        (omega (arith, length-append p.bytes (pointer_to idx)))
        (Spells-append (pointer_to idx) s.spells);
  short = omega (arith, s.short);
  agrees = a;
  same_size = refl;
  bounded = omega (arith, length-append p.bytes (pointer_to idx));
  known = λ n ms i l k. inl k;
}

-- The packet after a label, which is put in the table with the rest of its name.
