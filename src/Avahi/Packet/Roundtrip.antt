-- ===== src/Avahi/Packet/Roundtrip.antt =====
-- A name that is appended to a packet is read back, whatever of it was written as a pointer.
use qt_gretio.Prelude.{
  ℕ, ◌+◌, ◌-◌, ◌≤◌, ◌<◌, ◌≡◌, sym, ap, subst, inl, inr, true, false, none, some, List, [], arith,
  length,
}
use qt_gretio.Avahi.Label.Roundtrip.{AllChars}
use qt_gretio.Avahi.Packet.{Packet, Outcome, done, refused, aborted, new_packet}
use qt_gretio.Avahi.Packet.Names.{append_name, consume_name, consume_labels}
use qt_gretio.Avahi.Packet.Numbers.{at}
use qt_gretio.Avahi.Label.Joined.{Labels, joined, joined-Labels}
use qt_gretio.Avahi.Packet.Spelling.{Spells, labels_loop-Spells, Spells-lt}
use qt_gretio.Avahi.Packet.Index.{wire, Indexed, IsSpelled, IsSpelled-append}
use qt_gretio.Avahi.Packet.Compression.{append_name_loop-Succeeds}
use qt_gretio.Avahi.Packet.Appending.{Appended, Succeeds}

-- Every name that the table of the packet holds is spelled where it says.
abbrev pub IsIndexed : Packet → Type 0
IsIndexed p = (n : ℕ) → Indexed n p

pub Succeeds-done :
    (saved : ℕ) (p : Packet) (ls : List (List ℕ)) (o : Outcome ℕ)
    → Succeeds saved p ls o
    → (p' : Packet) × (o ≡ done saved p') × Appended p ls p'
Succeeds-done saved p ls (done d p') h = (p', ap (λ (n : ℕ). done n p') h.0, h.1)
Succeeds-done saved p ls (refused p') h = absurd h
Succeeds-done saved p ls aborted h = absurd h

-- A name that is spelled at the read index is read.
pub consume_name-Spells :
    (l : ℕ) (q : Packet) {e r : ℕ} {ls : List (List ℕ)}
    → Spells q.bytes q.rindex e r ls
    → r ≤ 127
    → length (joined true ls) < l
    → consume_name l q ≡ done (joined true ls) (at e q)
unfolding consume_name consume_labels
consume_name-Spells l q {e} {r} {ls} s few room =
    let read = labels_loop-Spells 127 q.bytes [] l true false 0 s few room in
    let stop : q.rindex + (0 + (e - q.rindex)) ≡ e = omega (arith, Spells-lt s) in
    rw (consume_name, consume_labels, read) (ap (λ (n : ℕ). done (joined true ls) (at n q)) stop)

pub Appended-IsIndexed :
    (p p' : Packet) (ls : List (List ℕ)) → IsIndexed p → Appended p ls p' → IsIndexed p'
Appended-IsIndexed p p' ls x r n = record {
  agrees = r.agrees;
  spelled = λ name ms i k names f. elim (r.known name ms i names f) [
    | inr now ↦ now
    | inl old ↦
        subst (λ b. IsSpelled b i ms) (sym r.grows)
          (IsSpelled-append r.more ((x n).spelled name ms i k names old))
  ];
  has_header = omega (arith, (x 0).has_header, Spells-lt r.spells);
}

-- If the table of a packet tells rightly where its names are spelled, as it does in a new packet,
-- then a name of at most 63 labels, none of them empty, is appended wherever there is room for its
-- labels without compression; reading it from where it was put, into a buffer with room for it,
-- gives the text of the same labels and leaves the read index behind it, whether it was written in
-- full or ends with a pointer to an earlier name; and the table goes on telling rightly.
append_name-consume_name :
    (p : Packet) (name : List ℕ) (ls : List (List ℕ)) (l : ℕ)
    → IsIndexed p
    → AllChars name
    → Labels name ls
    → length ls ≤ 63
    → length p.bytes + wire ls ≤ p.max_size
    → length (joined true ls) < l
    → (p' : Packet) × (append_name name p ≡ done (length p.bytes) p')
      × (consume_name l (at (length p.bytes) p') ≡ done (joined true ls) (at (length p'.bytes) p'))
      × Labels (joined true ls) ls
      × IsIndexed p'
unfolding append_name
append_name-consume_name p name ls l x v names few room fits =
    let i = length p.bytes in
    let result =
      Succeeds-done i p ls _
        (append_name_loop-Succeeds (length name) i names p (x (length name)) (omega arith) room) in
    (
      result.0,
      result.1,
      consume_name-Spells l (at i result.0) result.2.spells (omega (arith, result.2.short)) fits,
      joined-Labels names v,
      Appended-IsIndexed p result.0 ls x result.2,
    )

none_is_no_index : {i : ℕ} → none ≡ some i → ⊥
none_is_no_index h = cc

-- A new packet has no table.
pub new_packet-IsIndexed : (mtu : ℕ) → IsIndexed (new_packet mtu)
unfolding new_packet
new_packet-IsIndexed mtu n = record {
  agrees = tt;
  spelled = λ name ls i k names f. absurd (none_is_no_index f);
  has_header = omega arith;
}
