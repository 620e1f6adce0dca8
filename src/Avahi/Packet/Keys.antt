-- ===== src/Avahi/Packet/Keys.antt =====
-- A key that is appended to a packet is read back.
use qt_gretio.Prelude.{
  ℕ, ◌+◌, ◌≤◌, ◌<◌, ◌≡◌, refl, sym, ap, ◌∙◌, Bool, true, false, List, ◌++◌, arith, ltb, leb,
  if◌then◌else◌, length, drop, length-append, drop-length,
}
use mathlib.Core.List.{append_assoc}
use qt_gretio.Avahi.Label.Roundtrip.{AllChars}
use qt_gretio.Avahi.Label.Joined.{Labels, joined}
use qt_gretio.Avahi.Normal.{ok}
use qt_gretio.Avahi.Record.{Key, key_new, key_is_valid}
use qt_gretio.Avahi.Record.Made.{key_new-joined}
use qt_gretio.Avahi.Packet.{Packet, done, P, ◌>>=◌, two_bytes, append_uint16, consume_uint16}
use qt_gretio.Avahi.Packet.Names.{append_name, consume_name}
use qt_gretio.Avahi.Packet.Records.{
  append_key, consume_key, or_restore, with_bit, without_bit, cache_flush_bit,
}
use qt_gretio.Avahi.Packet.Numbers.{at, grown, append-grown, two_bytes_lem}
use qt_gretio.Avahi.Packet.Index.{wire, Spells-append, IsSpelled-append}
use qt_gretio.Avahi.Packet.Compression.{append_name_loop-Succeeds}
use qt_gretio.Avahi.Packet.Appending.{Appended}
use qt_gretio.Avahi.Packet.Roundtrip.{
  IsIndexed, Succeeds-done, Appended-IsIndexed, consume_name-Spells,
}

bind-done :
    {A B : Type 0} (m : P A) (f : A → P B) {a : A} {p p' : Packet}
    → m p ≡ done a p'
    → (m >>= f) p ≡ f a p'
unfolding ◌>>=◌
bind-done m f e = rw (◌>>=◌, e)

append_uint16-grown :
    (v : ℕ) (p : Packet)
    → length p.bytes + 2 ≤ p.max_size
    → append_uint16 v p ≡ done (length p.bytes) (grown (two_bytes v) p)
unfolding append_uint16
append_uint16-grown v p h = append-grown (two_bytes v) p h

-- A number is read where it stands.
consume_uint16-at :
    (v : ℕ) (before after : List ℕ) (q : Packet)
    → v < 65536
    → q.bytes ≡ before ++ (two_bytes v ++ after)
    → q.rindex ≡ length before
    → consume_uint16 q ≡ done v (at (length before + 2) q)
unfolding consume_uint16
consume_uint16-at v before after q h e i =
    let size : length q.bytes ≡ length before + (2 + length after) =
      ap length e ∙ length-append before (two_bytes v ++ after) ∙ omega arith in
    let room : ltb (length q.bytes) (q.rindex + 2) ≡ false = ground arith in
    let there : drop q.rindex q.bytes ≡ two_bytes v ++ after =
      ap (λ n. drop n q.bytes) i
      ∙ ap (drop (length before)) e
      ∙ drop-length before (two_bytes v ++ after) in
    rw (consume_uint16, room, there, two_bytes_lem v h, i) refl

grown-IsIndexed : (new : List ℕ) (p : Packet) → IsIndexed p → IsIndexed (grown new p)
grown-IsIndexed new p x n = record {
  agrees = (x n).agrees;
  spelled = λ name ms i k names f. IsSpelled-append new ((x n).spelled name ms i k names f);
  has_header = omega (arith, (x 0).has_header, length-append p.bytes new);
}

-- The class as it is written.
abbrev written_class : Bool → ℕ → ℕ
written_class u class = if u then with_bit class else class

written_class_lem :
    (u : Bool) (class : ℕ)
    → class < cache_flush_bit
    → (written_class u class < 65536)
      × (without_bit (written_class u class) ≡ class)
      × (leb cache_flush_bit (written_class u class) ≡ u)
written_class_lem true class h = ground arith
written_class_lem false class h = ground arith

-- The packet after a key.
abbrev keyed : ℕ → ℕ → Packet → Packet
keyed type class p = grown (two_bytes class) (grown (two_bytes type) p)

or_restore-done :
    {A : Type 0} (m : P A) {x : A} {p p' : Packet} → m p ≡ done x p' → or_restore m p ≡ done x p'
unfolding or_restore
or_restore-done m e = rw (or_restore, e)

append_key-keyed :
    (k : Key) (u : Bool) (p p' : Packet)
    → append_name k.name p ≡ done (length p.bytes) p'
    → length p'.bytes + 4 ≤ p'.max_size
    → append_key k u p ≡ done (length p.bytes) (keyed k.type (written_class u k.clazz) p')
unfolding append_key
append_key-keyed k u p p' e room =
    let q = grown (two_bytes k.type) p' in
    let size = length-append p'.bytes (two_bytes k.type) in
    or_restore-done _ (
      bind-done (append_name k.name) _ e
      ∙ bind-done (append_uint16 k.type) _ (append_uint16-grown k.type p' (omega arith))
      ∙ bind-done (append_uint16 (written_class u k.clazz)) _
          (append_uint16-grown (written_class u k.clazz) q (omega (arith, size))))

consume_key-steps :
    (q : Packet) (name : List ℕ) (type class : ℕ) (k : Key) (i : ℕ)
    → consume_name 256 q ≡ done name (at i q)
    → consume_uint16 (at i q) ≡ done type (at (i + 2) q)
    → consume_uint16 (at (i + 2) q) ≡ done class (at (i + 4) q)
    → key_new name (without_bit class) type ≡ ok k
    → key_is_valid k ≡ true
    → consume_key q ≡ done (k, leb cache_flush_bit class) (at (i + 4) q)
unfolding consume_key
consume_key-steps q name type class k i a b c d e =
    bind-done (consume_name 256) _ a
    ∙ bind-done consume_uint16 _ b
    ∙ bind-done consume_uint16 _ c
    ∙ rw (d, e) refl

-- What is read behind a name that has been appended.
consume_key-keyed :
    (p a : Packet) (ls : List (List ℕ)) (type class : ℕ) (more : List ℕ) (k : Key)
    → Appended p ls a
    → length ls ≤ 63
    → length (joined true ls) < 256
    → type < 65536
    → class < 65536
    → key_new (joined true ls) (without_bit class) type ≡ ok k
    → key_is_valid k ≡ true
    → let q = grown more (keyed type class a) in
      consume_key (at (length p.bytes) q)
      ≡ done (k, leb cache_flush_bit class) (at (length (keyed type class a).bytes) q)
consume_key-keyed p a ls type class more k r few short t c made valid =
    let q = grown more (keyed type class a) in
    let n = length a.bytes in
    let first = length-append a.bytes (two_bytes type) in
    let spells =
      Spells-append more
        (Spells-append (two_bytes class) (Spells-append (two_bytes type) r.spells)) in
    let stop : length (keyed type class a).bytes ≡ n + 4 =
      omega (arith, length-append (a.bytes ++ two_bytes type) (two_bytes class), first) in
    let second : length (a.bytes ++ two_bytes type) + 2 ≡ n + 4 = omega (arith, first) in
    consume_key-steps (at (length p.bytes) q) (joined true ls) type class k n
      (consume_name-Spells 256 (at (length p.bytes) q) spells (omega (arith, r.short)) short)
      (consume_uint16-at type a.bytes (two_bytes class ++ more) (at n q) t (simp append_assoc) refl)
      (consume_uint16-at class (a.bytes ++ two_bytes type) more (at (n + 2) q) c (simp append_assoc)
          (omega (arith, first))
        ∙ ap (λ (m : ℕ). done class (at m q)) second)
      made valid
    ∙ ap (λ (m : ℕ). done (k, leb cache_flush_bit class) (at m q)) (sym stop)

-- If the table of a packet tells rightly where its names are spelled, then a key whose name has at
-- most 63 labels, none of them empty, and whose text fits 256 bytes is appended wherever there is
-- room for it; whatever is appended behind it, it is read back from where it was put, its name as
-- the text of the same labels, along with the bit for a unicast response; and the table goes on
-- telling rightly.
pub append_key-consume_key :
    (p : Packet) (k : Key) (ls : List (List ℕ)) (unicast : Bool) (more : List ℕ)
    → IsIndexed p
    → AllChars k.name
    → Labels k.name ls
    → length ls ≤ 63
    → length (joined true ls) < 256
    → (k.type < 65536) × (k.clazz < cache_flush_bit)
    → length p.bytes + wire ls + 4 ≤ p.max_size
    → (p' : Packet) × (append_key k unicast p ≡ done (length p.bytes) p')
      × (consume_key (at (length p.bytes) (grown more p'))
          ≡ done
              (record k { name = joined true ls }, unicast)
              (at (length p'.bytes) (grown more p')))
      × IsIndexed p'
unfolding append_name
append_key-consume_key p k ls unicast more x v names few short (type_fits, class_fits) room =
    let i = length p.bytes in
    let result = Succeeds-done i p ls _ (
      append_name_loop-Succeeds (length k.name) i names p (x (length k.name)) (omega arith)
        (omega arith)) in
    let r = result.2 in
    let class = written_class unicast k.clazz in
    let p' = keyed k.type class result.0 in
    let known = written_class_lem unicast k.clazz class_fits in
    let made = key_new-joined k.name ls k.clazz k.type names v (omega arith) in
    (
      p',
      append_key-keyed k unicast p result.0 result.1 (omega (arith, r.same_size, r.bounded)),
      consume_key-keyed p result.0 ls k.type class more (record k { name = joined true ls }) r few
            short type_fits known.0
            (ap (λ (c : ℕ). key_new (joined true ls) c k.type) known.1 ∙ made.0) made.1
          ∙ ap
              (λ (u : Bool).
                done (record k { name = joined true ls }, u) (at (length p'.bytes) (grown more p')))
              known.2,
      grown-IsIndexed (two_bytes class) (grown (two_bytes k.type) result.0)
          (grown-IsIndexed (two_bytes k.type) result.0 (Appended-IsIndexed p result.0 ls x r)),
    )
