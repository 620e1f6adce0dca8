-- ===== src/Avahi/Packet/Index.antt =====
-- The table of a packet's names: it knows where they are spelled.
use qt_gretio.Prelude.{
  ℕ, zero, suc, ◌+◌, ◌*◌, ◌/◌, ◌%◌, ◌≤◌, ◌<◌, ◌≡◌, refl, sym, ap, ◌∙◌, ◌⊎◌, inl, inr, true, Option,
  none, some, List, [], ◌∷◌, ◌++◌, arith, Bool-cases, Option-cases, length, drop, length-append,
}
use mathlib.Core.List.{append_assoc}
use qt_gretio.Avahi.Label.Joined.{Labels}
use qt_gretio.Avahi.Hashmap.{string_hash, string_equal, new, lookup, insert}
use qt_gretio.Avahi.Hashmap.Refinement.{contents, find_pair, Agrees, new-Agrees}
use qt_gretio.Avahi.Hashmap.Operations.{insert_pair, insert-Agrees, lookup-find_pair}
use qt_gretio.Avahi.Hashmap.History.{insert-insert_pair}
use qt_gretio.Avahi.Packet.{Packet, header_size}
use qt_gretio.Avahi.Packet.Names.{Table, find_name, note_name}
use qt_gretio.Avahi.Packet.Spelling.{Spells, ends, label_at, pointer}

-- The bytes that labels take without a pointer.
abbrev pub wire : List (List ℕ) → ℕ
wire [] = 1
wire (label ∷ ls) = 1 + length label + wire ls

drop-cons-append :
    {A : Type 0} (i : ℕ) (xs : List A) (x : A) (rest more : List A)
    → drop i xs ≡ x ∷ rest
    → drop i (xs ++ more) ≡ x ∷ (rest ++ more)
drop-cons-append zero xs x rest more h = rw h refl
drop-cons-append (suc i) [] x rest more h = cc
drop-cons-append (suc i) (y ∷ xs) x rest more h = drop-cons-append i xs x rest more h

-- What is spelled stays so when bytes are appended.
pub Spells-append :
    {bytes : List ℕ} {idx e r : ℕ} {ls : List (List ℕ)} (more : List ℕ)
    → Spells bytes idx e r ls
    → Spells (bytes ++ more) idx e r ls
Spells-append {bytes} more (ends idx e after d q) =
    ends idx e (after ++ more) (drop-cons-append idx bytes 0 after more d) q
Spells-append {bytes} more (label_at idx e r label after ls p k d s) =
    label_at idx e r label (after ++ more) ls p k
      (drop-cons-append idx bytes (length label) (label ++ after) more d
        ∙ ap (λ t. length label ∷ t) (append_assoc label after more))
      (Spells-append more s)
Spells-append {bytes} more (pointer idx e e' r target after ls g t k d q s) =
    pointer idx e e' r target (after ++ more) ls g t k
      (drop-cons-append idx bytes (0xC0 + target / 256) ((target % 256) ∷ after) more d) q
      (Spells-append more s)

-- A place that a name may be pointed to at.
pub record IsSpelled (bytes : List ℕ) (i : ℕ) (ls : List (List ℕ)) : Type 0 where
  pub stop : ℕ
  pub rounds : ℕ
  pub spells : Spells bytes i stop rounds ls
  pub short : rounds ≤ 2 * length ls
  pub behind_header : header_size ≤ i
  pub inside : i < length bytes

pub IsSpelled-append :
    {bytes : List ℕ} {i : ℕ} {ls : List (List ℕ)} (more : List ℕ)
    → IsSpelled bytes i ls
    → IsSpelled (bytes ++ more) i ls
IsSpelled-append {bytes} more h = record {
  stop = h.stop;
  rounds = h.rounds;
  spells = Spells-append more h.spells;
  short = h.short;
  behind_header = h.behind_header;
  inside = omega (arith, h.inside, length-append bytes more);
}

abbrev pub TableAgrees : Option Table → Type 0
TableAgrees none = Unit {0}
TableAgrees (some t) = Agrees string_hash string_equal t

-- The names of up to n bytes that the table holds are spelled where it says.
pub record Indexed (n : ℕ) (p : Packet) : Type 0 where
  pub agrees : TableAgrees p.name_table
  pub spelled :
      (name : List ℕ) (ls : List (List ℕ)) (i : ℕ)
      → length name ≤ n
      → Labels name ls
      → find_name name p ≡ some i
      → IsSpelled p.bytes i ls
  pub has_header : header_size ≤ length p.bytes

string_equal→eq : (s t : List ℕ) → string_equal s t ≡ true → s ≡ t
unfolding string_equal
string_equal→eq [] [] h = refl
string_equal→eq [] (y ∷ t) h = cc
string_equal→eq (x ∷ s) [] h = cc
string_equal→eq (x ∷ s) (y ∷ t) h = ground (arith, string_equal→eq s t)

pub string_hash-string_equal :
    (s t : List ℕ) → string_equal s t ≡ true → string_hash s ≡ string_hash t
string_hash-string_equal s t h = ap string_hash (string_equal→eq s t h)

find_pair-insert_pair :
    (n name : List ℕ) (d i : ℕ) (ps : List (List ℕ × ℕ))
    → find_pair string_hash string_equal n (insert_pair string_hash string_equal name d ps) ≡ some i
    → (find_pair string_hash string_equal n ps ≡ some i) ⊎ ((n ≡ name) × (i ≡ d))
find_pair-insert_pair n name d i ps h =
    elim (Option-cases (find_pair string_hash string_equal name ps)) [
      | inl missing ↦ elim (Bool-cases (string_equal n name)) [
        | inl same ↦ inr (string_equal→eq n name same, ground arith)
        | inr other ↦ inl (ground arith)
      ]
      | inr (v, found) ↦ inl (ground arith)
    ]

none_not_some : {A : Type 0} {a : A} → none ≡ some a → ⊥
none_not_some h = cc

lookup-insert :
    (t : Table) (n name : List ℕ) (d i : ℕ)
    → Agrees string_hash string_equal t
    → lookup string_hash string_equal (insert string_hash string_equal t name d).1 n ≡ some i
    → (lookup string_hash string_equal t n ≡ some i) ⊎ ((n ≡ name) × (i ≡ d))
lookup-insert t n name d i a h =
    let step = insert-insert_pair string_hash string_equal string_hash-string_equal t name d a in
    let after = (insert string_hash string_equal t name d).1 in
    let before = lookup-find_pair string_hash string_equal string_hash-string_equal t n a in
    let there =
      sym (ap (find_pair string_hash string_equal n) step.0)
      ∙ sym (lookup-find_pair string_hash string_equal string_hash-string_equal after n step.1)
      ∙ h in
    elim (find_pair-insert_pair n name d i (contents string_hash string_equal t) there) [
      | inl old ↦ inl (before ∙ old)
      | inr added ↦ inr added
    ]

lookup-new :
    (n : List ℕ) (memory : ℕ → List ℕ × ℕ) → lookup string_hash string_equal (new memory) n ≡ none
unfolding new
lookup-new n memory =
    lookup-find_pair string_hash string_equal string_hash-string_equal (new memory) n
      (new-Agrees string_hash string_equal memory)

-- The table that a name is put in, and what a name is found as in it.
abbrev table_of : Option Table → Table
table_of none = new (λ e. ([], 0))
table_of (some t) = t

abbrev found_in : Option Table → List ℕ → Option ℕ
found_in o n = elim o [ none ↦ none | some t ↦ lookup string_hash string_equal t n ]

noted :
    (o : Option Table) (n name : List ℕ) (d i : ℕ)
    → TableAgrees o
    → let t = (insert string_hash string_equal (table_of o) name d).1 in
      Agrees string_hash string_equal t
      × (lookup string_hash string_equal t n ≡ some i
          → (found_in o n ≡ some i) ⊎ ((n ≡ name) × (i ≡ d)))
noted none n name d i a =
    let t : Table = new (λ e. ([], 0)) in
    let fresh = new-Agrees string_hash string_equal (λ e. ([], 0)) in
    (
      insert-Agrees string_hash string_equal t name d fresh,
      λ h. elim (lookup-insert t n name d i fresh h) [
        | inl old ↦ absurd (none_not_some (sym (lookup-new n (λ e. ([], 0))) ∙ old))
        | inr added ↦ inr added
      ],
    )
noted (some t) n name d i a =
    (insert-Agrees string_hash string_equal t name d a, λ h. lookup-insert t n name d i a h)

-- A name that is looked up after another has been put in the table.
pub find_name-note_name :
    (n name : List ℕ) (d i : ℕ) (p : Packet)
    → TableAgrees p.name_table
    → TableAgrees (note_name name d p).name_table
      × (find_name n (note_name name d p) ≡ some i
          → (find_name n p ≡ some i) ⊎ ((n ≡ name) × (i ≡ d)))
unfolding note_name
find_name-note_name n name d i p a = noted p.name_table n name d i a
