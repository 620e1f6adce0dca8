-- ===== src/Avahi/Packet/Names.antt =====
-- QtZeroConf/avahi-core/dns.c: names in packets, with their compression.
use qt_gretio.Prelude.{
  ℕ, zero, suc, ◌+◌, ◌-◌, ◌*◌, ◌/◌, ◌%◌, Bool, true, false, ◌||◌, not, Option, none, some, List, [],
  ◌∷◌, ◌++◌, ltb, leb, ◌==◌, if◌then◌else◌, length, take, drop,
}
use qt_gretio.Avahi.Label.{unescape_label, escape_label}
use qt_gretio.Avahi.Hashmap.{
  Hashmap, string_hash, string_equal, new, lookup, insert, remove, foreach,
}
use qt_gretio.Avahi.Packet.{
  Packet, Outcome, done, refused, aborted, P, header_size, append, append_string,
}

abbrev pub Table : Type 0
Table = Hashmap (List ℕ) ℕ

unfoldable pub name_table_cleanup : ℕ → List ℕ → ℕ → Table → Table
name_table_cleanup size key value table =
    if leb size value then remove string_hash string_equal table key else table

unfoldable pub cleanup_name_table : Packet → Packet
cleanup_name_table p = elim p.name_table [
  | none ↦ p
  | some table ↦ record p {
    name_table =
        some (foreach string_hash string_equal (name_table_cleanup (length p.bytes)) table);
  }
]

-- `fail:` with the size that was saved.
unfoldable pub restore : ℕ → Packet → Packet
restore size p = cleanup_name_table (record p { bytes = take size p.bytes })

abbrev pub find_name : List ℕ → Packet → Option ℕ
find_name name p = elim p.name_table [
  | none ↦ none
  | some table ↦ lookup string_hash string_equal table name
]

-- The name is put in the table with the index of its first label, unless it is there already.
unfoldable pub note_name : List ℕ → ℕ → Packet → Packet
note_name name d p =
    let table = elim p.name_table as (λ _. Table) [ none ↦ new (λ e. ([], 0)) | some t ↦ t ] in
    record p { name_table = some (insert string_hash string_equal table name d).1 }

-- `saved` is the size at the start. A pointer that does not fit leaves what was appended.
unfoldable pub append_name_loop : ℕ → ℕ → List ℕ → P ℕ
append_name_loop f saved [] p = elim (append (0 ∷ []) p) [
  | done d p' ↦ done saved p'
  | refused p' ↦ refused (restore saved p')
  | aborted ↦ aborted
]
append_name_loop zero saved (c ∷ name) p = aborted
append_name_loop (suc f) saved (c ∷ name) p =
    let plain = elim (unescape_label 64 (c ∷ name)) as (λ _. Outcome ℕ) [
      | none ↦ refused (restore saved p)
      | some (label, rest) ↦ elim (append_string label p) [
        | done d p' ↦ append_name_loop f saved rest (note_name (c ∷ name) d p')
        | refused p' ↦ refused (restore saved p')
        | aborted ↦ aborted
      ]
    ] in
    elim (find_name (c ∷ name) p) [
      | none ↦ plain
      | some idx ↦
          if leb (length p.bytes) idx
          then aborted
          else if ltb idx 0x4000
          then (elim (append ((0xC0 + idx / 256) ∷ (idx % 256) ∷ []) p) [
            | done d p' ↦ done saved p'
            | refused p' ↦ refused p'
            | aborted ↦ aborted
          ])
          else plain
    ]

unfoldable pub append_name : List ℕ → P ℕ
append_name name p = append_name_loop (length name) (length p.bytes) name p

-- The loop of `consume_labels`: at `idx`, with the name so far, the room that is left, whether a
-- pointer was followed, and the bytes that the name takes at its own place. The first argument
-- counts the rounds that are left of 127. `none` is -1.
unfoldable pub labels_loop : ℕ → List ℕ → ℕ → List ℕ → ℕ → Bool → Bool → ℕ → Option (ℕ × List ℕ)
labels_loop zero bytes idx name l is_first compressed ret = none
labels_loop (suc f) bytes idx name l is_first compressed ret = elim (drop idx bytes) [
  | [] ↦ none
  | n ∷ after ↦
      let dot = if is_first then [] else b'.' ∷ [] in
      let w = escape_label (take n after) (l - length dot) in
      let here = if compressed then ret else ret + 1 in
      let next =
        labels_loop f bytes (idx + 1 + n) (name ++ dot ++ w.bytes) w.left false compressed
          (if compressed then ret else ret + 1 + n) in
      let follow = elim after as (λ _. Option (ℕ × List ℕ)) [
        | [] ↦ none
        | low ∷ _ ↦
            let label_ptr = (n - 0xC0) * 256 + low in
            let back =
              labels_loop f bytes label_ptr name l is_first true
                (if compressed then ret else ret + 2) in
            if ltb label_ptr header_size || leb idx label_ptr then none else back
      ] in
      if n == 0
      then (if l == 0 then none else some (here, name))
      else if leb n 63
      then (if ltb (length bytes) (idx + 1 + n) || leb l n || not w.success then none else next)
      else if leb 0xC0 n
      then follow
      else none
]

unfoldable pub consume_labels : List ℕ → ℕ → ℕ → Option (ℕ × List ℕ)
consume_labels bytes idx l = labels_loop 127 bytes idx [] l true false 0

-- `l` is the size of the buffer.
unfoldable pub consume_name : ℕ → P (List ℕ)
consume_name l p = elim (consume_labels p.bytes p.rindex l) [
  | none ↦ refused p
  | some (r, name) ↦ done name (record p { rindex = p.rindex + r })
]
