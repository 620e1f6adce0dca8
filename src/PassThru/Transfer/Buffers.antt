-- ===== src/PassThru/Transfer/Buffers.antt =====
-- The caller's array of messages: what is read from it, and what is written to it.
use qt_gretio.Prelude.{
  ℕ, zero, suc, ◌≤◌, ◌≡◌, refl, ap, subst, ◌≢◌, ◌↔◌, inl, inr, none, some, List, [], ◌∷◌, ◌++◌,
  arith, Option-cases, length, take, drop,
}
use qt_gretio.Qt.{Qt, QtLaws}
use qt_gretio.J2534.{PassthruMsg, IsMsg, data_capacity}
use qt_gretio.J2534.Message.{copy_json_msg}
use qt_gretio.J2534.Message.Roundtrip.{copy_json_msg-pt_msg_to_json}
use qt_gretio.PassThru.Transfer.{copy_msgs, encode_msgs}

-- A message that the encoder reads within its bounds.
abbrev pub IsSized : PassthruMsg → Type 0
IsSized m = IsMsg m × (4 ≤ m.data_size) × (m.data_size ≤ data_capacity)

abbrev pub AllSized : List PassthruMsg → Type 0
AllSized [] = Unit {0}
AllSized (m ∷ ms) = IsSized m × AllSized ms

-- The message that a transfer of m leaves in dest.
abbrev pub received : PassthruMsg → PassthruMsg → PassthruMsg
received m dest = record m { payload = take m.data_size m.payload ++ drop m.data_size dest.payload }

abbrev pub all_received : ℕ → List PassthruMsg → List PassthruMsg → List PassthruMsg
all_received zero ms dests = dests
all_received (suc n) (m ∷ ms) (d ∷ dests) = received m d ∷ all_received n ms dests
all_received (suc n) ms dests = dests

module _ (q : Qt) where
  -- The write is in bounds exactly if the reply holds no more messages than the caller's array,
  -- whatever number of messages was asked for.
  pub copy_msgs_bounds :
      (os : List q.Object) (buffer : List PassthruMsg)
      → (copy_msgs q os buffer ≢ none) ↔ (length os ≤ length buffer)
  unfolding copy_msgs
  copy_msgs_bounds [] buffer = (λ h. omega arith, λ h. ground arith)
  copy_msgs_bounds (o ∷ os) [] = (λ h. absurd (h refl), λ h. absurd (omega arith))
  copy_msgs_bounds (o ∷ os) (m ∷ buffer) = (
    λ h. ground (arith, copy_msgs_bounds os buffer),
    λ h. ground (arith, copy_msgs_bounds os buffer),
  )

  -- The array keeps its length, and the messages behind those of the reply stay what they were.
  pub copy_msgs_rest :
      (os : List q.Object) (buffer buffer' : List PassthruMsg)
      → copy_msgs q os buffer ≡ some buffer'
      → (length buffer' ≡ length buffer) × (drop (length os) buffer' ≡ drop (length os) buffer)
  unfolding copy_msgs
  copy_msgs_rest [] buffer buffer' h = ground arith
  copy_msgs_rest (o ∷ os) [] buffer' h = cc
  copy_msgs_rest (o ∷ os) (m ∷ buffer) buffer' h = elim (Option-cases (copy_msgs q os buffer)) [
    | inl e ↦ absurd (ground (arith, e))
    | inr (rest, e) ↦
        let known = copy_msgs_rest os buffer rest e in
        subst
          (λ (b : List PassthruMsg).
            (length b ≡ suc (length buffer)) × (drop (suc (length os)) b ≡ drop (length os) buffer))
          (let whole : copy_json_msg q o m ∷ rest ≡ buffer' = ground (arith, e) in whole)
          (ap suc known.0, known.1)
  ]

  -- Encoding the first n messages of an array, and copying the objects into an array that has room
  -- for them, gives back the messages.
  pub copy_msgs-encode_msgs :
      (laws : QtLaws q) (n : ℕ) (ms dests : List PassthruMsg)
      → AllSized (take n ms)
      → n ≤ length ms
      → n ≤ length dests
      → (os : List q.Object) × (encode_msgs q n ms ≡ some os)
        × (length os ≡ n)
        × (copy_msgs q os dests ≡ some (all_received n ms dests))
  unfolding encode_msgs copy_msgs
  copy_msgs-encode_msgs laws zero ms dests v h k = ([], refl, refl, refl)
  copy_msgs-encode_msgs laws (suc n) [] dests v h k = absurd (omega arith)
  copy_msgs-encode_msgs laws (suc n) (m ∷ ms) [] v h k = absurd (omega arith)
  copy_msgs-encode_msgs laws (suc n) (m ∷ ms) (d ∷ dests) v h k =
      let one = copy_json_msg-pt_msg_to_json q laws m d v.0.0 v.0.1 v.0.2 in
      let rest = copy_msgs-encode_msgs laws n ms dests v.1 (omega arith) (omega arith) in
      (
        one.0 ∷ rest.0,
        ground (arith, one.1, rest.1),
        omega (arith, rest.2),
        ground (arith, one.2, rest.3),
      )
