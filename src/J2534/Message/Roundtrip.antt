-- ===== src/J2534/Message/Roundtrip.antt =====
-- The conversion of a message to JSON and back, and what `CopyJsonMsg` writes.
use qt_gretio.Prelude.{
  ℕ, zero, suc, ◌+◌, ◌-◌, ◌≤◌, ◌<◌, ◌≡◌, ap, ◌∙◌, some, List, [], ◌∷◌, ◌++◌, arith, length, take,
  drop, length-take, length-drop, pos, u32_mod, to_u32, to_i32,
}
use Prim.Native.Nat.add
use qt_gretio.Qt.{Qt, QtLaws, AllBytes}
use qt_gretio.J2534.{PassthruMsg, IsMsg, data_capacity}
use qt_gretio.J2534.Message.{
  byte_array, data_length, msg_object, pt_msg_to_json, raw_data, copy_json_msg,
}

take-AllBytes : (n : ℕ) (xs : List ℕ) → AllBytes xs → AllBytes (take n xs)
take-AllBytes zero xs h = tt
take-AllBytes (suc n) [] h = tt
take-AllBytes (suc n) (x ∷ xs) h = (h.0, take-AllBytes n xs h.1)

drop-AllBytes : (n : ℕ) (xs : List ℕ) → AllBytes xs → AllBytes (drop n xs)
drop-AllBytes zero xs h = h
drop-AllBytes (suc n) [] h = tt
drop-AllBytes (suc n) (x ∷ xs) h = drop-AllBytes n xs h.1

take-add : (m n : ℕ) (xs : List ℕ) → take m xs ++ take n (drop m xs) ≡ take (m + n) xs
take-add zero n xs = rw (add.zero n)
take-add (suc m) zero [] = rw (add.suc m zero)
take-add (suc m) (suc n) [] = rw (add.suc m (suc n))
take-add (suc m) n (x ∷ xs) = rw (add.suc m n, take-add m n xs)

-- With at least four and at most 4128 bytes the length is what the source means it to be.
data_length_lem :
    (m : PassthruMsg)
    → 4 ≤ m.data_size
    → m.data_size ≤ data_capacity
    → data_length m ≡ pos (m.data_size - 4)
unfolding data_length to_i32
data_length_lem m h k = ground arith

byte_array-pos : (xs : List ℕ) (n : ℕ) → n ≤ length xs → byte_array xs (pos n) ≡ some (take n xs)
unfolding byte_array
byte_array-pos xs n h = ground arith

-- The two arrays that the source reads are the first four bytes and those after them.
pub pt_msg_to_json_lem :
    (q : Qt) (m : PassthruMsg)
    → IsMsg m
    → 4 ≤ m.data_size
    → m.data_size ≤ data_capacity
    → pt_msg_to_json q m
      ≡ some (msg_object q (take 4 m.payload) (take (m.data_size - 4) (drop 4 m.payload)) m)
unfolding pt_msg_to_json
pt_msg_to_json_lem q m v h k = rw (
  pt_msg_to_json,
  byte_array-pos m.payload 4 (omega (arith, v.payload_length)),
  data_length_lem m h k,
  byte_array-pos (drop 4 m.payload) (m.data_size - 4)
      (omega (arith, v.payload_length, length-drop 4 m.payload)),
)

module _ (q : Qt) (laws : QtLaws q) where
  open laws use {value-insert, to_str-of_str, from_hex-to_hex, to_long_long-number}

  raw_data-msg_object :
      (header body : List ℕ) (m : PassthruMsg)
      → AllBytes header
      → AllBytes body
      → raw_data q (msg_object q header body m) ≡ header ++ body
  unfolding raw_data
  raw_data-msg_object header body m h k =
      simp (raw_data, value-insert, to_str-of_str) (from_hex-to_hex header body h k)

  -- A number that was stored as text comes back.
  to_u32-number : (n : ℕ) → n < u32_mod → to_u32 (q.to_long_long (q.of_str (q.number n))) ≡ n
  unfolding to_u32
  to_u32-number n h = rw (to_long_long-number n h) (omega arith)

  copy_json_msg-msg_object :
      (header body : List ℕ) (m dest : PassthruMsg)
      → IsMsg m
      → AllBytes header
      → AllBytes body
      → 4 ≤ length (header ++ body)
      → length (header ++ body) ≤ data_capacity
      → copy_json_msg q (msg_object q header body m) dest ≡ record m {
        data_size = length (header ++ body);
        payload = (header ++ body) ++ drop (length (header ++ body)) dest.payload;
      }
  unfolding copy_json_msg
  copy_json_msg-msg_object header body m dest v h k lo hi =
      simp
        (
          copy_json_msg,
          raw_data-msg_object header body m h k,
          value-insert,
          to_u32-number m.protocol_id v.protocol_id_fits,
          to_u32-number m.rx_status v.rx_status_fits,
          to_u32-number m.tx_flags v.tx_flags_fits,
          to_u32-number m.timestamp v.timestamp_fits,
          to_u32-number m.extra_data_index v.extra_data_index_fits,
        )
        (ground arith)

-- A message whose length is between 4 and 4128 is encoded, and decoding its JSON object into any
-- message structure gives back the six numbers and the first `data_size` bytes; the bytes behind
-- them are those of the destination.
pub copy_json_msg-pt_msg_to_json :
    (q : Qt) (laws : QtLaws q) (m dest : PassthruMsg)
    → IsMsg m
    → 4 ≤ m.data_size
    → m.data_size ≤ data_capacity
    → (o : q.Object) × (pt_msg_to_json q m ≡ some o)
      × (copy_json_msg q o dest
          ≡ record m { payload = take m.data_size m.payload ++ drop m.data_size dest.payload })
copy_json_msg-pt_msg_to_json q laws m dest v lo hi = (
  msg_object q header body m,
  pt_msg_to_json_lem q m v lo hi,
  rw (
    copy_json_msg-msg_object q laws header body m dest v (take-AllBytes 4 m.payload v.payload_bytes)
        (take-AllBytes _ (drop 4 m.payload) (drop-AllBytes 4 m.payload v.payload_bytes))
        (rw whole-length lo) (rw whole-length hi),
    whole-length,
    whole,
  ),
)
  where
    header : List ℕ
    header = take 4 m.payload

    body : List ℕ
    body = take (m.data_size - 4) (drop 4 m.payload)

    whole : header ++ body ≡ take m.data_size m.payload
    whole = take-add 4 (m.data_size - 4) m.payload ∙ ap (λ (n : ℕ). take n m.payload) (omega arith)

    whole-length : length (header ++ body) ≡ m.data_size
    whole-length =
        omega (arith, ap length whole, length-take m.data_size m.payload, v.payload_length)
