-- ===== src/J2534/Message.antt =====
-- SurrealJ2534Wrapper/J2534.cpp: `PtMsgToJson` and `CopyJsonMsg`.
pub mod Roundtrip
use qt_gretio.Prelude.{
  ℕ, ◌+◌, ◌-◌, ◌%◌, String, ◌||◌, Option, none, some, List, [], ◌∷◌, ◌++◌, map, ltb, leb, ◌==◌,
  if◌then◌else◌, length, take, drop, ℤ, pos, negsuc, u32_mod, to_u32, to_i32,
}
use mathlib.Core.Option
use qt_gretio.Qt.{Qt}
use qt_gretio.J2534.{PassthruMsg, data_capacity}

-- The bytes before the first NUL; `none` if the array holds no NUL, and the read runs past it.
unfoldable pub c_string : List ℕ → Option (List ℕ)
c_string [] = none
c_string (b ∷ bs) = if b == 0 then some [] else Option.map (λ r. b ∷ r) (c_string bs)

-- `QByteArray(ptr, size)`: a negative size means a NUL-terminated string. `none` is a read past
-- the end of the array that `ptr` points into.
unfoldable pub byte_array : List ℕ → ℤ → Option (List ℕ)
byte_array mem (pos n) = if leb n (length mem) then some (take n mem) else none
byte_array mem (negsuc n) = c_string mem

-- `msg.DataSize - 4`, an unsigned subtraction whose result is passed as an int.
unfoldable pub data_length : PassthruMsg → ℤ
data_length m = to_i32 ((m.data_size + u32_mod - 4) % u32_mod)

module _ (q : Qt) where
  open q use {
    Str, Object, insert, of_str, to_hex, number, value, to_str, concat, from_hex, to_long_long,
  }

  abbrev pub msg_object : List ℕ → List ℕ → PassthruMsg → Object
  msg_object header body m =
      insert
        (insert
          (insert
            (insert
              (insert
                (insert (insert q.empty "header" (of_str (to_hex header))) "data"
                  (of_str (to_hex body)))
                "protocolId" (of_str (number m.protocol_id)))
              "timeStamp" (of_str (number m.timestamp)))
            "rxFlag" (of_str (number m.rx_status)))
          "txFlag" (of_str (number m.tx_flags)))
        "extraDataIndex" (of_str (number m.extra_data_index))

  -- `none` is a read outside the message's `Data`.
  unfoldable pub pt_msg_to_json : PassthruMsg → Option Object
  unfolding byte_array data_length
  pt_msg_to_json m = elim (byte_array m.payload (pos 4)) [
    | none ↦ none
    | some header ↦
        Option.map (λ body. msg_object header body m)
          (byte_array (drop 4 m.payload) (data_length m))
  ]

  unfoldable pub raw_data : Object → List ℕ
  raw_data o = from_hex (concat (to_str (value o "header")) (to_str (value o "data")))

  abbrev pub field : Object → String → ℕ
  field o k = to_u32 (to_long_long (value o k))

  unfoldable pub copy_json_msg : Object → PassthruMsg → PassthruMsg
  unfolding raw_data
  copy_json_msg o dest =
      let raw = raw_data o in
      let filled : PassthruMsg = record {
        protocol_id = field o "protocolId";
        rx_status = field o "rxFlag";
        tx_flags = field o "txFlag";
        timestamp = field o "timeStamp";
        data_size = length raw;
        extra_data_index = field o "extraDataIndex";
        payload = dest.payload;
      } in
      if ltb (length raw) 4 || ltb data_capacity (length raw)
      then filled
      else record filled { payload = raw ++ drop (length raw) dest.payload }
