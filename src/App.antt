-- ===== src/App.antt =====
-- GretioApp/main.cpp: the program that tries the library out. It calls the exported functions one
-- after the other, and looks at no code that they return.
pub mod NoDevice
use qt_gretio.Prelude.{
  ℕ, ◌+◌, ◌-◌, ◌%◌, Bool, true, ◌&&◌, Option, none, some, List, [], ◌∷◌, ◌++◌, ◌==◌, if◌then◌else◌,
  drop, replicate, u32_mod, to_i32,
}
use qt_gretio.Qt.{Qt}
use qt_gretio.J2534
use qt_gretio.J2534.{PassthruMsg, Sconfig, SconfigList}
use qt_gretio.J2534.Message.{byte_array}
use qt_gretio.PassThru.{
  M, ◌>>=◌, done, fault, pass_thru_open, pass_thru_connect, pass_thru_disconnect,
}
use qt_gretio.PassThru.Transfer.{pass_thru_read_msgs, pass_thru_write_msgs}
use qt_gretio.PassThru.Channel.{pass_thru_start_msg_filter, pass_thru_ioctl}

-- What QLibrary finds: whether the library loads, and which of its symbols are resolved.
pub record Library : Type 0 where
  pub loads : Bool
  pub has_open : Bool
  pub has_connect : Bool
  pub has_write : Bool
  pub has_read : Bool
  pub has_ioctl : Bool
  pub has_filter : Bool
  pub has_disconnect : Bool

pub data Warning : Type 0 where
  failed_to_load : Warning
  failed_to_resolve : Warning
  wrong_length : Warning
  wrong_protocol : Warning

-- The test of the pointers, which leaves out that of PassThruDisconnect.
abbrev pub is_resolved : Library → Bool
is_resolved l =
    l.has_open && l.has_connect && l.has_write && l.has_read && l.has_ioctl && l.has_filter

abbrev pub load_warnings : Library → List Warning
load_warnings l = if l.loads then [] else failed_to_load ∷ []

-- `loopback` of J2534.h.
abbrev pub configs : SconfigList
configs = record { num_of_params = 1; config_ptr = some (record { parameter = 3; value = 1 } ∷ []) }

abbrev pub pass_filter : ℕ
pass_filter = 0x00000001

-- The mask and the pattern: the members that are not named are zero.
unfoldable pub mask : PassthruMsg
mask = record {
  protocol_id = 5;
  rx_status = 0;
  tx_flags = 0;
  timestamp = 0;
  data_size = 4;
  extra_data_index = 0;
  payload = 0x00 ∷ 0x00 ∷ 0x07 ∷ 0xff ∷ replicate (J2534.data_capacity - 4) 0;
}

abbrev pub request_bytes : List ℕ
request_bytes =
    0x00 ∷ 0x00 ∷ 0x07 ∷ 0xdf ∷ 0x02 ∷ 0x09 ∷ 0x00 ∷ 0x00 ∷ 0x00 ∷ 0x00 ∷ 0x00 ∷ 0x00 ∷ []

-- The message, in memory that held these bytes.
unfoldable pub first_message : List ℕ → PassthruMsg
first_message memory = record {
  protocol_id = 5;
  rx_status = 0;
  tx_flags = 0;
  timestamp = 0;
  data_size = 12;
  extra_data_index = 12;
  payload = request_bytes ++ drop 12 memory;
}

-- `msg.DataSize - (msg.ExtraDataIndex - msg.DataSize)`, of unsigned longs.
unfoldable pub checked_length : PassthruMsg → ℕ
checked_length m =
    (m.data_size + u32_mod - (m.extra_data_index + u32_mod - m.data_size) % u32_mod) % u32_mod

-- What is found wrong with the message that was read; `none` where its text is read outside it.
unfoldable pub check_message : PassthruMsg → Option (List Warning)
unfolding checked_length byte_array
check_message m = elim (byte_array m.payload (to_i32 m.data_size)) [
  | none ↦ none
  | some shown ↦ some (
      (if checked_length m == 12 then [] else wrong_length ∷ [])
      ++ (if m.protocol_id == 5 then [] else wrong_protocol ∷ []))
]

-- The variable that a call stores a number in, or leaves alone.
abbrev pub stored : Option ℕ → ℕ → ℕ
stored none old = old
stored (some new) old = new

abbrev pub first_of : List PassthruMsg → PassthruMsg → PassthruMsg
first_of [] m = m
first_of (m' ∷ ms) m = m'

module _ (q : Qt) (l : Library) where
  -- After PassThruReadMsgs: the message is looked at, and the channel closed.
  unfoldable pub finish : ℕ → PassthruMsg → M q (List Warning)
  unfolding check_message
  finish channel m = elim (check_message m) [
    | none ↦ λ g. fault
    | some found ↦
        if l.has_disconnect
        then (do code ← pass_thru_disconnect q channel; done (load_warnings l ++ found))
        else λ g. fault
  ]

  -- The variable `test` holds the device id, and then the channel id.
  unfoldable pub try_device : List ℕ → M q (List Warning)
  unfolding mask first_message finish
  try_device memory = do
    opened ← pass_thru_open q
    let device = stored opened.1 0
    connected ← pass_thru_connect q device 5 0 500000
    let channel = stored connected.1 device
    code ← pass_thru_ioctl q channel J2534.set_config (some configs)
    filter_id ← pass_thru_start_msg_filter q channel pass_filter (some mask) (some mask) none true
    code ← pass_thru_write_msgs q channel (first_message memory ∷ []) 1 0
    reading ← pass_thru_read_msgs q channel (first_message memory ∷ []) 1 0
    finish channel (first_of reading.1 (first_message memory))

  -- `testRemote`, with the memory that its message is put in.
  unfoldable pub test_remote : List ℕ → M q (List Warning)
  unfolding try_device
  test_remote memory =
      if is_resolved l then try_device memory else done (load_warnings l ++ failed_to_resolve ∷ [])
