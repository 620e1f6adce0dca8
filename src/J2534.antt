-- ===== src/J2534.antt =====
-- SurrealJ2534Wrapper/J2534.h and GretioWebConstants.h: the values of the J2534 interface that the
-- wrapper uses, its message structures, and the numbers of the web protocol.
pub mod Message
use qt_gretio.Prelude.{ℕ, ◌<◌, ◌≡◌, Option, List, length, u32_mod}
use qt_gretio.Qt.{AllBytes}

-- Error values.
abbrev pub status_noerror : ℕ
status_noerror = 0x00

abbrev pub err_null_parameter : ℕ
err_null_parameter = 0x04

abbrev pub err_failed : ℕ
err_failed = 0x07

abbrev pub err_device_not_connected : ℕ
err_device_not_connected = 0x08

abbrev pub err_device_in_use : ℕ
err_device_in_use = 0x0E

abbrev pub err_invalid_device_id : ℕ
err_invalid_device_id = 0x1A

abbrev pub flow_control_filter : ℕ
flow_control_filter = 0x00000003

-- Ioctl ids that the wrapper treats apart from the others.
abbrev pub get_config : ℕ
get_config = 0x01

abbrev pub set_config : ℕ
set_config = 0x02

-- Message ids and types of the web protocol.
abbrev pub message_type_request : ℕ
message_type_request = 1

abbrev pub message_id_pt_connect : ℕ
message_id_pt_connect = 9001

abbrev pub message_id_pt_disconnect : ℕ
message_id_pt_disconnect = 9002

abbrev pub message_id_pt_read_msgs : ℕ
message_id_pt_read_msgs = 9003

abbrev pub message_id_pt_start_periodic : ℕ
message_id_pt_start_periodic = 9004

abbrev pub message_id_pt_stop_periodic : ℕ
message_id_pt_stop_periodic = 9005

abbrev pub message_id_pt_start_message_filter : ℕ
message_id_pt_start_message_filter = 9006

abbrev pub message_id_pt_stop_message_filter : ℕ
message_id_pt_stop_message_filter = 9007

abbrev pub message_id_pt_ioctl : ℕ
message_id_pt_ioctl = 9008

abbrev pub message_id_pt_set_prog_voltage : ℕ
message_id_pt_set_prog_voltage = 9009

abbrev pub message_id_pt_write_msgs : ℕ
message_id_pt_write_msgs = 9013

-- A null ConfigPtr is none; else the array that it points to.
pub record Sconfig : Type 0 where
  pub parameter : ℕ
  pub value : ℕ

pub record SconfigList : Type 0 where
  pub num_of_params : ℕ
  pub config_ptr : Option (List Sconfig)

-- The bytes that `Data` has room for.
abbrev pub data_capacity : ℕ
data_capacity = 4128

-- `payload` is the array `Data`.
pub record PassthruMsg : Type 0 where
  pub protocol_id : ℕ
  pub rx_status : ℕ
  pub tx_flags : ℕ
  pub timestamp : ℕ
  pub data_size : ℕ
  pub extra_data_index : ℕ
  pub payload : List ℕ

-- What the C type of the structure gives: each field is an unsigned long, and the array has its
-- fixed length.
pub record IsMsg (m : PassthruMsg) : Type 0 where
  pub protocol_id_fits : m.protocol_id < u32_mod
  pub rx_status_fits : m.rx_status < u32_mod
  pub tx_flags_fits : m.tx_flags < u32_mod
  pub timestamp_fits : m.timestamp < u32_mod
  pub data_size_fits : m.data_size < u32_mod
  pub extra_data_index_fits : m.extra_data_index < u32_mod
  pub payload_length : length m.payload ≡ data_capacity
  pub payload_bytes : AllBytes m.payload
