-- ===== src/PassThru/Calls.antt =====
-- The exported functions as calls, and histories of calls.
use qt_gretio.Prelude.{ℕ, Bool, Option, List, [], ◌∷◌, ℤ, pos}
use qt_gretio.Qt.{Qt}
use qt_gretio.J2534.{PassthruMsg, SconfigList}
use qt_gretio.PassThru.{
  M, returned, blocked, fault, ◌>>=◌, done, pass_thru_open, pass_thru_close, pass_thru_connect,
  pass_thru_disconnect, pass_thru_read_version, pass_thru_get_last_error,
}
use qt_gretio.PassThru.Transfer.{pass_thru_read_msgs, pass_thru_write_msgs}
use qt_gretio.PassThru.Channel.{
  pass_thru_start_periodic_msg, pass_thru_stop_periodic_msg, pass_thru_start_msg_filter,
  pass_thru_stop_msg_filter, pass_thru_set_programming_voltage, pass_thru_ioctl,
}

pub data Call : Type 0 where
  open_device : Call
  close_device : ℕ → Call
  connect : ℕ → ℕ → ℕ → ℕ → Call
  disconnect : ℕ → Call
  read_msgs : ℕ → List PassthruMsg → ℕ → ℕ → Call
  write_msgs : ℕ → List PassthruMsg → ℕ → ℕ → Call
  start_periodic_msg : ℕ → Option PassthruMsg → ℕ → Call
  stop_periodic_msg : ℕ → ℕ → Call
  start_msg_filter :
      ℕ → ℕ → Option PassthruMsg → Option PassthruMsg → Option PassthruMsg → Bool → Call
  stop_msg_filter : ℕ → ℕ → Call
  set_programming_voltage : ℕ → ℕ → ℕ → Call
  read_version : Call
  get_last_error : Call
  ioctl : ℕ → ℕ → Option SconfigList → Call

module _ (q : Qt) where
  -- The calls whose result is a code (PassThruReadVersion and PassThruGetLastError return 0).
  unfoldable pub perform : Call → M q ℤ
  perform open_device = pass_thru_open q >>= λ r. done r.0
  perform (close_device device) = pass_thru_close q device
  perform (connect device protocol flags baud_rate) =
      pass_thru_connect q device protocol flags baud_rate >>= λ r. done r.0
  perform (disconnect channel) = pass_thru_disconnect q channel
  perform (read_msgs channel buffer num_msgs timeout) =
      pass_thru_read_msgs q channel buffer num_msgs timeout >>= λ r. done r.0.0
  perform (write_msgs channel buffer num_msgs timeout) =
      pass_thru_write_msgs q channel buffer num_msgs timeout
  perform (start_periodic_msg channel msg interval) =
      pass_thru_start_periodic_msg q channel msg interval >>= λ r. done r.0
  perform (stop_periodic_msg channel msg_id) = pass_thru_stop_periodic_msg q channel msg_id
  perform (start_msg_filter channel filter_type mask pattern_msg flow_control has_filter_id) =
      pass_thru_start_msg_filter q channel filter_type mask pattern_msg flow_control has_filter_id
      >>= λ r. done r.0
  perform (stop_msg_filter channel filter_id) = pass_thru_stop_msg_filter q channel filter_id
  perform (set_programming_voltage device pin voltage) =
      pass_thru_set_programming_voltage q device pin voltage
  perform read_version = pass_thru_read_version q >>= λ r. done (pos 0)
  perform get_last_error = pass_thru_get_last_error q >>= λ r. done (pos 0)
  perform (ioctl channel ioctl_id input) = pass_thru_ioctl q channel ioctl_id input

  -- One call after the other; a call that blocks or faults is the last.
  unfoldable pub history : List Call → M q (Unit {0})
  history [] g = returned tt g
  history (c ∷ cs) g = elim (perform c g) [
    | returned code g' ↦ history cs g'
    | blocked ↦ blocked
    | fault ↦ fault
  ]
