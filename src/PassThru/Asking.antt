-- ===== src/PassThru/Asking.antt =====
-- SurrealJ2534Wrapper/J2534.cpp: what the exported functions that need a device have in common. A
-- call whose arguments are in order makes one request, and reports what ends it.
pub mod Messages
pub mod Filters
pub mod Services
use qt_gretio.Prelude.{
  ℕ, ◌≤◌, ◌≡◌, refl, ap, ◌∙◌, Bool, true, false, ◌||◌, Option, none, some, List, ◌==◌,
  if◌then◌else◌, length, take, pos,
}
use qt_gretio.Qt.{Qt, QtLaws}
use qt_gretio.J2534
use qt_gretio.J2534.{PassthruMsg, Sconfig, SconfigList}
use qt_gretio.J2534.Message.{msg_object}
use qt_gretio.J2534.Message.Roundtrip.{pt_msg_to_json_lem}
use qt_gretio.Context.{Context, Event, finished, send_receive_cseq}
use qt_gretio.PassThru.{
  Globals, M, Ret, Outcome, returned, blocked, fault, ◌>>=◌, done, unless_null, done_with, request,
  header, int_of, int_field, text_of, pass_thru_result, could_not_send, pass_thru_connect,
  pass_thru_disconnect,
}
use qt_gretio.PassThru.Transfer.{
  with_timeout, pass_thru_read_msgs, pass_thru_write_msgs, send_msgs, store_msgs, encode_msgs,
  copy_msgs,
}
use qt_gretio.PassThru.Transfer.Buffers.{IsSized, AllSized, copy_msgs-encode_msgs, copy_msgs_bounds}
use qt_gretio.PassThru.Channel.{
  encode, answer, with_flow_control, send_filter, config_pairs, config_ioctl, simple_ioctl,
  filter_object, ioctl_object, config_pair, pass_thru_start_periodic_msg,
  pass_thru_stop_periodic_msg, pass_thru_start_msg_filter, pass_thru_stop_msg_filter,
  pass_thru_set_programming_voltage, pass_thru_ioctl,
}
use qt_gretio.PassThru.Channel.Guards.{pass_thru_start_msg_filter_lem}
use qt_gretio.PassThru.Calls.{
  Call, open_device, close_device, connect, disconnect, read_msgs, write_msgs, start_periodic_msg,
  stop_periodic_msg, start_msg_filter, stop_msg_filter, set_programming_voltage, read_version,
  get_last_error, ioctl, perform,
}

-- Pointers to a message that is read within its bounds.
abbrev pub PointsToMsg : Option PassthruMsg → Type 0
PointsToMsg none = ⊥
PointsToMsg (some m) = IsSized m

abbrev pub PointsToConfigs : Option SconfigList → Type 0
PointsToConfigs none = ⊥
PointsToConfigs (some list) = elim list.config_ptr [
  | none ↦ ⊥
  | some configs ↦ list.num_of_params ≤ length configs
]

-- The flow control message is needed for a filter of flow control, and optional for others.
abbrev pub FlowsWith : ℕ → Option PassthruMsg → Type 0
FlowsWith filter_type none = (filter_type == J2534.flow_control_filter) ≡ false
FlowsWith filter_type (some m) = IsSized m

abbrev pub has_configs : ℕ → Bool
has_configs ioctl_id = ioctl_id == J2534.get_config || ioctl_id == J2534.set_config

-- The arguments with which a call makes a request.
abbrev pub IsInOrder : Call → Type 0
IsInOrder (connect device protocol flags baud_rate) = device ≡ 1
IsInOrder (disconnect channel) = Unit {0}
IsInOrder (read_msgs channel buffer num_msgs timeout) = Unit {0}
IsInOrder (write_msgs channel buffer num_msgs timeout) =
    AllSized (take num_msgs buffer) × (num_msgs ≤ length buffer)
IsInOrder (start_periodic_msg channel msg time_interval) = PointsToMsg msg
IsInOrder (stop_periodic_msg channel msg_id) = Unit {0}
IsInOrder (start_msg_filter channel filter_type mask pattern_msg flow_control has_filter_id) =
    PointsToMsg mask
    × PointsToMsg pattern_msg
    × FlowsWith filter_type flow_control
    × (has_filter_id ≡ true)
IsInOrder (stop_msg_filter channel filter_id) = Unit {0}
IsInOrder (set_programming_voltage device pin_number voltage) = device ≡ 1
IsInOrder (ioctl channel ioctl_id input) =
    if has_configs ioctl_id then PointsToConfigs input else Unit {0}
IsInOrder c = ⊥

-- The id of the request.
abbrev pub id_of : Call → ℕ
id_of (connect device protocol flags baud_rate) = J2534.message_id_pt_connect
id_of (disconnect channel) = J2534.message_id_pt_disconnect
id_of (read_msgs channel buffer num_msgs timeout) = J2534.message_id_pt_read_msgs
id_of (write_msgs channel buffer num_msgs timeout) = J2534.message_id_pt_write_msgs
id_of (start_periodic_msg channel msg time_interval) = J2534.message_id_pt_start_periodic
id_of (stop_periodic_msg channel msg_id) = J2534.message_id_pt_stop_periodic
id_of (start_msg_filter channel filter_type mask pattern_msg flow_control has_filter_id) =
    J2534.message_id_pt_start_message_filter
id_of (stop_msg_filter channel filter_id) = J2534.message_id_pt_stop_message_filter
id_of (set_programming_voltage device pin_number voltage) = J2534.message_id_pt_set_prog_voltage
id_of (ioctl channel ioctl_id input) = J2534.message_id_pt_ioctl
id_of c = 0

-- Three calls leave the last error alone when their request times out.
abbrev pub is_tacit : Call → Bool
is_tacit (connect device protocol flags baud_rate) = true
is_tacit (disconnect channel) = true
is_tacit (ioctl channel ioctl_id input) = true
is_tacit c = false

pub bind-returned :
    {q : Qt} {A B : Type 0} (m : M q A) (f : A → M q B) {a : A} {g g' : Globals q}
    → m g ≡ returned a g'
    → (m >>= f) g ≡ f a g'
unfolding ◌>>=◌
bind-returned m f h = rw (◌>>=◌, h) refl

pub unless_null-open :
    {q : Qt} {A : Type 0} (a : A) (m : M q A) {g : Globals q} {c : Context q}
    → g.context ≡ some c
    → unless_null a m g ≡ m g
unfolding unless_null
unless_null-open {q} {A} a m {g} e =
    ap (λ x. elim x as (λ x'. Outcome q A) [ none ↦ returned a g | some _ ↦ m g ]) e

module _ (q : Qt) where
  -- The messages of an answer have to fit the array of the caller.
  abbrev pub Fits : Call → q.Object → Type 0
  Fits (read_msgs channel buffer num_msgs timeout) o =
      length (q.to_array (q.value o "msgs")) ≤ length buffer
  Fits c o = Unit {0}

  pub record Asks (c : Call) (g : Globals q) : Type 0 where
    pub message : q.Object
    pub timeout : ℕ
    pub has_id : q.value message "id" ≡ q.of_int (pos (id_of c))
    pub times_out :
        (g' : Globals q)
        → request q message timeout g ≡ returned none g'
        → perform q c g
          ≡ returned
              (pos J2534.err_failed)
              (if is_tacit c then g' else record g' { last_error = q.text could_not_send })
    pub is_answered :
        (o : q.Object) (g' : Globals q)
        → request q message timeout g ≡ returned (some o) g'
        → Fits c o
        → perform q c g ≡ returned (pass_thru_result q o) g'

  module _ (g : Globals q) (c : Context q) (e : g.context ≡ some c) where
    -- A call that is nothing but its request.
    pub answers :
        {A : Type 0} (a : A) (m : q.Object) (t : ℕ) (k : Option q.Object → M q A)
        {r : Option q.Object} {g' : Globals q}
        → request q m t g ≡ returned r g'
        → unless_null a (request q m t >>= k) g ≡ k r g'
    answers a m t k h =
        unless_null-open a (request q m t >>= k) e ∙ bind-returned (request q m t) k h

    -- A request whose wait ends returns.
    pub request-finished :
        (message : q.Object) (timeout : ℕ) (r : Option q.Object) (d : Context q)
        (es : List (Event q))
        → send_receive_cseq q message timeout c g.events ≡ finished r d es
        → request q message timeout g ≡ returned r (record g { context = some d; events = es })
    unfolding request
    request-finished message timeout r d es h = rw (request, e, h) refl
