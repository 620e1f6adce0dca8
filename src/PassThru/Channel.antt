-- ===== src/PassThru/Channel.antt =====
-- SurrealJ2534Wrapper/J2534.cpp: the calls on periodic messages, message filters, the programming
-- voltage, and PassThruIoctl. A null pointer is none.
pub mod Guards
use qt_gretio.Prelude.{
  ℕ, zero, suc, Bool, true, false, ◌&&◌, ◌||◌, not, Option, none, some, List, [], ◌∷◌, ◌==◌,
  if◌then◌else◌, ℤ, pos, to_u32,
}
use qt_gretio.Qt.{Qt}
use qt_gretio.J2534
use qt_gretio.J2534.{PassthruMsg, Sconfig, SconfigList}
use qt_gretio.J2534.Message.{pt_msg_to_json}
use qt_gretio.PassThru.{
  M, Ret, ◌>>=◌, done, unless_null, done_with, request, header, text_of, int_field,
  pass_thru_result, could_not_send, returned, fault,
}

abbrev pub is_none {ℓ} : {A : Type ℓ} → Option A → Bool
is_none none = true
is_none (some a) = false

module _ (q : Qt) where
  -- `PtMsgToJson(*p)`; a null pointer, or a read outside the message, is a fault.
  unfoldable pub encode : Option PassthruMsg → M q q.Object
  encode none g = fault
  encode (some m) g = elim (pt_msg_to_json q m) [ none ↦ fault | some o ↦ returned o g ]

  -- The answer to a request whose reply is only a code.
  unfoldable pub answer : Option q.Object → M q ℤ
  answer (some o) = done (pass_thru_result q o)
  answer none = done_with could_not_send (pos J2534.err_failed)

  unfoldable pub pass_thru_start_periodic_msg : ℕ → Option PassthruMsg → ℕ → M q Ret
  pass_thru_start_periodic_msg channel msg time_interval =
      unless_null (pos J2534.err_device_not_connected, none)
        (elim msg [
          | none ↦ done (pos J2534.err_null_parameter, none)
          | some m ↦ (do
            o ← encode (some m)
            reply ←
                request q
                  (q.insert
                    (q.insert
                      (q.insert (header q J2534.message_id_pt_start_periodic) "channelId"
                        (text_of q channel))
                      "msg" (q.of_object o))
                    "timeInterval" (text_of q time_interval))
                  10000
            elim reply [
              | some r ↦ done (pass_thru_result q r, some (to_u32 (int_field q r "msgId")))
              | none ↦ done_with could_not_send (pos J2534.err_failed, none)
            ])
        ])

  unfoldable pub pass_thru_stop_periodic_msg : ℕ → ℕ → M q ℤ
  pass_thru_stop_periodic_msg channel msg_id = unless_null (pos J2534.err_device_not_connected) (do
    reply ←
        request q
          (q.insert
            (q.insert (header q J2534.message_id_pt_stop_periodic) "channelId" (text_of q channel))
            "msgId" (text_of q msg_id))
          10000
    answer reply)

  -- The flow control message is sent only if there is one.
  unfoldable pub with_flow_control : Option PassthruMsg → q.Object → M q q.Object
  with_flow_control none o = done o
  with_flow_control (some m) o = do
    flow ← encode (some m)
    done (q.insert o "flowControlMessage" (q.of_object flow))

  abbrev pub filter_object : ℕ → ℕ → q.Object → q.Object → q.Object
  filter_object channel filter_type mask pattern_msg =
      q.insert
        (q.insert
          (q.insert
            (q.insert (header q J2534.message_id_pt_start_message_filter) "channelId"
              (text_of q channel))
            "filterType" (text_of q filter_type))
          "maskMsg" (q.of_object mask))
        "patternMsg" (q.of_object pattern_msg)

  -- The request, once the pointers have been checked. The number that is stored is the reply's
  -- `channelId`.
  unfoldable pub send_filter :
      ℕ → ℕ → Option PassthruMsg → Option PassthruMsg → Option PassthruMsg → M q Ret
  send_filter channel filter_type mask pattern_msg flow_control = do
    mask_object ← encode mask
    pattern_object ← encode pattern_msg
    message ←
        with_flow_control flow_control
          (filter_object channel filter_type mask_object pattern_object)
    reply ← request q message 10000
    elim reply [
      | some r ↦ done (pass_thru_result q r, some (to_u32 (int_field q r "channelId")))
      | none ↦ done_with could_not_send (pos J2534.err_failed, none)
    ]

  -- `has_filter_id` tells whether pFilterID is not null.
  unfoldable pub pass_thru_start_msg_filter :
      ℕ → ℕ → Option PassthruMsg → Option PassthruMsg → Option PassthruMsg → Bool → M q Ret
  pass_thru_start_msg_filter channel filter_type mask pattern_msg flow_control has_filter_id =
      unless_null (pos J2534.err_device_not_connected, none)
        (if filter_type == J2534.flow_control_filter && is_none flow_control
          then done (pos J2534.err_null_parameter, none)
          else if is_none pattern_msg || is_none mask || not has_filter_id
          then done (pos J2534.err_null_parameter, none)
          else send_filter channel filter_type mask pattern_msg flow_control)

  unfoldable pub pass_thru_stop_msg_filter : ℕ → ℕ → M q ℤ
  pass_thru_stop_msg_filter channel filter_id = unless_null (pos J2534.err_device_not_connected) (do
    reply ←
        request q
          (q.insert
            (q.insert (header q J2534.message_id_pt_stop_message_filter) "channelId"
              (text_of q channel))
            "filterId" (text_of q filter_id))
          20000
    answer reply)

  unfoldable pub pass_thru_set_programming_voltage : ℕ → ℕ → ℕ → M q ℤ
  pass_thru_set_programming_voltage device pin_number voltage =
      unless_null (pos J2534.err_device_not_connected) (
        if device == 1
        then (do
          reply ←
              request q
                (q.insert
                  (q.insert (header q J2534.message_id_pt_set_prog_voltage) "pinNumber"
                    (text_of q pin_number))
                  "voltage" (text_of q voltage))
                20000
          answer reply)
        else done (pos J2534.err_invalid_device_id))

  abbrev pub ioctl_object : ℕ → ℕ → q.Object
  ioctl_object channel ioctl_id =
      q.insert (q.insert (header q J2534.message_id_pt_ioctl) "handleId" (text_of q channel))
        "ioctlId" (text_of q ioctl_id)

  -- Here a request that fails leaves `lastError` alone.
  unfoldable pub simple_ioctl : ℕ → ℕ → M q ℤ
  simple_ioctl channel ioctl_id = do
    reply ← request q (ioctl_object channel ioctl_id) 10000
    elim reply [ some o ↦ done (pass_thru_result q o) | none ↦ done (pos J2534.err_failed) ]

  abbrev pub config_pair : Sconfig → q.Object
  config_pair c =
      q.insert (q.insert q.empty "first" (text_of q c.parameter)) "second" (text_of q c.value)

  -- The first n entries of the array; `none` is a read behind it.
  unfoldable pub config_pairs : ℕ → List Sconfig → Option (List q.Object)
  config_pairs zero cs = some []
  config_pairs (suc n) [] = none
  config_pairs (suc n) (c ∷ cs) = elim (config_pairs n cs) [
    | none ↦ none
    | some os ↦ some (config_pair c ∷ os)
  ]

  unfoldable pub config_ioctl : ℕ → ℕ → SconfigList → M q ℤ
  unfolding config_pairs
  config_ioctl channel ioctl_id list g = elim list.config_ptr [
    | none ↦ returned (pos J2534.err_null_parameter) g
    | some configs ↦ elim (config_pairs list.num_of_params configs) [
      | none ↦ fault
      | some os ↦
          (do
            reply ←
                request q (q.insert (ioctl_object channel ioctl_id) "configList" (q.of_array os))
                  10000
            elim reply [
              | some o ↦ done (pass_thru_result q o)
              | none ↦ done (pos J2534.err_failed)
            ])
            g
    ]
  ]

  -- GET_CONFIG and SET_CONFIG read `pInput` as a list of configurations, and a null pointer there
  -- is a fault; every other id sends the id alone.
  unfoldable pub pass_thru_ioctl : ℕ → ℕ → Option SconfigList → M q ℤ
  pass_thru_ioctl channel ioctl_id input = unless_null (pos J2534.err_device_not_connected) (
      if ioctl_id == J2534.get_config || ioctl_id == J2534.set_config
      then (elim input [ none ↦ λ g. fault | some list ↦ config_ioctl channel ioctl_id list ])
      else simple_ioctl channel ioctl_id)
