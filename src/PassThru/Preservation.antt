-- ===== src/PassThru/Preservation.antt =====
-- Every exported function keeps the invariant of the globals.
use qt_gretio.Prelude.{
  ℕ, refl, inl, inr, Bool, ◌&&◌, ◌||◌, not, Option, none, some, List, arith, ◌==◌, Bool-cases,
  Option-cases, pos,
}
use qt_gretio.Qt.{Qt}
use qt_gretio.J2534.{PassthruMsg, SconfigList}
use qt_gretio.J2534
use qt_gretio.Context.{new_context, wait_for_open}
use qt_gretio.Context.Numbering.{wait_for_open-IsNumbered}
use qt_gretio.Context.Opening.{wait_for_open-new_context}
use qt_gretio.PassThru.{
  ◌>>=◌, done, request, pass_thru_result, pass_thru_open, pass_thru_close, pass_thru_connect,
  pass_thru_disconnect,
}
use qt_gretio.PassThru.Transfer.{
  copy_msgs, encode_msgs, store_msgs, send_msgs, pass_thru_read_msgs, pass_thru_write_msgs,
}
use qt_gretio.PassThru.Channel.{
  is_none, encode, answer, with_flow_control, send_filter, simple_ioctl, config_pairs, config_ioctl,
  pass_thru_start_periodic_msg, pass_thru_stop_periodic_msg, pass_thru_start_msg_filter,
  pass_thru_stop_msg_filter, pass_thru_set_programming_voltage, pass_thru_ioctl,
}
use qt_gretio.PassThru.Invariant.{
  Keeps, keeps, Keeps-After, done-Keeps, done_with-Keeps, unless_null-Keeps, if-Keeps, Keeps-fault,
  bind-Keeps, request-Keeps, Waited-cases,
}

module _ (q : Qt) where
  pub close-Keeps : (device : ℕ) → Keeps (pass_thru_close q device)
  unfolding pass_thru_close
  close-Keeps device = keeps λ g v. ground arith

  pub open-Keeps : Keeps (pass_thru_open q)
  unfolding pass_thru_open pass_thru_close ◌>>=◌ done
  open-Keeps = keeps λ g v. elim (Option-cases g.context) [
    | inr (c, e) ↦ rw (pass_thru_open, e) v
    | inl e ↦ elim (Waited-cases (wait_for_open q (new_context q g.disk) g.events)) [
      | inl s ↦ rw (pass_thru_open, e, s) tt
      | inr (opened, c, es, f) ↦
          let known = wait_for_open-new_context q g.disk c g.events es opened f in
          elim (Bool-cases opened) [
            | inl yes_open ↦
                rw (pass_thru_open, e, f, yes_open)
                  (record {
                    paired = refl;
                    error_known = v.error_known;
                    context_sound = known.1;
                    context_numbered = wait_for_open-IsNumbered q g.disk c g.events es opened f;
                  })
            | inr not_open ↦
                rw (pass_thru_open, e, f, not_open)
                  (record {
                    paired = refl;
                    error_known = v.error_known;
                    context_sound = tt;
                    context_numbered = tt;
                  })
          ]
    ]
  ]

  pub connect-Keeps :
      (device protocol flags baud_rate : ℕ)
      → Keeps (pass_thru_connect q device protocol flags baud_rate)
  unfolding pass_thru_connect
  connect-Keeps device protocol flags baud_rate = unless_null-Keeps _ _ (
      if-Keeps (device == 1) _ _
        (bind-Keeps _ _ (request-Keeps q _ 10000)
          (elim [ some o ↦ done-Keeps _ | none ↦ done-Keeps _ ]))
        (done-Keeps _))

  pub disconnect-Keeps : (channel : ℕ) → Keeps (pass_thru_disconnect q channel)
  unfolding pass_thru_disconnect
  disconnect-Keeps channel = unless_null-Keeps _ _ (
      bind-Keeps _ _ (request-Keeps q _ 5000)
        (elim [ some o ↦ done-Keeps _ | none ↦ done-Keeps _ ]))

  pub encode-Keeps : (m : Option PassthruMsg) → Keeps (encode q m)
  unfolding encode
  encode-Keeps none = Keeps-fault
  encode-Keeps (some m) = keeps λ g v. ground arith

  pub answer-Keeps : (r : Option q.Object) → Keeps (answer q r)
  unfolding answer
  answer-Keeps none = done_with-Keeps _
  answer-Keeps (some o) = done-Keeps _

  pub stop_periodic-Keeps :
      (channel msg_id : ℕ) → Keeps (pass_thru_stop_periodic_msg q channel msg_id)
  unfolding pass_thru_stop_periodic_msg
  stop_periodic-Keeps channel msg_id =
      search (unless_null-Keeps, bind-Keeps, request-Keeps, answer-Keeps)

  pub stop_filter-Keeps :
      (channel filter_id : ℕ) → Keeps (pass_thru_stop_msg_filter q channel filter_id)
  unfolding pass_thru_stop_msg_filter
  stop_filter-Keeps channel filter_id =
      search (unless_null-Keeps, bind-Keeps, request-Keeps, answer-Keeps)

  pub set_voltage-Keeps :
      (device pin voltage : ℕ) → Keeps (pass_thru_set_programming_voltage q device pin voltage)
  unfolding pass_thru_set_programming_voltage
  set_voltage-Keeps device pin voltage =
      search (unless_null-Keeps, if-Keeps, bind-Keeps, request-Keeps, answer-Keeps, done-Keeps)

  pub start_periodic-Keeps :
      (channel : ℕ) (msg : Option PassthruMsg) (interval : ℕ)
      → Keeps (pass_thru_start_periodic_msg q channel msg interval)
  unfolding pass_thru_start_periodic_msg
  start_periodic-Keeps channel none interval = search (unless_null-Keeps, done-Keeps)
  start_periodic-Keeps channel (some m) interval = unless_null-Keeps _ _ (
      bind-Keeps _ _ (encode-Keeps (some m)) λ o.
        bind-Keeps _ _ (request-Keeps q _ 10000)
          (elim [ some r ↦ done-Keeps _ | none ↦ done_with-Keeps _ ]))

  pub with_flow_control-Keeps :
      (m : Option PassthruMsg) (o : q.Object) → Keeps (with_flow_control q m o)
  unfolding with_flow_control
  with_flow_control-Keeps none o = done-Keeps o
  with_flow_control-Keeps (some m) o = bind-Keeps _ _ (encode-Keeps (some m)) λ flow. done-Keeps _

  pub send_filter-Keeps :
      (channel filter_type : ℕ) (mask pattern_msg flow_control : Option PassthruMsg)
      → Keeps (send_filter q channel filter_type mask pattern_msg flow_control)
  unfolding send_filter
  send_filter-Keeps channel filter_type mask pattern_msg flow_control =
      bind-Keeps _ _ (encode-Keeps mask) λ mask_object.
        bind-Keeps _ _ (encode-Keeps pattern_msg) λ pattern_object.
          bind-Keeps _ _ (with_flow_control-Keeps flow_control _) λ message.
            bind-Keeps _ _ (request-Keeps q message 10000)
              (elim [ some r ↦ done-Keeps _ | none ↦ done_with-Keeps _ ])

  pub start_filter-Keeps :
      (channel filter_type : ℕ) (mask pattern_msg flow_control : Option PassthruMsg)
      (has_filter_id : Bool)
      → Keeps (
          pass_thru_start_msg_filter q channel filter_type mask pattern_msg flow_control
            has_filter_id)
  unfolding pass_thru_start_msg_filter
  start_filter-Keeps channel filter_type mask pattern_msg flow_control has_filter_id =
      unless_null-Keeps _ _ (
        if-Keeps (filter_type == J2534.flow_control_filter && is_none flow_control) _ _
          (done-Keeps _)
          (if-Keeps (is_none pattern_msg || is_none mask || not has_filter_id) _ _ (done-Keeps _)
            (send_filter-Keeps channel filter_type mask pattern_msg flow_control)))

  pub simple_ioctl-Keeps : (channel ioctl_id : ℕ) → Keeps (simple_ioctl q channel ioctl_id)
  unfolding simple_ioctl
  simple_ioctl-Keeps channel ioctl_id =
      bind-Keeps _ _ (request-Keeps q _ 10000)
        (elim [ some o ↦ done-Keeps _ | none ↦ done-Keeps _ ])

  pub config_send-Keeps :
      (message : q.Object)
      → Keeps (
          request q message 10000
          >>= (elim [ some o ↦ done (pass_thru_result q o) | none ↦ done (pos J2534.err_failed) ]))
  config_send-Keeps message =
      bind-Keeps _ _ (request-Keeps q message 10000)
        (elim [ some o ↦ done-Keeps _ | none ↦ done-Keeps _ ])

  pub config_ioctl-Keeps :
      (channel ioctl_id : ℕ) (list : SconfigList) → Keeps (config_ioctl q channel ioctl_id list)
  unfolding config_ioctl
  config_ioctl-Keeps channel ioctl_id list = keeps λ g v. elim (Option-cases list.config_ptr) [
    | inl e ↦ rw (config_ioctl, e) v
    | inr (configs, e) ↦ elim (Option-cases (config_pairs q list.num_of_params configs)) [
      | inl f ↦ rw (config_ioctl, e, f) tt
      | inr (os, f) ↦ rw (config_ioctl, e, f) (Keeps-After (config_send-Keeps _) g v)
    ]
  ]

  pub ioctl-Keeps :
      (channel ioctl_id : ℕ) (input : Option SconfigList)
      → Keeps (pass_thru_ioctl q channel ioctl_id input)
  unfolding pass_thru_ioctl
  ioctl-Keeps channel ioctl_id none =
      unless_null-Keeps _ _ (if-Keeps _ _ _ Keeps-fault (simple_ioctl-Keeps channel ioctl_id))
  ioctl-Keeps channel ioctl_id (some list) = unless_null-Keeps _ _ (
      if-Keeps _ _ _ (config_ioctl-Keeps channel ioctl_id list)
        (simple_ioctl-Keeps channel ioctl_id))

  pub store_msgs-Keeps : (o : q.Object) (buffer : List PassthruMsg) → Keeps (store_msgs q o buffer)
  unfolding store_msgs
  store_msgs-Keeps o buffer = keeps λ g v.
      elim (Option-cases (copy_msgs q (q.to_array (q.value o "msgs")) buffer)) [
        | inl e ↦ rw (store_msgs, e) tt
        | inr (buffer', e) ↦ rw (store_msgs, e) v
      ]

  pub read_msgs-Keeps :
      (channel : ℕ) (buffer : List PassthruMsg) (num_msgs timeout : ℕ)
      → Keeps (pass_thru_read_msgs q channel buffer num_msgs timeout)
  unfolding pass_thru_read_msgs
  read_msgs-Keeps channel buffer num_msgs timeout = unless_null-Keeps _ _ (
      bind-Keeps _ _ (request-Keeps q _ _)
        (elim [ some o ↦ store_msgs-Keeps o buffer | none ↦ done_with-Keeps _ ]))

  pub send_msgs-Keeps :
      (channel timeout : ℕ) (os : List q.Object) → Keeps (send_msgs q channel timeout os)
  unfolding send_msgs
  send_msgs-Keeps channel timeout os =
      bind-Keeps _ _ (request-Keeps q _ _)
        (elim [ some o ↦ done-Keeps _ | none ↦ done_with-Keeps _ ])

  pub write_msgs-Keeps :
      (channel : ℕ) (buffer : List PassthruMsg) (num_msgs timeout : ℕ)
      → Keeps (pass_thru_write_msgs q channel buffer num_msgs timeout)
  unfolding pass_thru_write_msgs
  write_msgs-Keeps channel buffer num_msgs timeout = unless_null-Keeps _ _ (
      keeps λ g v. elim (Option-cases (encode_msgs q num_msgs buffer)) [
        | inl e ↦ rw e tt
        | inr (os, e) ↦ rw e (Keeps-After (send_msgs-Keeps channel timeout os) g v)
      ])
