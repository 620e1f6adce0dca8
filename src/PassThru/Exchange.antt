-- ===== src/PassThru/Exchange.antt =====
-- SurrealJ2534Wrapper/J2534.cpp: every call that needs a device as one exchange with the server.
use qt_gretio.Prelude.{
  ℕ, ◌+◌, ◌≡◌, refl, sym, ap, ◌∙◌, subst, inl, inr, Bool, true, false, Option, none, some, List,
  ◌∷◌, ◌++◌, if◌then◌else◌, Bool-cases, ℤ, pos,
}
use qt_gretio.Qt.{Qt, QtLaws}
use qt_gretio.J2534
use qt_gretio.J2534.{PassthruMsg, Sconfig, SconfigList}
use qt_gretio.Context.{Context, Event, text_message, request_timeout, send_receive_cseq}
use qt_gretio.Context.Replies.{Answers, send_receive_cseq-total}
use qt_gretio.Context.Exchange.{
  request_text, asked, CanReceive, send_receive_cseq-timeout, send_receive_cseq-answered,
}
use qt_gretio.PassThru.{request, Globals, returned, pass_thru_result, could_not_send}
use qt_gretio.PassThru.Asking.{
  IsInOrder, Asks, Fits, id_of, is_tacit, has_configs, PointsToConfigs, request-finished,
}
use qt_gretio.PassThru.Asking.Messages.{
  connect-Asks, disconnect-Asks, read_msgs-Asks, write_msgs-Asks,
}
use qt_gretio.PassThru.Asking.Filters.{start_msg_filter-Asks}
use qt_gretio.PassThru.Asking.Services.{
  start_periodic_msg-Asks, stop_periodic_msg-Asks, stop_msg_filter-Asks,
  set_programming_voltage-Asks, ioctl-Asks-simple, ioctl-Asks-configs,
}
use qt_gretio.PassThru.Calls.{
  Call, open_device, close_device, connect, disconnect, read_msgs, write_msgs, start_periodic_msg,
  stop_periodic_msg, start_msg_filter, stop_msg_filter, set_programming_voltage, read_version,
  get_last_error, ioctl, perform,
}

abbrev pub reads : Call → Bool
reads (read_msgs channel buffer num_msgs timeout) = true
reads call = false

module _ (q : Qt) (laws : QtLaws q) (g : Globals q) (c : Context q) (e : g.context ≡ some c) where
  configs-Asks :
      (channel ioctl_id n : ℕ) (configs : Option (List Sconfig))
      → has_configs ioctl_id ≡ true
      → PointsToConfigs (some (record { num_of_params = n; config_ptr = configs }))
      → Asks q
          (ioctl channel ioctl_id (some (record { num_of_params = n; config_ptr = configs })))
          g
  configs-Asks channel ioctl_id n none is_list v = absurd v
  configs-Asks channel ioctl_id n (some configs) is_list v =
      ioctl-Asks-configs q laws g c e channel ioctl_id n configs is_list v

  ioctl-Asks :
      (channel ioctl_id : ℕ) (input : Option SconfigList)
      → has_configs ioctl_id ≡ true
      → PointsToConfigs input
      → Asks q (ioctl channel ioctl_id input) g
  ioctl-Asks channel ioctl_id none is_list v = absurd v
  ioctl-Asks channel ioctl_id (some list) is_list v =
      configs-Asks channel ioctl_id list.num_of_params list.config_ptr is_list v

  -- Every call that needs a device and whose arguments are in order makes one request.
  perform-Asks : (call : Call) → IsInOrder call → Asks q call g
  perform-Asks open_device v = absurd v
  perform-Asks (close_device device) v = absurd v
  perform-Asks read_version v = absurd v
  perform-Asks get_last_error v = absurd v
  perform-Asks (connect device protocol flags baud_rate) v =
      subst (λ d. Asks q (connect d protocol flags baud_rate) g) (sym v)
        (connect-Asks q laws g c e protocol flags baud_rate)
  perform-Asks (disconnect channel) v = disconnect-Asks q laws g c e channel
  perform-Asks (read_msgs channel buffer num_msgs timeout) v =
      read_msgs-Asks q laws g c e channel buffer num_msgs timeout
  perform-Asks (write_msgs channel buffer num_msgs timeout) v =
      write_msgs-Asks q laws g c e channel buffer num_msgs timeout v.0 v.1
  perform-Asks (start_periodic_msg channel none time_interval) v = absurd v
  perform-Asks (start_periodic_msg channel (some m) time_interval) v =
      start_periodic_msg-Asks q laws g c e channel m time_interval v
  perform-Asks (stop_periodic_msg channel msg_id) v =
      stop_periodic_msg-Asks q laws g c e channel msg_id
  perform-Asks (start_msg_filter channel filter_type none pattern_msg flow_control has_filter_id)
        v =
      absurd v.0
  perform-Asks (start_msg_filter channel filter_type (some mask) none flow_control has_filter_id)
        v =
      absurd v.1
  perform-Asks
        (start_msg_filter channel filter_type
          (some mask)
          (some pattern_msg)
          flow_control
          has_filter_id)
        v =
      subst
        (λ b.
          Asks q
            (start_msg_filter channel filter_type (some mask) (some pattern_msg) flow_control b) g)
        (sym v.3)
        (start_msg_filter-Asks q laws g c e channel filter_type mask pattern_msg flow_control v.0
          v.1 v.2)
  perform-Asks (stop_msg_filter channel filter_id) v =
      stop_msg_filter-Asks q laws g c e channel filter_id
  perform-Asks (set_programming_voltage device pin_number voltage) v =
      subst (λ d. Asks q (set_programming_voltage d pin_number voltage) g) (sym v)
        (set_programming_voltage-Asks q laws g c e pin_number voltage)
  perform-Asks (ioctl channel ioctl_id input) v = elim (Bool-cases (has_configs ioctl_id)) [
    | inl is_list ↦
        ioctl-Asks channel ioctl_id input is_list
          (subst (λ b. if b then PointsToConfigs input else Unit {0}) is_list v)
    | inr other ↦ ioctl-Asks-simple q laws g c e channel ioctl_id input other
  ]

  last_error-told :
      (is_quiet : Bool) (h : Globals q)
      → (if is_quiet then h else record h { last_error = q.text could_not_send })
        ≡ record h { last_error = if is_quiet then h.last_error else q.text could_not_send }
  last_error-told true h = refl
  last_error-told false h = refl

  -- On an open device, where the timer of its request fires before anything else happens, every
  -- call that needs the device and whose arguments are in order (device id 1, messages of 4 to 4128
  -- bytes, arrays as long as they are said to be, no missing pointer) has sent one request, with its
  -- own id and the next number, and fails with ERR_FAILED; the last error tells so, but for the
  -- calls that connect, disconnect or control, which leave it.
  pub perform_timeout :
      (call : Call) (es : List (Event q))
      → IsInOrder call
      → g.events ≡ request_timeout ∷ es
      → (message : q.Object) × (d : Context q) × (q.value message "id"
          ≡ q.of_int (pos (id_of call)))
        × (d.socket.sent ≡ request_text q message c ∷ c.socket.sent)
        × (d.cseq ≡ c.cseq + 1)
        × (perform q call g
            ≡ returned (pos J2534.err_failed) (record g {
              context = some d;
              events = es;
              last_error = if is_tacit call then g.last_error else q.text could_not_send;
            }))
  perform_timeout call es v f =
      let asks = perform-Asks call v in
      let d = asked q asks.message asks.timeout c in
      let after : Globals q = record g { context = some d; events = es } in
      let sent = request-finished q g c e asks.message asks.timeout none d es (
        ap (send_receive_cseq q asks.message asks.timeout c) f
        ∙ send_receive_cseq-timeout q asks.message asks.timeout c es) in
      let told = ap (returned (pos J2534.err_failed)) (last_error-told (is_tacit call) after) in
      (asks.message, d, asks.has_id, refl, refl, asks.times_out after sent ∙ told)

  -- On an open device with a session, where the next thing that happens is the answer of the
  -- server, every call that needs the device and whose arguments are in order (device id 1, messages
  -- of 4 to 4128 bytes, arrays as long as they are said to be, no missing pointer) has sent one
  -- request, with its own id and the next number, and returns the code that is in the answer; the
  -- messages that it reads have to fit the array.
  pub perform_answered :
      (call : Call) (text : q.Str) (answer : q.Object) (es : List (Event q))
      → IsInOrder call
      → CanReceive q c
      → g.events ≡ text_message text ∷ es
      → q.from_json text ≡ some answer
      → Answers q c.cseq answer
      → Fits q call answer
      → (message : q.Object) × (d : Context q) × (q.value message "id"
          ≡ q.of_int (pos (id_of call)))
        × (d.socket.sent ≡ request_text q message c ∷ c.socket.sent)
        × (d.cseq ≡ c.cseq + 1)
        × (perform q call g
            ≡ returned (pass_thru_result q answer) (record g { context = some d; events = es }))
  perform_answered call text answer es v can f parses a fits =
      let asks = perform-Asks call v in
      let done =
        send_receive_cseq-answered q text answer parses asks.message asks.timeout c es can a in
      (
        asks.message,
        done.0,
        asks.has_id,
        done.2,
        done.3,
        asks.is_answered answer _
            (request-finished q g c e asks.message asks.timeout (some answer) done.0 es
              (ap (send_receive_cseq q asks.message asks.timeout c) f ∙ done.1))
            fits,
      )

  Fits-reads : (call : Call) (o : q.Object) → reads call ≡ false → Fits q call o
  Fits-reads (read_msgs channel buffer num_msgs timeout) o h = cc
  Fits-reads call o h = tt

  returns :
      (call : Call) (r : Option q.Object) (h : Globals q) (asks : Asks q call g)
      → reads call ≡ false
      → request q asks.message asks.timeout g ≡ returned r h
      → (code : ℤ) × (g' : Globals q) × (perform q call g ≡ returned code g')
  returns call none h asks n sent = (_, _, asks.times_out h sent)
  returns call (some o) h asks n sent = (_, _, asks.is_answered o h sent (Fits-reads call o n))

  -- On an open device every call that needs it and whose arguments are in order (device id 1,
  -- messages of 4 to 4128 bytes, arrays as long as they are said to be, no missing pointer) returns,
  -- and accesses no memory that it may not, if the timer of its request fires at last, whatever
  -- happens before and after. Reading messages is left out: a reply may hold more of them than the
  -- array.
  pub perform-total :
      (call : Call) (before after : List (Event q))
      → IsInOrder call
      → reads call ≡ false
      → g.events ≡ before ++ request_timeout ∷ after
      → (code : ℤ) × (g' : Globals q) × (perform q call g ≡ returned code g')
  perform-total call before after v n f =
      let asks = perform-Asks call v in
      let total = send_receive_cseq-total q asks.message asks.timeout c before after in
      returns call total.0 _ asks n (
        request-finished q g c e asks.message asks.timeout total.0 total.1 total.2
          (ap (send_receive_cseq q asks.message asks.timeout c) f ∙ total.3))
