-- ===== src/PassThru/Asking/Filters.antt =====
-- SurrealJ2534Wrapper/J2534.cpp: the request of a message filter.
use qt_gretio.Prelude.{
  ℕ, ◌-◌, ◌≡◌, refl, ◌∙◌, ◌≢◌, true, Option, none, some, arith, take, drop, pos, to_u32,
}
use qt_gretio.Qt.{Qt, QtLaws}
use qt_gretio.J2534
use qt_gretio.J2534.{PassthruMsg, Sconfig, SconfigList}
use qt_gretio.J2534.Message.{msg_object}
use qt_gretio.J2534.Message.Roundtrip.{pt_msg_to_json_lem}
use qt_gretio.Context.{Context}
use qt_gretio.PassThru.{
  Globals, returned, ◌>>=◌, done, done_with, request, int_field, pass_thru_result, could_not_send,
}
use qt_gretio.PassThru.Transfer.Buffers.{IsSized}
use qt_gretio.PassThru.Channel.{
  encode, with_flow_control, send_filter, filter_object, pass_thru_start_msg_filter,
}
use qt_gretio.PassThru.Channel.Guards.{pass_thru_start_msg_filter_lem}
use qt_gretio.PassThru.Calls.{start_msg_filter, perform}
use qt_gretio.PassThru.Asking.{FlowsWith, Asks, bind-returned}

flow_is_there :
    (filter_type : ℕ) (flow_control : Option PassthruMsg)
    → FlowsWith filter_type flow_control
    → (filter_type ≡ J2534.flow_control_filter)
    → flow_control ≢ none
flow_is_there filter_type none w h = absurd (ground arith)
flow_is_there filter_type (some m) w h = λ k. cc

module _ (q : Qt) where
  -- The object of a message that is read within its bounds.
  abbrev pub sized_object : PassthruMsg → q.Object
  sized_object m = msg_object q (take 4 m.payload) (take (m.data_size - 4) (drop 4 m.payload)) m

  pub encode-sized :
      (m : PassthruMsg) (g : Globals q)
      → IsSized m
      → encode q (some m) g ≡ returned (sized_object m) g
  unfolding encode
  encode-sized m g v = rw (encode, pt_msg_to_json_lem q m v.0 v.1 v.2) refl

  -- The request of a filter.
  abbrev flowing : Option PassthruMsg → q.Object → q.Object
  flowing none o = o
  flowing (some m) o = q.insert o "flowControlMessage" (q.of_object (sized_object m))

  abbrev filter_message : ℕ → ℕ → PassthruMsg → PassthruMsg → Option PassthruMsg → q.Object
  filter_message channel filter_type mask pattern_msg flow_control =
      flowing flow_control
        (filter_object q channel filter_type (sized_object mask) (sized_object pattern_msg))

  flow-sized :
      (filter_type : ℕ) (flow_control : Option PassthruMsg) (o : q.Object) (g : Globals q)
      → FlowsWith filter_type flow_control
      → with_flow_control q flow_control o g ≡ returned (flowing flow_control o) g
  unfolding with_flow_control done
  flow-sized filter_type none o g w = refl
  flow-sized filter_type (some m) o g w = bind-returned _ _ (encode-sized m g w)

  module _ (laws : QtLaws q) (g : Globals q) (c : Context q) (e : g.context ≡ some c) where
    open laws use {value-insert}

    filter_message-id :
        (channel filter_type : ℕ) (mask pattern_msg : PassthruMsg)
        (flow_control : Option PassthruMsg)
        → q.value (filter_message channel filter_type mask pattern_msg flow_control) "id"
          ≡ q.of_int (pos J2534.message_id_pt_start_message_filter)
    filter_message-id channel filter_type mask pattern_msg none = simp value-insert
    filter_message-id channel filter_type mask pattern_msg (some m) = simp value-insert

    -- A filter whose messages can be read is sent.
    filter_sent :
        (channel filter_type : ℕ) (mask pattern_msg : PassthruMsg)
        (flow_control : Option PassthruMsg)
        → IsSized mask
        → IsSized pattern_msg
        → FlowsWith filter_type flow_control
        → pass_thru_start_msg_filter q channel filter_type
            (some mask)
            (some pattern_msg)
            flow_control
            true
            g
          ≡ (request q (filter_message channel filter_type mask pattern_msg flow_control) 10000
                >>= λ reply. elim reply [
                  | some r ↦ done (pass_thru_result q r, some (to_u32 (int_field q r "channelId")))
                  | none ↦ done_with could_not_send (pos J2534.err_failed, none)
                ])
              g
    unfolding send_filter
    filter_sent channel filter_type mask pattern_msg flow_control u v w =
        (pass_thru_start_msg_filter_lem q g c e channel filter_type (some mask) (some pattern_msg)
            flow_control true).1
          (λ h. cc) (λ h. cc) refl (flow_is_there filter_type flow_control w)
        ∙ bind-returned _ _ (encode-sized mask g u)
        ∙ bind-returned _ _ (encode-sized pattern_msg g v)
        ∙ bind-returned _ _ (flow-sized filter_type flow_control _ g w)

    pub start_msg_filter-Asks :
        (channel filter_type : ℕ) (mask pattern_msg : PassthruMsg)
        (flow_control : Option PassthruMsg)
        → IsSized mask
        → IsSized pattern_msg
        → FlowsWith filter_type flow_control
        → Asks q
            (start_msg_filter channel filter_type (some mask) (some pattern_msg) flow_control true)
            g
    unfolding perform done done_with
    start_msg_filter-Asks channel filter_type mask pattern_msg flow_control u v w =
        let opened = filter_sent channel filter_type mask pattern_msg flow_control u v w in
        record {
          message = filter_message channel filter_type mask pattern_msg flow_control;
          timeout = 10000;
          has_id = filter_message-id channel filter_type mask pattern_msg flow_control;
          times_out = λ g' h. bind-returned _ _ (opened ∙ bind-returned _ _ h);
          is_answered = λ o g' h f. bind-returned _ _ (opened ∙ bind-returned _ _ h);
        }
