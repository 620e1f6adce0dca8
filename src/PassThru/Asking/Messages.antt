-- ===== src/PassThru/Asking/Messages.antt =====
-- SurrealJ2534Wrapper/J2534.cpp: the requests of the channels, and of reading and writing messages.
use qt_gretio.Prelude.{ℕ, ◌≤◌, ◌≡◌, refl, ◌∙◌, inl, inr, some, List, Option-cases, length, take}
use qt_gretio.Qt.{Qt, QtLaws}
use qt_gretio.J2534
use qt_gretio.J2534.{PassthruMsg, Sconfig, SconfigList}
use qt_gretio.Context.{Context}
use qt_gretio.PassThru.{
  Globals, returned, done, done_with, header, int_of, text_of, pass_thru_result, pass_thru_connect,
  pass_thru_disconnect,
}
use qt_gretio.PassThru.Transfer.{
  encode_msgs, with_timeout, pass_thru_read_msgs, pass_thru_write_msgs, send_msgs, store_msgs,
  copy_msgs,
}
use qt_gretio.PassThru.Transfer.Buffers.{AllSized, copy_msgs-encode_msgs, copy_msgs_bounds}
use qt_gretio.PassThru.Calls.{connect, disconnect, read_msgs, write_msgs, perform}
use qt_gretio.PassThru.Asking.{Asks, bind-returned, unless_null-open, answers}

module _ (q : Qt) where
  store_msgs-fits :
      (o : q.Object) (buffer : List PassthruMsg) (g : Globals q)
      → length (q.to_array (q.value o "msgs")) ≤ length buffer
      → (buffer' : List PassthruMsg) × (store_msgs q o buffer g
          ≡ returned
              ((pass_thru_result q o, some (length (q.to_array (q.value o "msgs")))), buffer')
              g)
  unfolding store_msgs
  store_msgs-fits o buffer g f =
      elim (Option-cases (copy_msgs q (q.to_array (q.value o "msgs")) buffer)) [
        | inl none_is ↦
            absurd ((copy_msgs_bounds q (q.to_array (q.value o "msgs")) buffer).1 f none_is)
        | inr (buffer', e) ↦ (buffer', rw (store_msgs, e) refl)
      ]

  -- The request that reads, and the one that writes.
  abbrev pub read_message_of : ℕ → ℕ → ℕ → q.Object
  read_message_of channel num_msgs timeout =
      q.insert
        (q.insert
          (q.insert (header q J2534.message_id_pt_read_msgs) "channelId" (text_of q channel))
          "numMsgs" (text_of q num_msgs))
        "timeout" (text_of q timeout)

  abbrev pub write_message_of : ℕ → ℕ → List q.Object → q.Object
  write_message_of channel timeout objects =
      q.insert
        (q.insert
          (q.insert (header q J2534.message_id_pt_write_msgs) "channelId" (text_of q channel))
          "msgs" (q.of_array objects))
        "timeout" (text_of q timeout)

  pub write_msgs-opened :
      (g : Globals q) (c : Context q)
      → g.context ≡ some c
      → (channel : ℕ) (buffer : List PassthruMsg) (num_msgs timeout : ℕ) {os : List q.Object}
      → encode_msgs q num_msgs buffer ≡ some os
      → pass_thru_write_msgs q channel buffer num_msgs timeout g ≡ send_msgs q channel timeout os g
  unfolding pass_thru_write_msgs
  write_msgs-opened g c e channel buffer num_msgs timeout h = unless_null-open _ _ e ∙ rw h refl

  module _ (laws : QtLaws q) (g : Globals q) (c : Context q) (e : g.context ≡ some c) where
    open laws use {value-insert}

    pub connect-Asks :
        (protocol flags baud_rate : ℕ) → Asks q (connect 1 protocol flags baud_rate) g
    unfolding perform done pass_thru_connect
    connect-Asks protocol flags baud_rate = record {
      message =
          q.insert
            (q.insert
              (q.insert (header q J2534.message_id_pt_connect) "protocolId" (int_of q protocol))
              "flags" (int_of q flags))
            "baudRate" (int_of q baud_rate);
      timeout = 10000;
      has_id = simp value-insert;
      times_out = λ g' h.
          bind-returned (pass_thru_connect q 1 protocol flags baud_rate) _
            (answers q g c e _ _ _ _ h);
      is_answered = λ o g' h f.
          bind-returned (pass_thru_connect q 1 protocol flags baud_rate) _
            (answers q g c e _ _ _ _ h);
    }

    pub disconnect-Asks : (channel : ℕ) → Asks q (disconnect channel) g
    unfolding perform done pass_thru_disconnect
    disconnect-Asks channel = record {
      message = q.insert (header q J2534.message_id_pt_disconnect) "channelId" (int_of q channel);
      timeout = 5000;
      has_id = simp value-insert;
      times_out = λ g' h. answers q g c e _ _ _ _ h;
      is_answered = λ o g' h f. answers q g c e _ _ _ _ h;
    }

    pub read_msgs-Asks :
        (channel : ℕ) (buffer : List PassthruMsg) (num_msgs timeout : ℕ)
        → Asks q (read_msgs channel buffer num_msgs timeout) g
    unfolding perform done done_with pass_thru_read_msgs
    read_msgs-Asks channel buffer num_msgs timeout = record {
      message = read_message_of channel num_msgs timeout;
      timeout = with_timeout q timeout;
      has_id = simp value-insert;
      times_out = λ g' h.
          bind-returned (pass_thru_read_msgs q channel buffer num_msgs timeout) _
            (answers q g c e _ _ _ _ h);
      is_answered = λ o g' h f.
          let stored = store_msgs-fits o buffer g' f in
          bind-returned (pass_thru_read_msgs q channel buffer num_msgs timeout) _
            (answers q g c e _ _ _ _ h ∙ stored.1);
    }

    pub write_msgs-Asks :
        (channel : ℕ) (buffer : List PassthruMsg) (num_msgs timeout : ℕ)
        → AllSized (take num_msgs buffer)
        → num_msgs ≤ length buffer
        → Asks q (write_msgs channel buffer num_msgs timeout) g
    unfolding perform done done_with send_msgs
    write_msgs-Asks channel buffer num_msgs timeout v n =
        let encoded = copy_msgs-encode_msgs q laws num_msgs buffer buffer v n n in
        let opened = write_msgs-opened g c e channel buffer num_msgs timeout encoded.1 in
        record {
          message = write_message_of channel timeout encoded.0;
          timeout = with_timeout q timeout;
          has_id = simp value-insert;
          times_out = λ g' h. opened ∙ bind-returned _ _ h;
          is_answered = λ o g' h f. opened ∙ bind-returned _ _ h;
        }
