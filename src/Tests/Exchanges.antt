-- ===== src/Tests/Exchanges.antt =====
-- Calls of the exported functions as exchanges with the server, at concrete inputs.
use qt_gretio.Prelude.{
  ◌+◌, ◌≤◌, ◌≡◌, refl, ◌≢◌, ◌↔◌, some, List, [], ◌∷◌, arith, take, drop, ℤ, pos, to_i32,
}
use qt_gretio.Qt.Sample.{sample, sample_laws}
use qt_gretio.J2534
use qt_gretio.J2534.{PassthruMsg}
use qt_gretio.J2534.Message.{msg_object, pt_msg_to_json, data_length, byte_array}
use qt_gretio.Context.{Context, text_message, request_timeout, socket_disconnected}
use qt_gretio.Context.Replies.{Answers}
use qt_gretio.Context.Exchange.{request_text}
use qt_gretio.PassThru.{Globals, returned, fault, pass_thru_result, could_not_send}
use qt_gretio.PassThru.Transfer.{pass_thru_read_msgs, pass_thru_write_msgs, encode_msgs, copy_msgs}
use qt_gretio.PassThru.Transfer.Buffers.{AllSized, all_received}
use qt_gretio.PassThru.Asking.Messages.{read_message_of}
use qt_gretio.PassThru.Calls.{write_msgs, connect, perform}
use qt_gretio.PassThru.Exchange.{perform_timeout, perform_answered, perform-total}
use qt_gretio.PassThru.Carrying.{
  pass_thru_read_msgs-encode_msgs, pass_thru_read_msgs_bounds, copy_msgs-pass_thru_write_msgs,
}
use qt_gretio.Tests.Inputs.{
  session, text_of, open_context, open_context-CanReceive, open_context_facts, payload,
  open_globals, answer_to, message, message-IsMsg,
}

abbrev one_message : List PassthruMsg
one_message = message 12 7 ∷ []

one_message-AllSized : AllSized one_message
one_message-AllSized =
    ((message-IsMsg 12 7 (omega arith) (omega arith), omega arith, omega arith), tt)

abbrev timed_out : Globals sample
timed_out = open_globals (request_timeout ∷ session)

perform_timeout_example :
    (m : sample.Object) × (d : Context sample) × (sample.value m "id" ≡ sample.of_int (pos 9013))
    × (d.socket.sent ≡ request_text sample m open_context ∷ open_context.socket.sent)
    × (d.cseq ≡ open_context.cseq + 1)
    × (perform sample (write_msgs 3 one_message 1 100) timed_out
        ≡ returned (pos J2534.err_failed) (record timed_out {
          context = some d;
          events = session;
          last_error = sample.text could_not_send;
        }))
perform_timeout_example =
    perform_timeout sample sample_laws timed_out open_context refl (write_msgs 3 one_message 1 100)
      session (one_message-AllSized, omega arith) refl

abbrev answered : Globals sample
answered = open_globals (text_message (text_of (answer_to 0)) ∷ session)

answer_to-Answers : Answers sample open_context.cseq (answer_to 0)
answer_to-Answers = rw open_context_facts.3 refl

perform_answered_example :
    (m : sample.Object) × (d : Context sample) × (sample.value m "id" ≡ sample.of_int (pos 9001))
    × (d.socket.sent ≡ request_text sample m open_context ∷ open_context.socket.sent)
    × (d.cseq ≡ open_context.cseq + 1)
    × (perform sample (connect 1 6 0 500000) answered
        ≡ returned
            (pass_thru_result sample (answer_to 0))
            (record answered { context = some d; events = session }))
perform_answered_example =
    perform_answered sample sample_laws answered open_context refl (connect 1 6 0 500000)
      (text_of (answer_to 0)) (answer_to 0) session refl open_context-CanReceive refl refl
      answer_to-Answers tt

-- One message as the server sends it.
abbrev encoded : sample.Object
encoded = msg_object sample (take 4 (payload 7)) (take 8 (drop 4 (payload 7))) (message 12 7)

encoded_lem : encode_msgs sample 1 one_message ≡ some (encoded ∷ [])
unfolding encode_msgs pt_msg_to_json data_length byte_array to_i32
encoded_lem = refl

abbrev with_message : sample.Object
with_message = sample.insert (answer_to 0) "msgs" (sample.of_array (encoded ∷ []))

with_message-Answers : Answers sample open_context.cseq with_message
with_message-Answers = rw open_context_facts.3 refl

abbrev carrying : Globals sample
carrying = open_globals (text_message (text_of with_message) ∷ [])

abbrev buffer : List PassthruMsg
buffer = message 0 0 ∷ message 0 0 ∷ []

pass_thru_read_msgs-encode_msgs_example :
    (d : Context sample) × (pass_thru_read_msgs sample 3 buffer 2 100 carrying
      ≡ returned
          ((pass_thru_result sample with_message, some 1), all_received 1 one_message buffer)
          (record carrying { context = some d; events = [] }))
    × (d.socket.sent
        ≡ request_text sample (read_message_of sample 3 2 100) open_context
          ∷ open_context.socket.sent)
pass_thru_read_msgs-encode_msgs_example =
    pass_thru_read_msgs-encode_msgs sample sample_laws carrying open_context refl
      (text_of with_message) with_message [] open_context-CanReceive refl refl with_message-Answers
      3 2 100 1 buffer one_message (encoded ∷ []) one_message-AllSized (omega arith) (omega arith)
      encoded_lem refl

copy_msgs-pass_thru_write_msgs_example :
    (m : sample.Object) × (d : Context sample) × (pass_thru_write_msgs sample 3 one_message 1 100
        answered
      ≡ returned
          (pass_thru_result sample (answer_to 0))
          (record answered { context = some d; events = session }))
    × (d.socket.sent ≡ request_text sample m open_context ∷ open_context.socket.sent)
    × (sample.value m "channelId" ≡ sample.of_str (sample.number 3))
    × (copy_msgs sample (sample.to_array (sample.value m "msgs")) buffer
        ≡ some (all_received 1 one_message buffer))
copy_msgs-pass_thru_write_msgs_example =
    copy_msgs-pass_thru_write_msgs sample sample_laws answered open_context refl
      (text_of (answer_to 0)) (answer_to 0) session open_context-CanReceive refl refl
      answer_to-Answers 3 100 1 one_message buffer one_message-AllSized (omega arith) (omega arith)

abbrev troubled : Globals sample
troubled = open_globals (socket_disconnected ∷ request_timeout ∷ session)

perform-total_example :
    (code : ℤ) × (g' : Globals sample) × (perform sample (write_msgs 3 one_message 1 100) troubled
      ≡ returned code g')
perform-total_example =
    perform-total sample sample_laws troubled open_context refl (write_msgs 3 one_message 1 100)
      (socket_disconnected ∷ []) session (one_message-AllSized, omega arith) refl refl

pass_thru_read_msgs_bounds_example :
    (pass_thru_read_msgs sample 3 [] 2 100 carrying ≢ fault) ↔ (1 ≤ 0)
pass_thru_read_msgs_bounds_example =
    pass_thru_read_msgs_bounds sample sample_laws carrying open_context refl (text_of with_message)
      with_message [] open_context-CanReceive refl refl with_message-Answers 3 2 100 []
