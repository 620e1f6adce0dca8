-- ===== src/Tests/Sessions.antt =====
-- The socket, the authentication, the window and the context at concrete inputs.
use qt_gretio.Context.Waiting.{IsOpen, wait_for_open-IsOpen}
use qt_gretio.Prelude.{
  ◌+◌, ◌<◌, ◌≡◌, refl, true, false, some, [], ◌∷◌, arith, length, get_elem?, pos, negsuc, to_i32,
}
use qt_gretio.Qt.Sample.{sample, sample_laws}
use qt_gretio.Socket.{Socket, write_message, on_message_received, other_error, new_socket}
use qt_gretio.Socket
use qt_gretio.Auth.{
  Link, Disk, new_link, input_message, message_to_next, get_token_for_key, add_token, accept_token,
  request_object, write_servers_file, read_servers_file,
}
use qt_gretio.Auth
use qt_gretio.Auth.Gate.{HoldsBack, Grants, input_message-gate}
use qt_gretio.Auth.Tokens.{get_token_for_key-add_token, on_connected-accept_token}
use qt_gretio.Window.{add_service, new_window, show_discovery, Service, service_url}
use qt_gretio.Context.Selecting.{Selects, row_double_clicked-Selects}
use qt_gretio.Context.{
  Context, socket_connected, socket_disconnected, text_message, service_found, row_double_clicked,
  finished, new_context, handle, deliver, receive, on_signals, on_signal, reply_in,
  send_receive_cseq, wait_reply, wait_for_open, is_connected,
}
use qt_gretio.Context.Evolution.{handle_all, Evolves, handle_all-Evolves, reconnect_never_connected}
use qt_gretio.Context.Replies.{send_receive_cseq-Answers}
use qt_gretio.Context.Delivery.{reconnect_duplicates}
use qt_gretio.Tests.Inputs.{
  empty_disk, grant, text_of, session, fresh, open_context, open_context_facts, answer_to,
}

abbrev socket : Socket sample
socket = new_socket sample (sample.text "wss://10.0.0.2:57040/ws") false

abbrev link : Link sample
link = new_link sample socket empty_disk

input_message-gate_example :
    (link.auth_complete ≡ false
      → HoldsBack (input_message sample grant link).1
        × ((input_message sample grant link).0.auth_complete ≡ true → Grants sample grant link))
    × (link.auth_complete ≡ true
        → input_message sample grant link ≡ (link, message_to_next grant ∷ []))
input_message-gate_example = input_message-gate sample grant link

get_token_for_key-add_token_example :
    get_token_for_key sample (add_token sample "PEM" (sample.text "secret") empty_disk) "PEM"
    ≡ sample.text "secret"
get_token_for_key-add_token_example =
    get_token_for_key-add_token sample sample_laws "PEM" "PEM" (sample.text "secret") empty_disk
      refl refl

on_connected-accept_token_example :
    let l' = accept_token sample (sample.text "secret") link in
    ((Auth.on_connected sample (some link.pubkey) l').0.socket.sent
      ≡ sample.to_json false
          (sample.insert (request_object sample 80) "token" (sample.of_str (sample.text "secret")))
        ∷ [])
    × ((Auth.on_connected sample (some link.pubkey) l').0.token ≡ sample.text "secret")
    × ((Auth.on_connected sample (some link.pubkey) l').1 ≡ [])
unfolding new_link new_socket
on_connected-accept_token_example =
    on_connected-accept_token sample sample_laws (sample.text "secret") link refl refl refl

abbrev service : Service sample
service = record { name = sample.text "Gretio"; ip = sample.text "10.0.0.2"; port = 57040 }

abbrev found : Context sample
found = handle_all sample (service_found service ∷ []) fresh

row_0 : 0 < length found.window.rows
unfolding handle_all handle add_service new_context show_discovery new_window
row_0 = omega arith

row_double_clicked-Selects_example :
    (s : Service sample) × (get_elem? found.window.services 0 ≡ some s)
    × Selects sample (service_url sample s) found (handle sample (row_double_clicked 0) found).0
row_double_clicked-Selects_example =
    row_double_clicked-Selects sample empty_disk (service_found service ∷ []) 0 row_0

handle_all-Evolves_example : Evolves fresh open_context
handle_all-Evolves_example = handle_all-Evolves sample session fresh

reconnect_never_connected_example :
    is_connected (handle_all sample session open_context).status ≡ false
reconnect_never_connected_example =
    reconnect_never_connected sample (some "PEM") (text_message (text_of grant) ∷ []) open_context
      open_context_facts.0

reconnect_duplicates_example :
    (handle sample
      (text_message (text_of (answer_to 0)))
      (handle_all sample (socket_disconnected ∷ socket_connected (some "PEM") ∷ []) open_context)).1
    ≡ message_to_next (answer_to 0)
      ∷ (handle sample (text_message (text_of (answer_to 0))) open_context).1
reconnect_duplicates_example =
    reconnect_duplicates sample (text_of (answer_to 0)) (answer_to 0) refl open_context "PEM"
      open_context_facts.0

-- The request that is sent, and the context after its answer.
abbrev sent : Context sample
sent = record open_context {
  link = record open_context.link {
    socket =
        (Socket.write_message sample
          (sample.insert (answer_to 7) "cseq" (sample.of_int (pos open_context.cseq)))
          open_context.socket).0;
  };
  cseq = open_context.cseq + 1;
  timer = pos 6000;
}

abbrev answered : Context sample
answered = (handle sample (text_message (text_of (answer_to 0))) sent).0

answer_arrives :
    send_receive_cseq sample
      (answer_to 7)
      5000
      open_context
      (text_message (text_of (answer_to 0)) ∷ [])
    ≡ finished (some (answer_to 0)) answered []
unfolding handle_all handle deliver receive on_message_received input_message accept_token add_token
    write_servers_file read_servers_file get_token_for_key on_signals on_signal write_message
    Auth.on_connected Socket.on_connected new_context new_link new_socket send_receive_cseq
    wait_reply reply_in to_i32 show_discovery new_window
answer_arrives = refl

send_receive_cseq-Answers_example :
    (answered.cseq ≡ open_context.cseq + 1)
    × ((o : sample.Object)
        → (some (answer_to 0) ≡ some o)
        → sample.to_int (negsuc 0) (sample.value o "cseq") ≡ pos open_context.cseq)
send_receive_cseq-Answers_example =
    send_receive_cseq-Answers sample (answer_to 7) 5000 open_context answered
      (text_message (text_of (answer_to 0)) ∷ []) [] (some (answer_to 0)) answer_arrives

session_opens : wait_for_open sample fresh session ≡ finished true open_context []
unfolding handle_all handle deliver receive on_message_received input_message accept_token add_token
    write_servers_file read_servers_file get_token_for_key on_signals on_signal write_message
    Auth.on_connected Socket.on_connected new_context new_link new_socket wait_for_open
    show_discovery new_window
session_opens = refl

wait_for_open-IsOpen_example : (true ≡ true) × IsOpen sample open_context
wait_for_open-IsOpen_example =
    wait_for_open-IsOpen sample fresh open_context session [] true refl session_opens
