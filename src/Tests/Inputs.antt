-- ===== src/Tests/Inputs.antt =====
-- The data of the tests: a session with a server that grants a token, and messages of the bus.
use qt_gretio.Prelude.{
  ℕ, zero, suc, ◌<◌, ◌≡◌, refl, true, false, none, some, List, [], ◌∷◌, arith, replicate,
  length-replicate, pos, u32_mod,
}
use qt_gretio.Qt.{AllBytes}
use qt_gretio.Qt.Sample.{sample}
use qt_gretio.Socket.{write_message, on_message_received, new_socket}
use qt_gretio.Socket
use qt_gretio.Auth.{
  Disk, new_link, input_message, accept_token, add_token, write_servers_file, read_servers_file,
  get_token_for_key,
}
use qt_gretio.Auth
use qt_gretio.Window.{new_window, show_discovery}
use qt_gretio.J2534.{PassthruMsg, IsMsg, data_capacity}
use qt_gretio.Context.{
  is_connected, Context, Event, socket_connected, text_message, new_context, handle, deliver,
  receive, on_signals, on_signal,
}
use qt_gretio.Context.Exchange.{CanReceive}
use qt_gretio.Context.Evolution.{handle_all}
use qt_gretio.PassThru.{Globals, no_error_yet}

abbrev pub empty_disk : Disk sample
empty_disk = record { can_read = true; can_write = true; file = none }

-- A response of the server to the request with this number.
abbrev pub response : ℕ → sample.Object
response id =
    sample.insert (sample.insert sample.empty "t" (sample.of_int (pos 2))) "id"
      (sample.of_int (pos id))

abbrev pub grant : sample.Object
grant =
    sample.insert (sample.insert (response 80) "token" (sample.of_str (sample.text "secret")))
      "authResult" (sample.of_bool true)

abbrev pub text_of : sample.Object → sample.Str
text_of o = sample.to_json false o

-- The socket connects, and the server hands out a token.
abbrev pub session : List (Event sample)
session = socket_connected (some "PEM") ∷ text_message (text_of grant) ∷ []

abbrev pub fresh : Context sample
fresh = new_context sample empty_disk

abbrev pub open_context : Context sample
open_context = handle_all sample session fresh

abbrev pub open_globals : List (Event sample) → Globals sample
open_globals events = record {
  context = some open_context;
  app = true;
  last_error = sample.text no_error_yet;
  disk = empty_disk;
  events = events;
}

-- The answer to a request with this number, and the first request's.
abbrev pub answer_to : ℕ → sample.Object
answer_to n = sample.insert (response 9003) "cseq" (sample.of_int (pos n))

abbrev pub payload : ℕ → List ℕ
payload b = replicate data_capacity b

abbrev pub message : ℕ → ℕ → PassthruMsg
message size b = record {
  protocol_id = 6;
  rx_status = 0;
  tx_flags = 64;
  timestamp = 1000;
  data_size = size;
  extra_data_index = 0;
  payload = payload b;
}

AllBytes-replicate : (n b : ℕ) → b < 256 → AllBytes (replicate n b)
AllBytes-replicate zero b h = tt
AllBytes-replicate (suc n) b h = (h, AllBytes-replicate n b h)

pub message-IsMsg : (size b : ℕ) → size < u32_mod → b < 256 → IsMsg (message size b)
message-IsMsg size b h k = record {
  protocol_id_fits = omega arith;
  rx_status_fits = omega arith;
  tx_flags_fits = omega arith;
  timestamp_fits = omega arith;
  data_size_fits = h;
  extra_data_index_fits = omega arith;
  payload_length = length-replicate data_capacity b;
  payload_bytes = AllBytes-replicate data_capacity b k;
}

-- The session ends authenticated, connected, and with one connection of the slot.
pub open_context_facts :
    (open_context.auth_complete ≡ true)
    × (is_connected open_context.status ≡ true)
    × (open_context.socket.receivers ≡ 1)
    × (open_context.cseq ≡ 0)
unfolding handle_all handle deliver receive on_message_received input_message accept_token add_token
    write_servers_file read_servers_file get_token_for_key on_signals on_signal write_message
    Auth.on_connected Socket.on_connected new_context new_link new_socket show_discovery new_window
open_context_facts = (refl, refl, refl, refl)

pub open_context-CanReceive : CanReceive sample open_context
open_context-CanReceive = record {
  has_session = open_context_facts.0;
  has_receiver = omega (arith, open_context_facts);
}
