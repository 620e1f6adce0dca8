-- ===== src/Socket.antt =====
-- SurrealJ2534Wrapper/gretiowebsocketclient.cpp: the class GretioWebsocketClient. What the class
-- asks of its QWebSocket is recorded in lists, the newest first; what the QWebSocket reports
-- arrives as events (see Context).
pub mod Ssl
use qt_gretio.Prelude.{
  ℕ, zero, suc, ◌+◌, Bool, true, false, ◌||◌, not, Option, none, some, List, [], ◌∷◌, if◌then◌else◌,
}
use qt_gretio.Qt.{Qt}

pub data CloseReason : Type 0 where
  normal : CloseReason
  not_json : CloseReason
  missing_fields : CloseReason

pub data SslError : Type 0 where
  host_name_mismatch : SslError
  unable_to_get_local_issuer_certificate : SslError
  unable_to_verify_first_certificate : SslError
  other_error : ℕ → SslError

-- `receivers` and `pingers` count the connections of the slots onMessageReceived and ping: a
-- signal that is connected twice calls its slot twice.
pub record Socket (q : Qt) : Type 0 where
  pub url : q.Str
  pub debug : Bool
  pub opened : List q.Str
  pub sent : List q.Str
  pub closes : List CloseReason
  pub receivers : ℕ
  pub pingers : ℕ
  pub ping_interval : Option ℕ
  pub pings : ℕ
  pub ssl_ignored : Bool

unfoldable pub new_socket : (q : Qt) → q.Str → Bool → Socket q
new_socket q url debug = record {
  url = url;
  debug = debug;
  opened = [];
  sent = [];
  closes = [];
  receivers = 0;
  pingers = 0;
  ping_interval = none;
  pings = 0;
  ssl_ignored = false;
}

module _ (q : Qt) where
  -- Sends the text of the object, indented in debug mode; the result is always true.
  unfoldable pub write_message : q.Object → Socket q → Socket q × Bool
  write_message json s = (record s { sent = q.to_json s.debug json ∷ s.sent }, true)

  unfoldable pub connect_now : q.Str → Socket q → Socket q
  connect_now url s = record s { url = url; opened = url ∷ s.opened }

  unfoldable pub close : Socket q → Socket q
  close s = record s { receivers = 0; pingers = 0; closes = CloseReason.normal ∷ s.closes }

  -- The signal `connected` that follows is handled in Context.
  unfoldable pub on_connected : Socket q → Socket q
  on_connected s = record s {
    receivers = s.receivers + 1;
    pingers = s.pingers + 1;
    ping_interval = some 5000;
  }

  -- `m_webSocket.close(...)`, which leaves the slots connected.
  abbrev pub abort : CloseReason → Socket q → Socket q
  abort reason s = record s { closes = reason ∷ s.closes }

  -- The object that is emitted, if there is one. A missing field closes the socket, and the
  -- object is emitted all the same.
  unfoldable pub on_message_received : q.Str → Socket q → Socket q × Option q.Object
  on_message_received message s = elim (q.from_json message) [
    | none ↦ (abort not_json s, none)
    | some json ↦ (
      if not (q.contains json "id") || not (q.contains json "t") then abort missing_fields s else s,
      some json,
    )
  ]

  -- One timeout of the ping timer calls the slot once for each connection.
  unfoldable pub ping : Bool → Socket q → Socket q
  ping is_valid s = if is_valid then record s { pings = s.pings + 1 } else s

  unfoldable pub ping_timeout : ℕ → Bool → Socket q → Socket q
  ping_timeout zero is_valid s = s
  ping_timeout (suc n) is_valid s = ping_timeout n is_valid (ping is_valid s)

  abbrev pub is_accepted : SslError → Bool
  is_accepted host_name_mismatch = true
  is_accepted unable_to_get_local_issuer_certificate = true
  is_accepted unable_to_verify_first_certificate = true
  is_accepted (other_error n) = false

  unfoldable pub all_accepted : Bool → List SslError → Bool
  all_accepted ok_error [] = ok_error
  all_accepted ok_error (e ∷ es) = all_accepted (if is_accepted e then ok_error else false) es

  unfoldable pub on_ssl_errors : List SslError → Socket q → Socket q
  on_ssl_errors errors s = if all_accepted true errors then record s { ssl_ignored = true } else s
