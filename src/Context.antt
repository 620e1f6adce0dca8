-- ===== src/Context.antt =====
-- SurrealJ2534Wrapper/gretiowebcontext.cpp: the class GretioWebContext, which wires the window, the
-- service finder, the socket and the authentication together, and waits in nested event loops.
-- An event loop is a recursion on the list of the events that Qt is going to deliver. If the list
-- ends before the loop is quit, the call does not return (`starved`). A modal message box is a
-- nested loop too: its events are those that follow.
pub mod Evolution
pub mod Phases
pub mod Numbering
pub mod Replies
pub mod Exchange
pub mod Selecting
pub mod Opening
pub mod Delivery
pub mod Waiting
use qt_gretio.Prelude.{
  ℕ, zero, suc, ◌+◌, ◌*◌, Bool, true, false, ◌&&◌, ◌||◌, Option, none, some, List, [], ◌∷◌, ◌++◌,
  ◌==◌, if◌then◌else◌, ℤ, pos, negsuc, eqb_ℤ, to_i32,
}
use qt_gretio.Qt.{Qt}
use qt_gretio.Socket.{
  Socket, SslError, new_socket, write_message, connect_now, close, on_message_received,
  ping_timeout, on_ssl_errors,
}
use qt_gretio.Socket
use qt_gretio.Auth.{
  Link, Disk, Signal, auth_success, auth_fail, auth_pending, message_to_next, new_link,
  input_message,
}
use qt_gretio.Auth
use qt_gretio.Finder.{Finder, new_finder, find_services, stop_finding_services}
use qt_gretio.Window.{
  Window, Service, new_window, show_discovery, show_auth_widget, add_service, show_error, check_url,
  row_selected,
}

pub data Status : Type 0 where
  not_connected : Status
  wait_auth : Status
  connected : Status
  connecting : Status

pub record Context (q : Qt) : Type 0 where
  pub link : Link q
  pub open link use *
  pub window : Window q
  pub finder : Finder
  pub status : Status
  pub cseq : ℕ
  pub timer : ℤ

-- What Qt delivers while an event loop runs. `request_timeout` is the timer of the waiting call.
pub data Event (q : Qt) : Type 0 where
  socket_connected : Option q.Key → Event q
  socket_disconnected : Event q
  text_message : q.Str → Event q
  ssl_errors : List SslError → Event q
  ping_timer : Bool → Event q
  request_timeout : Event q
  service_found : Service q → Event q
  connect_edited : q.Str → Event q
  connect_clicked : Event q
  row_clicked : ℕ → Event q
  row_double_clicked : ℕ → Event q
  window_closed : Event q

pub data Waited {ℓ} (q : Qt) (A : Type ℓ) : Type ℓ where
  starved : Waited q A
  finished : A → Context q → List (Event q) → Waited q A

abbrev pub is_connected : Status → Bool
is_connected connected = true
is_connected _ = false

module _ (q : Qt) where
  -- The constructor starts the search for services and shows the window.
  unfoldable pub new_context : Disk q → Context q
  new_context disk = record {
    link = new_link q (new_socket q (q.text "ws://localhost:57039/ws") true) disk;
    window = show_discovery q (new_window q);
    finder = find_services new_finder;
    status = not_connected;
    cseq = 0;
    timer = pos 0;
  }

  -- The destructor. What outlives the context is the file of tokens.
  unfoldable pub delete_context : Context q → Context q
  delete_context c = record c {
    link = record c.link { socket = close q c.socket };
    finder = stop_finding_services c.finder;
  }

  unfoldable pub on_signal : Signal q → Context q → Context q
  on_signal auth_success c = record c {
    status = connected;
    window = record c.window { visible = false };
  }
  on_signal (auth_fail reason) c = record c {
    link = record c.link { socket = close q c.socket };
    window = show_error q reason c.window;
  }
  on_signal (auth_pending code) c = record c { window = show_auth_widget q code c.window }
  on_signal (message_to_next json) c = c

  unfoldable pub on_signals : List (Signal q) → Context q → Context q
  on_signals [] c = c
  on_signals (s ∷ ss) c = on_signals ss (on_signal s c)

  -- One call of the slot onMessageReceived.
  unfoldable pub receive : q.Str → Context q → Context q × List (Signal q)
  receive message c =
      let (socket, emitted) = on_message_received q message c.socket in
      let l : Link q = record c.link { socket = socket } in
      elim emitted [
        | none ↦ (record c { link = l }, [])
        | some json ↦ (
          on_signals (input_message q json l).1 (record c { link = (input_message q json l).0 }),
          (input_message q json l).1,
        )
      ]

  -- The slot is called once for each connection, unless a call before disconnects it.
  unfoldable pub deliver : ℕ → q.Str → Context q → Context q × List (Signal q)
  deliver zero message c = (c, [])
  deliver (suc n) message c =
      let (c', signals) = receive message c in
      let (c'', more) = deliver n message c' in
      if c.socket.receivers == 0 then (c, []) else (c'', signals ++ more)

  unfoldable pub select_url : Context q → Context q
  select_url c =
      let (window, url) = check_url q c.window in
      elim url [
        | none ↦ record c { window = window }
        | some url ↦ record c {
          window = window;
          link = record c.link { socket = connect_now q url c.socket };
          status = connecting;
        }
      ]

  -- The table reports only its own rows.
  unfoldable pub click_row : ℕ → Context q → Context q
  click_row x c = elim (row_selected q x c.window) [
    | none ↦ c
    | some window ↦ record c { window = window }
  ]

  -- The new context, and the signals that the authentication handler emitted.
  unfoldable pub handle : Event q → Context q → Context q × List (Signal q)
  handle (socket_connected cert) c =
      let (l, signals) =
        Auth.on_connected q cert (record c.link { socket = Socket.on_connected q c.socket }) in
      let c' = on_signals signals (record c { link = l }) in
      (record c' { status = wait_auth }, signals)
  handle socket_disconnected c =
      (record c { status = not_connected; window = show_discovery q c.window }, [])
  handle (text_message message) c = deliver c.socket.receivers message c
  handle (ssl_errors errors) c =
      (record c { link = record c.link { socket = on_ssl_errors q errors c.socket } }, [])
  handle (ping_timer is_valid) c = (
    record c {
      link = record c.link { socket = ping_timeout q c.socket.pingers is_valid c.socket };
    },
    [],
  )
  handle request_timeout c = (c, [])
  handle (service_found zcs) c = (record c { window = add_service q zcs c.window }, [])
  handle (connect_edited text) c =
      (record c { window = record c.window { connect_edit = text } }, [])
  handle connect_clicked c = (select_url c, [])
  handle (row_clicked x) c = (click_row x c, [])
  handle (row_double_clicked x) c = (select_url (click_row x c), [])
  handle window_closed c = (record c { window = record c.window { visible = false } }, [])

  -- The slot of `sendReceiveCseq`: the last forwarded message that carries the number, if any.
  unfoldable pub reply_in : ℕ → List (Signal q) → Option q.Object
  reply_in n [] = none
  reply_in n (message_to_next json ∷ ss) = elim (reply_in n ss) [
    | some later ↦ some later
    | none ↦ if eqb_ℤ (q.to_int (negsuc 0) (q.value json "cseq")) (pos n) then some json else none
  ]
  reply_in n (s ∷ ss) = reply_in n ss

  -- The loop of `sendReceiveCseq`: `none` is a timeout.
  unfoldable pub wait_reply : ℕ → Context q → List (Event q) → Waited q (Option q.Object)
  wait_reply n c [] = starved
  wait_reply n c (request_timeout ∷ es) = finished none c es
  wait_reply n c (e ∷ es) =
      let next = wait_reply n (handle e c).0 es in
      elim (reply_in n (handle e c).1) [
        | some json ↦ finished (some json) (handle e c).0 es
        | none ↦ next
      ]

  -- `timeout` is a long; one second is added to it.
  unfoldable pub send_receive_cseq :
      q.Object → ℕ → Context q → List (Event q) → Waited q (Option q.Object)
  send_receive_cseq to_send timeout c es =
      let message = q.insert to_send "cseq" (q.of_int (pos c.cseq)) in
      let c' = record c {
        link = record c.link { socket = (write_message q message c.socket).0 };
        cseq = c.cseq + 1;
        timer = to_i32 (timeout + 1000);
      } in
      wait_reply c.cseq c' es

  abbrev pub is_success : List (Signal q) → Bool
  is_success [] = false
  is_success (auth_success ∷ ss) = true
  is_success (s ∷ ss) = is_success ss

  abbrev pub is_close : Event q → Bool
  is_close window_closed = true
  is_close e = false

  -- The loop is quit by `onAuthSuccess`, and by `GretioMainWindow::close` if Qt connects that. The
  -- result is whether the status is `connected` then.
  unfoldable pub wait_for_open : Context q → List (Event q) → Waited q Bool
  wait_for_open c [] = starved
  wait_for_open c (e ∷ es) =
      let next = wait_for_open (handle e c).0 es in
      if is_success (handle e c).1 || (q.connects_close && is_close e)
      then finished (is_connected (handle e c).0.status) (handle e c).0 es
      else next
