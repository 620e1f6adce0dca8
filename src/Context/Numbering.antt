-- ===== src/Context/Numbering.antt =====
-- What a context has sent: the messages of the authentication, and requests with successive numbers.
use qt_gretio.Prelude.{
  ℕ, zero, suc, ◌+◌, ◌≡◌, refl, ◌∙◌, subst, ◌⊎◌, inl, inr, Bool, true, false, ◌&&◌, ◌||◌, Option,
  none, some, List, [], ◌∷◌, arith, ◌==◌, if◌then◌else◌, Bool-cases, pos,
}
use qt_gretio.Qt.{Qt}
use qt_gretio.Auth.{Disk, Link, Signal, new_link, input_message, request_object, get_token_for_key}
use qt_gretio.Auth
use qt_gretio.Socket.{
  on_message_received, new_socket, write_message, close, connect_now, on_connected, on_ssl_errors,
  ping, ping_timeout, Socket, SslError,
}
use qt_gretio.Window.{check_url, row_selected, show_error, show_auth_widget}
use qt_gretio.Context.{
  Context, Event, Waited, starved, finished, socket_connected, socket_disconnected, text_message,
  ssl_errors, ping_timer, request_timeout, service_found, connect_edited, connect_clicked,
  row_clicked, row_double_clicked, window_closed, new_context, on_signal, on_signals, receive,
  deliver, select_url, click_row, handle, reply_in, wait_reply, wait_for_open, send_receive_cseq,
  is_success, is_close, is_connected,
}

module _ (q : Qt) where
  -- The messages of the authentication: the request of a token, the token, and the begin of the
  -- session.
  pub data IsGreeting : q.Object → Type 0 where
    asks : IsGreeting (q.insert (request_object q 80) "requestNewToken" (q.of_bool true))
    presents :
        (token : q.Str) → IsGreeting (q.insert (request_object q 80) "token" (q.of_str token))
    begins : IsGreeting (request_object q 9000)

  -- Texts that were sent, the newest first, with the number of the next request.
  pub data Numbered : ℕ → List q.Str → Type 0 where
    silent : Numbered 0 []
    greeting :
        {n : ℕ} {sent : List q.Str} (debug : Bool) (o : q.Object)
        → IsGreeting o
        → Numbered n sent
        → Numbered n (q.to_json debug o ∷ sent)
    request :
        {n : ℕ} {sent : List q.Str} (debug : Bool) (o : q.Object)
        → Numbered n sent
        → Numbered (suc n) (q.to_json debug (q.insert o "cseq" (q.of_int (pos n))) ∷ sent)

  abbrev pub IsNumbered : Context q → Type 0
  IsNumbered c = Numbered c.cseq c.socket.sent

  receive-cases :
      (message : q.Str) (c : Context q)
      → let d = (receive q message c).0 in
        (d.cseq ≡ c.cseq)
        × ((d.socket.sent ≡ c.socket.sent)
            ⊎ (d.socket.sent ≡ q.to_json c.socket.debug (request_object q 9000) ∷ c.socket.sent))
  unfolding receive on_message_received input_message on_signals on_signal show_error
      show_auth_widget close
  receive-cases message c = ground arith

  receive-IsNumbered :
      (message : q.Str) (c : Context q) → IsNumbered c → IsNumbered (receive q message c).0
  receive-IsNumbered message c h =
      let cases = receive-cases message c in
      elim cases.1 [
        | inl e ↦ rw (cases.0, e) h
        | inr e ↦ rw (cases.0, e) (greeting c.socket.debug _ begins h)
      ]

  deliver-IsNumbered :
      (n : ℕ) (message : q.Str) (c : Context q)
      → IsNumbered c
      → IsNumbered (deliver q n message c).0
  unfolding deliver
  deliver-IsNumbered zero message c h = h
  deliver-IsNumbered (suc n) message c h = elim (Bool-cases (c.socket.receivers == 0)) [
    | inl none_left ↦ rw none_left h
    | inr some_left ↦
        rw some_left
          (deliver-IsNumbered n message (receive q message c).0 (receive-IsNumbered message c h))
  ]

  connect-IsNumbered :
      (cert : Option q.Key) (c : Context q)
      → IsNumbered c
      → IsNumbered (handle q (socket_connected cert) c).0
  unfolding handle Auth.on_connected on_connected on_signals on_signal show_error close
  connect-IsNumbered none c h = h
  connect-IsNumbered (some key) c h =
      elim (Bool-cases (q.is_null (get_token_for_key q c.disk key))) [
        | inl missing ↦ rw missing (greeting c.socket.debug _ asks h)
        | inr found ↦
            rw found (greeting c.socket.debug _ (presents (get_token_for_key q c.disk key)) h)
      ]

  select_url-IsNumbered : (c : Context q) → IsNumbered c → IsNumbered (select_url q c)
  unfolding select_url check_url connect_now
  select_url-IsNumbered c h = elim (Bool-cases (q.is_valid_url c.window.connect_edit)) [
    | inl valid ↦ rw (select_url, valid) h
    | inr bad ↦ rw (select_url, bad) h
  ]

  click_row-IsNumbered : (x : ℕ) (c : Context q) → IsNumbered c → IsNumbered (click_row q x c)
  unfolding click_row row_selected
  click_row-IsNumbered x c h =
      let same : ((click_row q x c).cseq ≡ c.cseq)
          × ((click_row q x c).socket.sent ≡ c.socket.sent) =
        ground arith in
      rw (same.0, same.1) h

  ssl-sent : (errors : List SslError) (s : Socket q) → (on_ssl_errors q errors s).sent ≡ s.sent
  unfolding on_ssl_errors
  ssl-sent errors s = ground arith

  ping-sent : (n : ℕ) (is_valid : Bool) (s : Socket q) → (ping_timeout q n is_valid s).sent ≡ s.sent
  unfolding ping_timeout ping
  ping-sent zero is_valid s = refl
  ping-sent (suc n) is_valid s = ping-sent n is_valid (ping q is_valid s) ∙ ground arith

  pub handle-IsNumbered : (e : Event q) (c : Context q) → IsNumbered c → IsNumbered (handle q e c).0
  unfolding handle
  handle-IsNumbered (socket_connected cert) c h = connect-IsNumbered cert c h
  handle-IsNumbered socket_disconnected c h = h
  handle-IsNumbered (text_message message) c h = deliver-IsNumbered c.socket.receivers message c h
  handle-IsNumbered (ssl_errors errors) c h = rw (ssl-sent errors c.socket) h
  handle-IsNumbered (ping_timer is_valid) c h = rw (ping-sent c.socket.pingers is_valid c.socket) h
  handle-IsNumbered request_timeout c h = h
  handle-IsNumbered (service_found zcs) c h = h
  handle-IsNumbered (connect_edited text) c h = h
  handle-IsNumbered connect_clicked c h = select_url-IsNumbered c h
  handle-IsNumbered (row_clicked x) c h = click_row-IsNumbered x c h
  handle-IsNumbered (row_double_clicked x) c h =
      select_url-IsNumbered (click_row q x c) (click_row-IsNumbered x c h)
  handle-IsNumbered window_closed c h = h

  -- What the loops leave, whenever they end.
  abbrev Leaves {ℓ} : {A : Type ℓ} → Waited q A → Type 0
  Leaves starved = Unit {0}
  Leaves (finished a d es) = IsNumbered d

  step-Leaves {ℓ} :
      {A : Type ℓ} (o : Option A) (x : A → Waited q (Option A)) (w : Waited q (Option A))
      → ((a : A) → Leaves (x a))
      → Leaves w
      → Leaves (elim o [ some a ↦ x a | none ↦ w ])
  step-Leaves none x w f h = h
  step-Leaves (some a) x w f h = f a

  wait_reply-Leaves :
      (n : ℕ) (c : Context q) (es : List (Event q)) → IsNumbered c → Leaves (wait_reply q n c es)
  unfolding wait_reply
  wait_reply-Leaves n c [] h = tt
  wait_reply-Leaves n c (request_timeout ∷ es) h = h
  wait_reply-Leaves n c (e ∷ es) h =
      let later = handle-IsNumbered e c h in
      step-Leaves (reply_in q n (handle q e c).1) _ _ (λ o. later)
        (wait_reply-Leaves n (handle q e c).0 es later)

  if-Leaves {ℓ} :
      {A : Type ℓ} (b : Bool) (v w : Waited q A) → Leaves v → Leaves w → Leaves (if b then v else w)
  if-Leaves true v w h k = h
  if-Leaves false v w h k = k

  wait_for_open-Leaves :
      (c : Context q) (es : List (Event q)) → IsNumbered c → Leaves (wait_for_open q c es)
  unfolding wait_for_open
  wait_for_open-Leaves c [] h = tt
  wait_for_open-Leaves c (e ∷ es) h =
      let later = handle-IsNumbered e c h in
      if-Leaves (is_success q (handle q e c).1 || q.connects_close && is_close q e)
        (finished (is_connected (handle q e c).0.status) (handle q e c).0 es) _ later
        (wait_for_open-Leaves (handle q e c).0 es later)

  next_number : {n : ℕ} {sent : List q.Str} → Numbered (suc n) sent → Numbered (n + 1) sent
  next_number {n} {sent} h = let e : n + 1 ≡ suc n = omega arith in rw e h

  -- A request takes the next number.
  pub send_receive_cseq-IsNumbered :
      (to_send : q.Object) (timeout : ℕ) (c d : Context q) (es rest : List (Event q))
      (r : Option q.Object)
      → send_receive_cseq q to_send timeout c es ≡ finished r d rest
      → IsNumbered c
      → IsNumbered d
  unfolding send_receive_cseq write_message
  send_receive_cseq-IsNumbered to_send timeout c d es rest r e h =
      subst Leaves e
        (wait_reply-Leaves c.cseq _ es (next_number (request c.socket.debug to_send h)))

  pub wait_for_open-IsNumbered :
      (disk : Disk q) (d : Context q) (es rest : List (Event q)) (opened : Bool)
      → wait_for_open q (new_context q disk) es ≡ finished opened d rest
      → IsNumbered d
  unfolding new_context new_link new_socket
  wait_for_open-IsNumbered disk d es rest opened e =
      subst Leaves e (wait_for_open-Leaves (new_context q disk) es silent)
