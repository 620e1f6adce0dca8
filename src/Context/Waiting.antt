-- ===== src/Context/Waiting.antt =====
-- `waitForOpen` where Qt does not connect `GretioMainWindow::close`.
use qt_gretio.Prelude.{
  ℕ, zero, suc, ◌≡◌, refl, subst, ◌⊎◌, inl, inr, Bool, true, false, ◌&&◌, ◌||◌, List, [], ◌∷◌, ◌++◌,
  arith, ◌==◌, if◌then◌else◌, Bool-cases,
}
use qt_gretio.Qt.{Qt}
use qt_gretio.Socket.{on_message_received}
use qt_gretio.Auth.{Signal, auth_success, auth_fail, auth_pending, message_to_next, input_message}
use qt_gretio.Auth
use qt_gretio.Window.{show_error, show_auth_widget}
use qt_gretio.Context.{
  Context, Event, socket_connected, socket_disconnected, text_message, ssl_errors, ping_timer,
  request_timeout, service_found, connect_edited, connect_clicked, row_clicked, row_double_clicked,
  window_closed, starved, finished, is_connected, is_success, is_close, on_signal, on_signals,
  receive, deliver, handle, wait_for_open, Waited,
}

module _ (q : Qt) where
  -- Authenticated and connected.
  abbrev pub IsOpen : Context q → Type 0
  IsOpen c = (c.auth_complete ≡ true) × (is_connected c.status ≡ true)

  receive-success :
      (message : q.Str) (c : Context q)
      → is_success q (receive q message c).1 ≡ true
      → IsOpen (receive q message c).0
  unfolding receive on_message_received input_message on_signals on_signal show_error
      show_auth_widget
  receive-success message c h = ground arith

  receive-IsOpen : (message : q.Str) (c : Context q) → IsOpen c → IsOpen (receive q message c).0
  unfolding receive on_message_received input_message on_signals on_signal show_error
      show_auth_widget
  receive-IsOpen message c h = ground arith

  deliver-IsOpen :
      (n : ℕ) (message : q.Str) (c : Context q) → IsOpen c → IsOpen (deliver q n message c).0
  unfolding deliver
  deliver-IsOpen zero message c h = h
  deliver-IsOpen (suc n) message c h = elim (Bool-cases (c.socket.receivers == 0)) [
    | inl none_left ↦ rw none_left h
    | inr some_left ↦
        rw some_left (deliver-IsOpen n message (receive q message c).0 (receive-IsOpen message c h))
  ]

  is_success-append :
      (ss more : List (Signal q))
      → is_success q (ss ++ more) ≡ true
      → (is_success q ss ≡ true) ⊎ (is_success q more ≡ true)
  is_success-append [] more h = inr h
  is_success-append (auth_success ∷ ss) more h = inl refl
  is_success-append (auth_fail reason ∷ ss) more h = is_success-append ss more h
  is_success-append (auth_pending code ∷ ss) more h = is_success-append ss more h
  is_success-append (message_to_next json ∷ ss) more h = is_success-append ss more h

  deliver-success :
      (n : ℕ) (message : q.Str) (c : Context q)
      → is_success q (deliver q n message c).1 ≡ true
      → IsOpen (deliver q n message c).0
  unfolding deliver
  deliver-success zero message c = λ h. cc
  deliver-success (suc n) message c = elim (Bool-cases (c.socket.receivers == 0)) [
    | inl none_left ↦ rw none_left (λ h. cc)
    | inr some_left ↦ rw some_left (λ h.
        let c' = (receive q message c).0 in
        elim (is_success-append (receive q message c).1 (deliver q n message c').1 h) [
          | inl first ↦ deliver-IsOpen n message c' (receive-success message c first)
          | inr later ↦ deliver-success n message c' later
        ])
  ]

  handle-success :
      (e : Event q) (c : Context q) → is_success q (handle q e c).1 ≡ true → IsOpen (handle q e c).0
  unfolding handle Auth.on_connected
  handle-success (text_message message) c h = deliver-success c.socket.receivers message c h
  handle-success (socket_connected cert) c h = ground arith
  handle-success socket_disconnected c h = cc
  handle-success (ssl_errors errors) c h = cc
  handle-success (ping_timer is_valid) c h = cc
  handle-success request_timeout c h = cc
  handle-success (service_found zcs) c h = cc
  handle-success (connect_edited text) c h = cc
  handle-success connect_clicked c h = cc
  handle-success (row_clicked x) c h = cc
  handle-success (row_double_clicked x) c h = cc
  handle-success window_closed c h = cc

  abbrev Succeeds : Waited q Bool → Type 0
  Succeeds starved = Unit {0}
  Succeeds (finished opened d es) = (opened ≡ true) × IsOpen d

  step-Succeeds :
      (d : Context q) (es : List (Event q)) (b : Bool) (w : Waited q Bool)
      → (b ≡ true → IsOpen d)
      → Succeeds w
      → Succeeds (if b then finished (is_connected d.status) d es else w)
  step-Succeeds d es true w known h = ((known refl).1, known refl)
  step-Succeeds d es false w known h = h

  or-false : (a b c : Bool) → b ≡ false → (a || (b && c)) ≡ true → a ≡ true
  or-false a b c n h = ground arith

  wait_for_open-Succeeds :
      (c : Context q) (es : List (Event q))
      → q.connects_close ≡ false
      → Succeeds (wait_for_open q c es)
  unfolding wait_for_open
  wait_for_open-Succeeds c [] n = tt
  wait_for_open-Succeeds c (e ∷ es) n =
      step-Succeeds (handle q e c).0 es _ (wait_for_open q (handle q e c).0 es)
        (λ h. handle-success e c (or-false _ q.connects_close (is_close q e) n h))
        (wait_for_open-Succeeds (handle q e c).0 es n)

  -- If Qt makes no connection from `close`, waiting never ends without success: it returns only
  -- true, with a context that is connected and authenticated, also if the user closes the window.
  pub wait_for_open-IsOpen :
      (c d : Context q) (es rest : List (Event q)) (opened : Bool)
      → q.connects_close ≡ false
      → wait_for_open q c es ≡ finished opened d rest
      → (opened ≡ true) × IsOpen d
  wait_for_open-IsOpen c d es rest opened n h = subst Succeeds h (wait_for_open-Succeeds c es n)
