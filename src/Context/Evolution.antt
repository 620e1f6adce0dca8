-- ===== src/Context/Evolution.antt =====
-- What every event does to a context: the number of the next request stays, and authentication is
-- tied to the status.
use qt_gretio.Prelude.{
  ℕ, zero, suc, ◌≡◌, refl, ◌∙◌, inl, inr, true, false, Option, none, some, List, [], ◌∷◌, arith,
  ◌==◌, Bool-cases, length, length-append,
}
use qt_gretio.Qt.{Qt}
use qt_gretio.Socket.{on_message_received}
use qt_gretio.Auth.{
  Link, Signal, auth_success, auth_fail, auth_pending, message_to_next, input_message,
}
use qt_gretio.Auth
use qt_gretio.Window.{
  Window, add_service, show_error, show_auth_widget, show_discovery, check_url, row_selected,
}
use qt_gretio.Context.{
  Context, Event, is_connected, socket_connected, socket_disconnected, text_message, ssl_errors,
  ping_timer, request_timeout, service_found, connect_edited, connect_clicked, row_clicked,
  row_double_clicked, window_closed, on_signal, on_signals, receive, deliver, select_url, click_row,
  handle,
}

module _ {q : Qt} where
  -- A connected context has been authenticated.
  abbrev pub IsSound : Context q → Type 0
  IsSound c = is_connected c.status ≡ true → c.auth_complete ≡ true

  -- The handler takes itself for authenticated, and the status is not `connected`.
  abbrev pub IsStuck : Context q → Type 0
  IsStuck c = (c.auth_complete ≡ true) × (is_connected c.status ≡ false)

  -- Each row of the table stands for a service.
  abbrev pub IsListed : Window q → Type 0
  IsListed w = length w.rows ≡ length w.services

  pub record Evolves (c d : Context q) : Type 0 where
    pub same_number : d.cseq ≡ c.cseq
    pub stays_complete : c.auth_complete ≡ true → d.auth_complete ≡ true
    pub stays_sound : IsSound c → IsSound d
    pub stays_stuck : IsStuck c → IsStuck d
    pub stays_listed : IsListed c.window → IsListed d.window
    pub same_stack : d.window.stack ≡ c.window.stack
    pub same_finder : d.finder ≡ c.finder

  pub Evolves-refl : (c : Context q) → Evolves c c
  Evolves-refl c = record {
    same_number = refl;
    stays_complete = λ h. h;
    stays_sound = λ h. h;
    stays_stuck = λ h. h;
    stays_listed = λ h. h;
    same_stack = refl;
    same_finder = refl;
  }

  pub Evolves-trans : {c d e : Context q} → Evolves c d → Evolves d e → Evolves c e
  Evolves-trans r s = record {
    same_number = s.same_number ∙ r.same_number;
    stays_complete = λ h. s.stays_complete (r.stays_complete h);
    stays_sound = λ h. s.stays_sound (r.stays_sound h);
    stays_stuck = λ h. s.stays_stuck (r.stays_stuck h);
    stays_listed = λ h. s.stays_listed (r.stays_listed h);
    same_stack = s.same_stack ∙ r.same_stack;
    same_finder = s.same_finder ∙ r.same_finder;
  }

module _ (q : Qt) where
  receive-Evolves : (message : q.Str) (c : Context q) → Evolves c (receive q message c).0
  unfolding receive on_message_received input_message on_signals on_signal show_error
      show_auth_widget
  receive-Evolves message c = ground arith

  deliver-Evolves : (n : ℕ) (message : q.Str) (c : Context q) → Evolves c (deliver q n message c).0
  unfolding deliver
  deliver-Evolves zero message c = Evolves-refl c
  deliver-Evolves (suc n) message c = elim (Bool-cases (c.socket.receivers == 0)) [
    | inl none_left ↦ rw none_left (Evolves-refl c)
    | inr some_left ↦ rw some_left (
        Evolves-trans (receive-Evolves message c)
          (deliver-Evolves n message (receive q message c).0))
  ]

  select_url-Evolves : (c : Context q) → Evolves c (select_url q c)
  unfolding select_url check_url
  select_url-Evolves c = ground arith

  click_row-Evolves : (x : ℕ) (c : Context q) → Evolves c (click_row q x c)
  unfolding click_row row_selected
  click_row-Evolves x c = ground arith

  connect-Evolves :
      (cert : Option q.Key) (c : Context q) → Evolves c (handle q (socket_connected cert) c).0
  unfolding handle Auth.on_connected on_signals on_signal show_error
  connect-Evolves none c = ground arith
  connect-Evolves (some key) c = ground arith

  pub handle-Evolves : (e : Event q) (c : Context q) → Evolves c (handle q e c).0
  unfolding handle add_service show_discovery
  handle-Evolves (socket_connected cert) c = connect-Evolves cert c
  handle-Evolves socket_disconnected c = ground arith
  handle-Evolves (text_message message) c = deliver-Evolves c.socket.receivers message c
  handle-Evolves (ssl_errors errors) c = ground arith
  handle-Evolves (ping_timer is_valid) c = ground arith
  handle-Evolves request_timeout c = Evolves-refl c
  handle-Evolves (service_found zcs) c = ground (
    arith,
    length-append c.window.rows ((zcs.name, zcs.ip) ∷ []),
    length-append c.window.services (zcs ∷ []),
  )
  handle-Evolves (connect_edited text) c = ground arith
  handle-Evolves connect_clicked c = select_url-Evolves c
  handle-Evolves (row_clicked x) c = click_row-Evolves x c
  handle-Evolves (row_double_clicked x) c =
      Evolves-trans (click_row-Evolves x c) (select_url-Evolves (click_row q x c))
  handle-Evolves window_closed c = ground arith

  -- The context after a list of events.
  unfoldable pub handle_all : List (Event q) → Context q → Context q
  handle_all [] c = c
  handle_all (e ∷ es) c = handle_all es (handle q e c).0

  -- Whatever events a context handles: the number of its next request stays, a context that is
  -- connected only if authenticated stays so, one that is authenticated but not connected stays
  -- that, the rows of the table go on matching the services, and the pages of the window and the
  -- search for services stay what they are.
  pub handle_all-Evolves : (es : List (Event q)) (c : Context q) → Evolves c (handle_all es c)
  unfolding handle_all
  handle_all-Evolves [] c = Evolves-refl c
  handle_all-Evolves (e ∷ es) c =
      Evolves-trans (handle-Evolves e c) (handle_all-Evolves es (handle q e c).0)

  -- Once authentication is complete it stays so, through disconnections and new connections too;
  -- and a context that is authenticated but whose status is not `connected` (which is what a
  -- connection that follows another one leaves, as `connect-IsStuck` shows) never becomes
  -- connected again, whatever happens.
  pub handle_all-IsStuck :
      (es : List (Event q)) (c : Context q) → IsStuck c → IsStuck (handle_all es c)
  handle_all-IsStuck es c h = (handle_all-Evolves es c).stays_stuck h

  -- A connection on a context that has been authenticated before makes it stuck.
  pub connect-IsStuck :
      (cert : Option q.Key) (c : Context q)
      → c.auth_complete ≡ true
      → IsStuck (handle q (socket_connected cert) c).0
  unfolding handle Auth.on_connected on_signals on_signal
  connect-IsStuck none c h = ground arith
  connect-IsStuck (some key) c h = ground arith

  -- Whenever authentication has completed once and the socket then connects again, no further
  -- events bring the status back to `connected`.
  pub reconnect_never_connected :
      (cert : Option q.Key) (es : List (Event q)) (c : Context q)
      → c.auth_complete ≡ true
      → is_connected (handle_all (socket_connected cert ∷ es) c).status ≡ false
  unfolding handle_all
  reconnect_never_connected cert es c h =
      (handle_all-IsStuck es (handle q (socket_connected cert) c).0 (connect-IsStuck cert c h)).1
