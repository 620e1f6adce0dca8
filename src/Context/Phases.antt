-- ===== src/Context/Phases.antt =====
-- The session as a state machine: what a context's status and its authentication may become, as a
-- relation of single steps, and that every event of a context is made of such steps.
use qt_gretio.Prelude.{
  ℕ, zero, suc, ◌+◌, ◌≡◌, refl, sym, subst, ◌⊎◌, inl, inr, Bool, true, false, Option, none, some,
  List, [], ◌∷◌, arith, ◌==◌, if◌then◌else◌, Bool-cases,
}
use qt_gretio.Qt.{Qt}
use qt_gretio.Auth.{Disk, Link, Signal, new_link, input_message}
use qt_gretio.Auth
use qt_gretio.Socket.{on_message_received}
use qt_gretio.Window.{check_url, row_selected, show_error, show_auth_widget}
use qt_gretio.Context.{
  Context, Event, Status, not_connected, wait_auth, connected, connecting, is_connected,
  socket_connected, socket_disconnected, text_message, ssl_errors, ping_timer, request_timeout,
  service_found, connect_edited, connect_clicked, row_clicked, row_double_clicked, window_closed,
  new_context, on_signal, on_signals, receive, deliver, select_url, click_row, handle,
}
use qt_gretio.Context.Evolution.{handle_all}

pub record Phase : Type 0 where
  pub status : Status
  pub complete : Bool

-- `grants` is the only step that completes the authentication, and the only one to `connected`.
pub data Step : Phase → Phase → Type 0 where
  connects : (p : Phase) → Step p (record p { status = wait_auth })
  drops : (p : Phase) → Step p (record p { status = not_connected })
  selects : (p : Phase) → Step p (record p { status = connecting })
  grants :
      (p : Phase) → p.complete ≡ false → Step p (record { status = connected; complete = true })

pub data Reach (s : Phase) : Phase → Type 0 where
  here : Reach s s
  next : {p r : Phase} → Reach s p → Step p r → Reach s r

Reach-trans : {s p r : Phase} → Reach s p → Reach p r → Reach s r
Reach-trans h here = h
Reach-trans h (next k st) = next (Reach-trans h k) st

once : {s p : Phase} → Step s p → Reach s p
once st = next here st

same-Reach : {p r : Phase} → r ≡ p → Reach p r
same-Reach {p} e = subst (Reach p) (sym e) here

-- How often a run grants a session.
abbrev pub is_grant : {p r : Phase} → Step p r → ℕ
is_grant (connects p) = 0
is_grant (drops p) = 0
is_grant (selects p) = 0
is_grant (grants p h) = 1

abbrev pub grants_in : {s p : Phase} → Reach s p → ℕ
grants_in here = 0
grants_in (next r st) = grants_in r + is_grant st

abbrev pub start : Phase
start = record { status = not_connected; complete = false }

-- What the steps keep: a connected phase is complete, and it has been granted once if it is
-- complete, else never.
pub record IsLegal (p : Phase) (granted : ℕ) : Type 0 where
  pub sound : is_connected p.status ≡ true → p.complete ≡ true
  pub counted : granted ≡ (if p.complete then 1 else 0)

step-IsLegal : {p r : Phase} (n : ℕ) (st : Step p r) → IsLegal p n → IsLegal r (n + is_grant st)
step-IsLegal n (connects p) h = record { sound = λ e. cc; counted = ground arith }
step-IsLegal n (drops p) h = record { sound = λ e. cc; counted = ground arith }
step-IsLegal n (selects p) h = record { sound = λ e. cc; counted = ground arith }
step-IsLegal n (grants p e) h = record { sound = λ k. refl; counted = ground arith }

pub Reach-IsLegal : {p : Phase} (r : Reach start p) → IsLegal p (grants_in r)
Reach-IsLegal here = record { sound = λ e. cc; counted = refl }
Reach-IsLegal (next r st) = step-IsLegal (grants_in r) st (Reach-IsLegal r)

module _ {q : Qt} where
  abbrev pub phase : Context q → Phase
  phase c = record { status = c.status; complete = c.auth_complete }

module _ (q : Qt) where
  -- A message that is received grants the session, or leaves the phase as it is.
  abbrev Moved : Context q → Context q → Type 0
  Moved c d =
      (phase d ≡ phase c)
      ⊎ ((c.auth_complete ≡ false) × (phase d ≡ record { status = connected; complete = true }))

  receive-Moved : (message : q.Str) (c : Context q) → Moved c (receive q message c).0
  unfolding receive on_message_received input_message on_signals on_signal show_error
      show_auth_widget
  receive-Moved message c = ground arith

  receive-Reach :
      (message : q.Str) (c : Context q) → Reach (phase c) (phase (receive q message c).0)
  receive-Reach message c = elim (receive-Moved message c) [
    | inl e ↦ same-Reach e
    | inr (pending, e) ↦ subst (Reach (phase c)) (sym e) (once (grants (phase c) pending))
  ]

  deliver-Reach :
      (n : ℕ) (message : q.Str) (c : Context q) → Reach (phase c) (phase (deliver q n message c).0)
  unfolding deliver
  deliver-Reach zero message c = here
  deliver-Reach (suc n) message c = elim (Bool-cases (c.socket.receivers == 0)) [
    | inl none_left ↦ rw none_left here
    | inr some_left ↦
        rw some_left
          (Reach-trans (receive-Reach message c) (deliver-Reach n message (receive q message c).0))
  ]

  select_url-Reach : (c : Context q) → Reach (phase c) (phase (select_url q c))
  unfolding select_url check_url
  select_url-Reach c = elim (Bool-cases (q.is_valid_url c.window.connect_edit)) [
    | inl valid ↦ rw (select_url, valid) (once (selects (phase c)))
    | inr bad ↦ rw (select_url, bad) here
  ]

  click_row-phase : (x : ℕ) (c : Context q) → phase (click_row q x c) ≡ phase c
  unfolding click_row row_selected
  click_row-phase x c = ground arith

  connect-phase :
      (cert : Option q.Key) (c : Context q)
      → phase (handle q (socket_connected cert) c).0 ≡ record (phase c) { status = wait_auth }
  unfolding handle Auth.on_connected on_signals on_signal show_error
  connect-phase none c = ground arith
  connect-phase (some key) c = ground arith

  pub handle-Reach : (e : Event q) (c : Context q) → Reach (phase c) (phase (handle q e c).0)
  unfolding handle
  handle-Reach (socket_connected cert) c =
      subst (Reach (phase c)) (sym (connect-phase cert c)) (once (connects (phase c)))
  handle-Reach socket_disconnected c = once (drops (phase c))
  handle-Reach (text_message message) c = deliver-Reach c.socket.receivers message c
  handle-Reach (ssl_errors errors) c = here
  handle-Reach (ping_timer is_valid) c = here
  handle-Reach request_timeout c = here
  handle-Reach (service_found zcs) c = here
  handle-Reach (connect_edited text) c = here
  handle-Reach connect_clicked c = select_url-Reach c
  handle-Reach (row_clicked x) c = same-Reach (click_row-phase x c)
  handle-Reach (row_double_clicked x) c =
      Reach-trans (same-Reach (click_row-phase x c)) (select_url-Reach (click_row q x c))
  handle-Reach window_closed c = here

  handle_all-Reach :
      (es : List (Event q)) (c : Context q) → Reach (phase c) (phase (handle_all q es c))
  unfolding handle_all
  handle_all-Reach [] c = here
  handle_all-Reach (e ∷ es) c =
      Reach-trans (handle-Reach e c) (handle_all-Reach es (handle q e c).0)

  -- Whatever events a new context handles, its status and its authentication run through the steps
  -- of the state machine from its start; the run grants a session once if the authentication is
  -- complete and never otherwise; and a context whose status is `connected` has been granted one.
  pub handle_all_refines :
      (disk : Disk q) (es : List (Event q))
      → let c = handle_all q es (new_context q disk) in
        (r : Reach start (phase c)) × (grants_in r ≡ (if c.auth_complete then 1 else 0))
        × (is_connected c.status ≡ true → grants_in r ≡ 1)
  unfolding new_context new_link
  handle_all_refines disk es =
      let r : Reach start (phase (handle_all q es (new_context q disk))) =
        handle_all-Reach es (new_context q disk) in
      let legal = Reach-IsLegal r in
      (r, legal.counted, λ h. ground (arith, legal.counted, legal.sound h))
