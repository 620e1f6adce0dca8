-- ===== src/Context/Delivery.antt =====
-- How often a message is delivered: once for each connection of the slot.
use qt_gretio.Prelude.{
  ℕ, zero, suc, ◌≡◌, refl, sym, ap, ◌∙◌, inl, inr, true, false, some, [], ◌∷◌, arith, ◌==◌,
  Bool-cases, replicate,
}
use qt_gretio.Qt.{Qt}
use qt_gretio.Auth.{Signal, message_to_next}
use qt_gretio.Auth
use qt_gretio.Socket
use qt_gretio.Socket.{write_message}
use qt_gretio.Context.{
  Context, socket_connected, socket_disconnected, text_message, on_signals, receive, deliver,
  handle,
}
use qt_gretio.Context.Evolution.{handle_all}
use qt_gretio.Context.Replies.{receive-forwards}

module _ (q : Qt) (message : q.Str) (json : q.Object)
    (parses : q.from_json message ≡ some json) where
  deliver-replicate :
      (n : ℕ) (c : Context q)
      → c.auth_complete ≡ true
      → (c.socket.receivers == 0) ≡ false
      → (deliver q n message c).1 ≡ replicate n (message_to_next json)
  unfolding deliver
  deliver-replicate zero c h r = refl
  deliver-replicate (suc n) c h r = ground (
    arith,
    receive-forwards q message json parses c h,
    deliver-replicate n (receive q message c).0,
  )

  none_connected :
      (c : Context q) → c.socket.receivers ≡ 0 → (deliver q c.socket.receivers message c).1 ≡ []
  unfolding deliver
  none_connected c e = rw e

  -- On an authenticated context a message is forwarded once for each connection of the slot.
  pub handle-replicate :
      (c : Context q)
      → c.auth_complete ≡ true
      → (handle q (text_message message) c).1 ≡ replicate c.socket.receivers (message_to_next json)
  unfolding handle
  handle-replicate c h = elim (Bool-cases (c.socket.receivers == 0)) [
    | inl none_left ↦
        let no_slot : c.socket.receivers ≡ 0 = ground arith in
        none_connected c no_slot ∙ ap (λ (n : ℕ). replicate n (message_to_next json)) (sym no_slot)
    | inr some_left ↦ deliver-replicate c.socket.receivers c h some_left
  ]

  abbrev again : Context q → q.Key → Context q
  again c key = handle_all q (socket_disconnected ∷ socket_connected (some key) ∷ []) c

  again_known :
      (c : Context q) (key : q.Key)
      → c.auth_complete ≡ true
      → ((again c key).auth_complete ≡ true)
        × ((again c key).socket.receivers ≡ suc c.socket.receivers)
  unfolding handle_all handle Auth.on_connected Socket.on_connected on_signals write_message
  again_known c key h = ground arith

  -- A socket that the server drops and that then connects again keeps its old slots: on a context
  -- that has been authenticated every message is from then on delivered one time more.
  pub reconnect_duplicates :
      (c : Context q) (key : q.Key)
      → c.auth_complete ≡ true
      → (handle q
          (text_message message)
          (handle_all q (socket_disconnected ∷ socket_connected (some key) ∷ []) c)).1
        ≡ message_to_next json ∷ (handle q (text_message message) c).1
  reconnect_duplicates c key h =
      handle-replicate (again c key) (again_known c key h).0
      ∙ ap (λ (n : ℕ). replicate n (message_to_next json)) (again_known c key h).1
      ∙ ap (λ ss. message_to_next json ∷ ss) (sym (handle-replicate c h))
