-- ===== src/Context/Replies.antt =====
-- `sendReceiveCseq`: a request is answered by the message that carries its number, or times out.
use qt_gretio.Prelude.{
  ℕ, zero, suc, ◌+◌, ◌-◌, ◌<◌, ◌≡◌, refl, sym, ap, ◌∙◌, subst, inl, inr, true, false, Option, none,
  some, List, [], ◌∷◌, ◌++◌, arith, ◌==◌, Option-cases, pos, negsuc, eqb_ℤ, eqb_ℤ→eq,
}
use qt_gretio.Qt.{Qt}
use qt_gretio.Socket.{on_message_received}
use qt_gretio.Auth.{input_message, Signal, auth_success, auth_fail, auth_pending, message_to_next}
use qt_gretio.Context.Evolution.{Evolves, IsSound, Evolves-refl, Evolves-trans, handle-Evolves}
use qt_gretio.Context.{
  Context, Event, Waited, starved, finished, text_message, request_timeout, handle, receive,
  deliver, on_signals, on_signal, reply_in, wait_reply, send_receive_cseq,
}

module _ (q : Qt) where
  abbrev pub Answers : ℕ → q.Object → Type 0
  Answers n o = eqb_ℤ (q.to_int (negsuc 0) (q.value o "cseq")) (pos n) ≡ true

  reply_in-Answers :
      (n : ℕ) (ss : List (Signal q)) (o : q.Object) → reply_in q n ss ≡ some o → Answers n o
  unfolding reply_in
  reply_in-Answers n [] o h = cc
  reply_in-Answers n (auth_success ∷ ss) o h = reply_in-Answers n ss o h
  reply_in-Answers n (auth_fail reason ∷ ss) o h = reply_in-Answers n ss o h
  reply_in-Answers n (auth_pending code ∷ ss) o h = reply_in-Answers n ss o h
  reply_in-Answers n (message_to_next json ∷ ss) o h = ground (arith, reply_in-Answers n ss o)

  -- What is known when the loop ends.
  abbrev pub EndsWell : ℕ → Context q → Waited q (Option q.Object) → Type 0
  EndsWell n c starved = Unit {0}
  EndsWell n c (finished none d es) = Evolves c d
  EndsWell n c (finished (some o) d es) = Evolves c d × Answers n o

  EndsWell-later :
      (n : ℕ) {c d : Context q} (w : Waited q (Option q.Object))
      → Evolves c d
      → EndsWell n d w
      → EndsWell n c w
  EndsWell-later n starved r h = tt
  EndsWell-later n (finished none d es) r h = Evolves-trans r h
  EndsWell-later n (finished (some o) d es) r h = (Evolves-trans r h.0, h.1)

  -- The step of the loop for an event that is not the timeout.
  step-EndsWell :
      (n : ℕ) (e : Event q) (c : Context q) (es : List (Event q)) (w : Waited q (Option q.Object))
      → EndsWell n (handle q e c).0 w
      → EndsWell n c (elim (reply_in q n (handle q e c).1) [
        | some json ↦ finished (some json) (handle q e c).0 es
        | none ↦ w
      ])
  step-EndsWell n e c es w h = elim (Option-cases (reply_in q n (handle q e c).1)) [
    | inl missing ↦ rw missing (EndsWell-later n w (handle-Evolves q e c) h)
    | inr (o, found) ↦ rw found (handle-Evolves q e c, reply_in-Answers n _ o found)
  ]

  wait_reply-EndsWell :
      (n : ℕ) (c : Context q) (es : List (Event q)) → EndsWell n c (wait_reply q n c es)
  unfolding wait_reply
  wait_reply-EndsWell n c [] = tt
  wait_reply-EndsWell n c (request_timeout ∷ es) = Evolves-refl c
  wait_reply-EndsWell n c (e ∷ es) =
      step-EndsWell n e c es (wait_reply q n (handle q e c).0 es)
        (wait_reply-EndsWell n (handle q e c).0 es)

  EndsWell-some :
      (n : ℕ) (c : Context q) {w : Waited q (Option q.Object)} (o : q.Object) (d : Context q)
      (es : List (Event q))
      → EndsWell n c w
      → w ≡ finished (some o) d es
      → Evolves c d × Answers n o
  EndsWell-some n c o d es h e = subst (EndsWell n c) e h

  EndsWell-finished :
      (n : ℕ) (c : Context q) {w : Waited q (Option q.Object)} (r : Option q.Object) (d : Context q)
      (es : List (Event q))
      → EndsWell n c w
      → w ≡ finished r d es
      → Evolves c d
  EndsWell-finished n c none d es h e = subst (EndsWell n c) e h
  EndsWell-finished n c (some o) d es h e = (subst (EndsWell n c) e h).0

  pub send_receive_cseq-IsSound :
      (to_send : q.Object) (timeout : ℕ) (c d : Context q) (es rest : List (Event q))
      (r : Option q.Object)
      → send_receive_cseq q to_send timeout c es ≡ finished r d rest
      → IsSound c
      → IsSound d
  unfolding send_receive_cseq
  send_receive_cseq-IsSound to_send timeout c d es rest r h v =
      (EndsWell-finished c.cseq _ r d rest (wait_reply-EndsWell c.cseq _ es) h).stays_sound v

  -- A request that is answered is answered by a message that carries the number it was sent with,
  -- and with any outcome the next request takes the next number.
  pub send_receive_cseq-Answers :
      (to_send : q.Object) (timeout : ℕ) (c d : Context q) (es rest : List (Event q))
      (r : Option q.Object)
      → send_receive_cseq q to_send timeout c es ≡ finished r d rest
      → (d.cseq ≡ c.cseq + 1)
        × ((o : q.Object) → r ≡ some o → q.to_int (negsuc 0) (q.value o "cseq") ≡ pos c.cseq)
  unfolding send_receive_cseq
  send_receive_cseq-Answers to_send timeout c d es rest r h = (
    (EndsWell-finished c.cseq _ r d rest (wait_reply-EndsWell c.cseq _ es) h).same_number,
    λ o e.
        eqb_ℤ→eq _ _
          (EndsWell-some c.cseq _ o d rest (wait_reply-EndsWell c.cseq _ es)
            (h ∙ ap (λ r'. finished r' d rest) e)).1,
  )

  -- The loop ends at the latest when the timer fires.
  wait_reply-total :
      (n : ℕ) (c : Context q) (before after : List (Event q))
      → (r : Option q.Object) × (d : Context q) × (rest : List (Event q)) × (wait_reply q n c
            (before ++ request_timeout ∷ after)
          ≡ finished r d rest)
  unfolding wait_reply
  wait_reply-total n c [] after = (none, c, after, refl)
  wait_reply-total n c (request_timeout ∷ es) after = (none, c, es ++ request_timeout ∷ after, refl)
  wait_reply-total n c (e ∷ es) after = elim (Option-cases (reply_in q n (handle q e c).1)) [
    | inl missing ↦ rw (missing, wait_reply) (wait_reply-total n (handle q e c).0 es after)
    | inr (o, found) ↦
        (some o, (handle q e c).0, es ++ request_timeout ∷ after, rw (found, wait_reply))
  ]

  -- A request returns whenever its timer fires among the events that follow, whatever else happens.
  pub send_receive_cseq-total :
      (to_send : q.Object) (timeout : ℕ) (c : Context q) (before after : List (Event q))
      → (r : Option q.Object) × (d : Context q) × (rest : List (Event q)) × (send_receive_cseq q
            to_send timeout c
            (before ++ request_timeout ∷ after)
          ≡ finished r d rest)
  unfolding send_receive_cseq
  send_receive_cseq-total to_send timeout c before after = wait_reply-total c.cseq _ before after

module _ (q : Qt) (message : q.Str) (json : q.Object)
    (parses : q.from_json message ≡ some json) where
  -- On an authenticated context a message is forwarded, and the slots stay connected.
  pub receive-forwards :
      (c : Context q)
      → c.auth_complete ≡ true
      → ((receive q message c).1 ≡ message_to_next json ∷ [])
        × ((receive q message c).0.socket.receivers ≡ c.socket.receivers)
        × ((receive q message c).0.auth_complete ≡ true)
  unfolding receive on_message_received input_message on_signals on_signal
  receive-forwards c h = ground (arith, parses)

  deliver-forwards :
      (n k : ℕ) (c : Context q)
      → c.auth_complete ≡ true
      → (c.socket.receivers == 0) ≡ false
      → Answers q k json
      → reply_in q k (deliver q (suc n) message c).1 ≡ some json
  unfolding deliver reply_in
  deliver-forwards zero k c h r a = ground (arith, receive-forwards c h)
  deliver-forwards (suc n) k c h r a =
      ground (arith, receive-forwards c h, deliver-forwards n k (receive q message c).0)

  -- The context it leaves is the one that has handled the message.
  pub wait_reply-first :
      (k : ℕ) (c : Context q) (es : List (Event q))
      → c.auth_complete ≡ true
      → 0 < c.socket.receivers
      → Answers q k json
      → wait_reply q k c (text_message message ∷ es)
        ≡ finished (some json) (handle q (text_message message) c).0 es
  unfolding wait_reply handle
  wait_reply-first k c es h r a = rw (found, wait_reply)
    where
      one : c.socket.receivers ≡ suc (c.socket.receivers - 1)
      one = omega arith

      found : reply_in q k (deliver q c.socket.receivers message c).1 ≡ some json
      found =
          subst (λ n. reply_in q k (deliver q n message c).1 ≡ some json) (sym one)
            (deliver-forwards (c.socket.receivers - 1) k c h (ground arith) a)
