-- ===== src/Context/Exchange.antt =====
-- One request and what ends it, when nothing comes before: the answer of the server, or the timer.
use qt_gretio.Prelude.{
  ℕ, zero, suc, ◌+◌, ◌<◌, ◌≡◌, refl, true, none, some, List, ◌∷◌, arith, pos, to_i32,
}
use qt_gretio.Qt.{Qt}
use qt_gretio.Socket.{write_message, on_message_received}
use qt_gretio.Auth.{input_message}
use qt_gretio.Context.{
  Context, Event, finished, text_message, request_timeout, handle, receive, deliver, on_signals,
  on_signal, wait_reply, send_receive_cseq,
}
use qt_gretio.Context.Replies.{Answers, receive-forwards, wait_reply-first}

module _ (q : Qt) where
  -- The text of a request with its number.
  abbrev pub request_text : q.Object → Context q → q.Str
  request_text message c =
      q.to_json c.socket.debug (q.insert message "cseq" (q.of_int (pos c.cseq)))

  -- The context once the request is sent.
  abbrev pub asked : q.Object → ℕ → Context q → Context q
  asked message timeout c = record c {
    link = record c.link {
      socket = record c.socket { sent = request_text message c ∷ c.socket.sent };
    };
    cseq = c.cseq + 1;
    timer = to_i32 (timeout + 1000);
  }

  pub send_receive_cseq-timeout :
      (message : q.Object) (timeout : ℕ) (c : Context q) (es : List (Event q))
      → send_receive_cseq q message timeout c (request_timeout ∷ es)
        ≡ finished none (asked message timeout c) es
  unfolding send_receive_cseq wait_reply write_message
  send_receive_cseq-timeout message timeout c es = refl

  -- A context with a session, on a socket that is connected.
  pub record CanReceive (c : Context q) : Type 0 where
    pub has_session : c.auth_complete ≡ true
    pub has_receiver : 0 < c.socket.receivers

  module _ (text : q.Str) (json : q.Object) (parses : q.from_json text ≡ some json) where
    receive-silent :
        (c : Context q)
        → c.auth_complete ≡ true
        → ((receive q text c).0.socket.sent ≡ c.socket.sent) × ((receive q text c).0.cseq ≡ c.cseq)
    unfolding receive on_message_received input_message on_signals on_signal
    receive-silent c h = ground (arith, parses)

    deliver-silent :
        (n : ℕ) (c : Context q)
        → c.auth_complete ≡ true
        → ((deliver q n text c).0.socket.sent ≡ c.socket.sent)
          × ((deliver q n text c).0.cseq ≡ c.cseq)
    unfolding deliver
    deliver-silent zero c h = (refl, refl)
    deliver-silent (suc n) c h = ground (
      arith,
      receive-silent c h,
      deliver-silent n (receive q text c).0 (receive-forwards q text json parses c h).2,
    )

    -- What is left of a request that is answered at once.
    pub send_receive_cseq-answered :
        (message : q.Object) (timeout : ℕ) (c : Context q) (es : List (Event q))
        → CanReceive c
        → Answers q c.cseq json
        → (d : Context q) × (send_receive_cseq q message timeout c (text_message text ∷ es)
            ≡ finished (some json) d es)
          × (d.socket.sent ≡ request_text message c ∷ c.socket.sent)
          × (d.cseq ≡ c.cseq + 1)
    unfolding send_receive_cseq write_message handle
    send_receive_cseq-answered message timeout c es can a =
        let b = asked message timeout c in
        let found =
          wait_reply-first q text json parses c.cseq b es can.has_session can.has_receiver a in
        let quiet = deliver-silent c.socket.receivers b can.has_session in
        ((handle q (text_message text) b).0, found, quiet.0, quiet.1)
