-- ===== src/PassThru/Carrying.antt =====
-- SurrealJ2534Wrapper/J2534.cpp: the messages of the bus on their way from a program to the server,
-- and from the server to a program.
use qt_gretio.Prelude.{
  ℕ, ◌≤◌, ◌≡◌, refl, sym, ap, ◌∙◌, subst, ◌≢◌, ◌↔◌, inl, inr, some, List, ◌∷◌, Option-cases, length,
  take, some-injective, some_is_none,
}
use qt_gretio.Qt.{Qt, QtLaws}
use qt_gretio.J2534.{PassthruMsg}
use qt_gretio.Context.{Context, Event, text_message, send_receive_cseq}
use qt_gretio.Context.Replies.{Answers}
use qt_gretio.Context.Exchange.{request_text, CanReceive, send_receive_cseq-answered}
use qt_gretio.PassThru.{Globals, fault, returned, done, request, pass_thru_result}
use qt_gretio.PassThru.Transfer.{
  with_timeout, store_msgs, send_msgs, copy_msgs, encode_msgs, pass_thru_read_msgs,
  pass_thru_write_msgs,
}
use qt_gretio.PassThru.Transfer.Buffers.{
  AllSized, all_received, copy_msgs-encode_msgs, copy_msgs_bounds,
}
use qt_gretio.PassThru.Asking.{bind-returned, answers, request-finished}
use qt_gretio.PassThru.Asking.Messages.{read_message_of, write_message_of, write_msgs-opened}

returned_is_fault : {q : Qt} {A : Type 0} {a : A} {g : Globals q} → returned a g ≡ fault → ⊥
returned_is_fault h = cc

store_msgs-copied :
    (q : Qt) (o : q.Object) (buffer : List PassthruMsg) {os : List q.Object}
    {buffer' : List PassthruMsg} {n : ℕ} (g : Globals q)
    → q.to_array (q.value o "msgs") ≡ os
    → length os ≡ n
    → copy_msgs q os buffer ≡ some buffer'
    → store_msgs q o buffer g ≡ returned ((pass_thru_result q o, some n), buffer') g
unfolding store_msgs
store_msgs-copied q o buffer {buffer'} g h l k =
    rw (store_msgs, ap (λ os. copy_msgs q os buffer) h ∙ k)
      (ap (λ (n : ℕ). returned ((pass_thru_result q o, some n), buffer') g) (ap length h ∙ l))

store_msgs_bounds :
    (q : Qt) (o : q.Object) (buffer : List PassthruMsg) (g : Globals q)
    → (store_msgs q o buffer g ≢ fault) ↔ (length (q.to_array (q.value o "msgs")) ≤ length buffer)
unfolding store_msgs
store_msgs_bounds q o buffer g =
    let bounds = copy_msgs_bounds q (q.to_array (q.value o "msgs")) buffer in
    elim (Option-cases (copy_msgs q (q.to_array (q.value o "msgs")) buffer)) [
      | inl missing ↦
          (λ h. absurd (h (rw (store_msgs, missing) refl)), λ h. absurd (bounds.1 h missing))
      | inr (buffer', found) ↦ (
        λ h. bounds.0 (λ missing. some_is_none (sym found ∙ missing)),
        λ h k. returned_is_fault (sym (store_msgs-copied q o buffer g refl refl found) ∙ k),
      )
    ]

module _ (q : Qt) (laws : QtLaws q) (g : Globals q) (c : Context q) (e : g.context ≡ some c)
    (text : q.Str) (answer : q.Object) (es : List (Event q)) (can : CanReceive q c)
    (next : g.events ≡ text_message text ∷ es) (parses : q.from_json text ≡ some answer)
    (fits : Answers q c.cseq answer) where
  open laws use {value-insert, to_array-of_array}

  -- The request of the call, answered.
  request-answered :
      (message : q.Object) (timeout : ℕ)
      → (d : Context q) × (request q message timeout g
          ≡ returned (some answer) (record g { context = some d; events = es }))
        × (d.socket.sent ≡ request_text q message c ∷ c.socket.sent)
  request-answered message timeout =
      let known = send_receive_cseq-answered q text answer parses message timeout c es can fits in
      (
        known.0,
        request-finished q g c e message timeout (some answer) known.0 es
            (ap (send_receive_cseq q message timeout c) next ∙ known.1),
        known.2,
      )

  -- On an open device with a session, PassThruReadMsgs asks for messages; where the answer that
  -- comes next holds n messages in the encoding of the wrapper, each of 4 to 4128 bytes, and the
  -- caller's array has room for them, the call stores the number n and these messages, and returns
  -- the code of the answer. The rest of the array stays what it was.
  pub pass_thru_read_msgs-encode_msgs :
      (channel num_msgs timeout n : ℕ) (buffer ms : List PassthruMsg) (os : List q.Object)
      → AllSized (take n ms)
      → n ≤ length ms
      → n ≤ length buffer
      → encode_msgs q n ms ≡ some os
      → q.value answer "msgs" ≡ q.of_array os
      → (d : Context q) × (pass_thru_read_msgs q channel buffer num_msgs timeout g
          ≡ returned
              ((pass_thru_result q answer, some n), all_received n ms buffer)
              (record g { context = some d; events = es }))
        × (d.socket.sent
            ≡ request_text q (read_message_of q channel num_msgs timeout) c ∷ c.socket.sent)
  unfolding pass_thru_read_msgs
  pass_thru_read_msgs-encode_msgs channel num_msgs timeout n buffer ms os v k room encoded sent =
      let asked =
        request-answered (read_message_of q channel num_msgs timeout) (with_timeout q timeout) in
      let known = copy_msgs-encode_msgs q laws n ms buffer v k room in
      let same : os ≡ known.0 = some-injective (sym encoded ∙ known.1) in
      let carried : q.to_array (q.value answer "msgs") ≡ known.0 =
        ap q.to_array sent ∙ to_array-of_array os ∙ same in
      let stored = store_msgs-copied q answer buffer _ carried known.2 known.3 in
      (asked.0, answers q g c e _ _ _ _ asked.1 ∙ stored, asked.2)

  -- On an open device with a session, where an answer comes next, PassThruReadMsgs stays inside the
  -- memory of the caller exactly if the answer holds no more messages than the caller's array,
  -- whatever number of messages it was asked for.
  pub pass_thru_read_msgs_bounds :
      (channel num_msgs timeout : ℕ) (buffer : List PassthruMsg)
      → (pass_thru_read_msgs q channel buffer num_msgs timeout g ≢ fault)
        ↔ (length (q.to_array (q.value answer "msgs")) ≤ length buffer)
  unfolding pass_thru_read_msgs
  pass_thru_read_msgs_bounds channel num_msgs timeout buffer =
      let asked =
        request-answered (read_message_of q channel num_msgs timeout) (with_timeout q timeout) in
      subst (λ r. (r ≢ fault) ↔ (length (q.to_array (q.value answer "msgs")) ≤ length buffer))
        (sym (answers q g c e _ _ _ _ asked.1)) (store_msgs_bounds q answer buffer _)

  -- On an open device with a session, where an answer comes next, PassThruWriteMsgs with n messages
  -- of 4 to 4128 bytes returns the code of the answer; what it has sent is one request, from whose
  -- list of messages any array with room for them gets these messages.
  pub copy_msgs-pass_thru_write_msgs :
      (channel timeout n : ℕ) (ms buffer : List PassthruMsg)
      → AllSized (take n ms)
      → n ≤ length ms
      → n ≤ length buffer
      → (message : q.Object) × (d : Context q) × (pass_thru_write_msgs q channel ms n timeout g
          ≡ returned (pass_thru_result q answer) (record g { context = some d; events = es }))
        × (d.socket.sent ≡ request_text q message c ∷ c.socket.sent)
        × (q.value message "channelId" ≡ q.of_str (q.number channel))
        × (copy_msgs q (q.to_array (q.value message "msgs")) buffer
            ≡ some (all_received n ms buffer))
  unfolding send_msgs done
  copy_msgs-pass_thru_write_msgs channel timeout n ms buffer v k room =
      let encoded = copy_msgs-encode_msgs q laws n ms buffer v k room in
      let message = write_message_of q channel timeout encoded.0 in
      let asked = request-answered message (with_timeout q timeout) in
      let carried : q.to_array (q.value message "msgs") ≡ encoded.0 =
        ap q.to_array (simp value-insert) ∙ to_array-of_array encoded.0 in
      (
        message,
        asked.0,
        write_msgs-opened q g c e channel ms n timeout encoded.1 ∙ bind-returned _ _ asked.1,
        asked.2,
        simp value-insert,
        ap (λ os. copy_msgs q os buffer) carried ∙ encoded.3,
      )
