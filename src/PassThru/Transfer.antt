-- ===== src/PassThru/Transfer.antt =====
-- SurrealJ2534Wrapper/J2534.cpp: PassThruReadMsgs and PassThruWriteMsgs. The caller's array of
-- messages is a list of its true length.
pub mod Buffers
use qt_gretio.Prelude.{
  ℕ, zero, suc, ◌+◌, ◌%◌, Option, none, some, List, [], ◌∷◌, length, ℤ, pos, u32_mod,
}
use qt_gretio.Qt.{Qt}
use qt_gretio.J2534
use qt_gretio.J2534.{PassthruMsg}
use qt_gretio.J2534.Message.{pt_msg_to_json, copy_json_msg}
use qt_gretio.PassThru.{
  M, Ret, ◌>>=◌, done, unless_null, done_with, request, header, text_of, pass_thru_result,
  could_not_send, returned, fault,
}

module _ (q : Qt) where
  -- `CopyJsonMsg(msgs[i], &pMsg[i])` for every i; `none` is a write behind the caller's array.
  unfoldable pub copy_msgs : List q.Object → List PassthruMsg → Option (List PassthruMsg)
  copy_msgs [] buffer = some buffer
  copy_msgs (o ∷ os) [] = none
  copy_msgs (o ∷ os) (m ∷ buffer) = elim (copy_msgs os buffer) [
    | none ↦ none
    | some rest ↦ some (copy_json_msg q o m ∷ rest)
  ]

  -- `PtMsgToJson(pMsg[i])` for i < n; `none` is a read outside the array or a message.
  unfoldable pub encode_msgs : ℕ → List PassthruMsg → Option (List q.Object)
  encode_msgs zero buffer = some []
  encode_msgs (suc n) [] = none
  encode_msgs (suc n) (m ∷ buffer) = elim (pt_msg_to_json q m) [
    | none ↦ none
    | some o ↦ elim (encode_msgs n buffer) [ none ↦ none | some os ↦ some (o ∷ os) ]
  ]

  -- `WS_REQUEST_TIMEOUT + Timeout` in an unsigned long.
  abbrev pub with_timeout : ℕ → ℕ
  with_timeout timeout = (10000 + timeout) % u32_mod

  -- The code, the number of messages that is stored, and the caller's array.
  unfoldable pub store_msgs : q.Object → List PassthruMsg → M q (Ret × List PassthruMsg)
  store_msgs o buffer g = elim (copy_msgs (q.to_array (q.value o "msgs")) buffer) [
    | none ↦ fault
    | some buffer' ↦
        returned ((pass_thru_result q o, some (length (q.to_array (q.value o "msgs")))), buffer') g
  ]

  unfoldable pub pass_thru_read_msgs : ℕ → List PassthruMsg → ℕ → ℕ → M q (Ret × List PassthruMsg)
  pass_thru_read_msgs channel buffer num_msgs timeout =
      unless_null ((pos J2534.err_device_not_connected, none), buffer)
        (do
          reply ←
              request q
                (q.insert
                  (q.insert
                    (q.insert (header q J2534.message_id_pt_read_msgs) "channelId"
                      (text_of q channel))
                    "numMsgs" (text_of q num_msgs))
                  "timeout" (text_of q timeout))
                (with_timeout timeout)
          elim reply [
            | some o ↦ store_msgs o buffer
            | none ↦ done_with could_not_send ((pos J2534.err_failed, none), buffer)
          ])

  unfoldable pub send_msgs : ℕ → ℕ → List q.Object → M q ℤ
  send_msgs channel timeout objects = do
    reply ←
        request q
          (q.insert
            (q.insert
              (q.insert (header q J2534.message_id_pt_write_msgs) "channelId" (text_of q channel))
              "msgs" (q.of_array objects))
            "timeout" (text_of q timeout))
          (with_timeout timeout)
    elim reply [
      | some o ↦ done (pass_thru_result q o)
      | none ↦ done_with could_not_send (pos J2534.err_failed)
    ]

  -- `*pNumMsgs` is read and never written.
  unfoldable pub pass_thru_write_msgs : ℕ → List PassthruMsg → ℕ → ℕ → M q ℤ
  pass_thru_write_msgs channel buffer num_msgs timeout =
      unless_null (pos J2534.err_device_not_connected) (λ g. elim (encode_msgs num_msgs buffer) [
        | none ↦ fault
        | some objects ↦ send_msgs channel timeout objects g
      ])
