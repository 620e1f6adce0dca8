-- ===== src/Tests/Messages.antt =====
-- The coding of messages at concrete inputs.
use qt_gretio.Prelude.{◌≡◌, some, ◌++◌, arith, take, drop}
use qt_gretio.Qt.Sample.{sample, sample_laws}
use qt_gretio.J2534.Message.{pt_msg_to_json, copy_json_msg}
use qt_gretio.J2534.Message.Roundtrip.{copy_json_msg-pt_msg_to_json}
use qt_gretio.Tests.Inputs.{message, message-IsMsg, payload}

copy_json_msg-pt_msg_to_json_example :
    (o : sample.Object) × (pt_msg_to_json sample (message 12 7) ≡ some o)
    × (copy_json_msg sample o (message 0 0)
        ≡ record (message 12 7) { payload = take 12 (payload 7) ++ drop 12 (payload 0) })
copy_json_msg-pt_msg_to_json_example =
    copy_json_msg-pt_msg_to_json sample sample_laws (message 12 7) (message 0 0)
      (message-IsMsg 12 7 (omega arith) (omega arith)) (omega arith) (omega arith)
