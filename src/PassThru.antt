-- ===== src/PassThru.antt =====
-- SurrealJ2534Wrapper/J2534.cpp: the globals of the library, and the calls that open and close the
-- device and its channels. `M` is the monad of an exported function: it works on the globals, the
-- file of tokens and the events that Qt is going to deliver. A call returns, blocks for ever, or
-- faults by an access outside the memory that it may use.
-- Sizes are those of Windows: int, long and unsigned long have 32 bits.
pub mod Transfer
pub mod Channel
pub mod Calls
pub mod Invariant
pub mod Preservation
pub mod History
pub mod Opening
pub mod LastError
pub mod Asking
pub mod Exchange
pub mod Carrying
use qt_gretio.Prelude.{
  ℕ, ◌-◌, String, Bool, true, false, Option, none, some, List, ◌++◌, ◌==◌, if◌then◌else◌, length,
  take, replicate, ℤ, pos, u32_mod, to_u32, to_i32,
}
use qt_gretio.Qt.{Qt, codes}
use qt_gretio.Auth.{Disk}
use qt_gretio.Context.{
  Context, Event, starved, finished, new_context, delete_context, send_receive_cseq, wait_for_open,
}
use qt_gretio.J2534

-- `app` tells whether the global is not null.
pub record Globals (q : Qt) : Type 0 where
  pub context : Option (Context q)
  pub app : Bool
  pub last_error : q.Str
  pub disk : Disk q
  pub events : List (Event q)

pub data Outcome {ℓ} (q : Qt) (A : Type ℓ) : Type ℓ where
  returned : A → Globals q → Outcome q A
  blocked : Outcome q A
  fault : Outcome q A

abbrev pub M {ℓ} : Qt → Type ℓ → Type ℓ
M q A = Globals q → Outcome q A

module _ {ℓ κ} {q : Qt} {A : Type ℓ} {B : Type κ} where
  infixl 5 ◌>>=◌
  unfoldable pub ◌>>=◌ : M q A → (A → M q B) → M q B
  ◌>>=◌ m f g = elim (m g) [ returned a g' ↦ f a g' | blocked ↦ blocked | fault ↦ fault ]

-- A result of an exported function: its code, and the number that it stores through its last
-- pointer, if it stores one.
abbrev pub Ret : Type 0
Ret = ℤ × Option ℕ

abbrev pub no_error_yet : String
no_error_yet = "No error yet"

abbrev pub could_not_send : String
could_not_send = "Could not send message to server"

abbrev pub context_is_null : String
context_is_null = "Context is null. (J2534 Wrapper not started?)"

-- The globals when the library is loaded.
unfoldable pub loaded : (q : Qt) → Disk q → List (Event q) → Globals q
loaded q disk events = record {
  context = none;
  app = false;
  last_error = q.text no_error_yet;
  disk = disk;
  events = events;
}

-- strncpy: the bytes that are written.
unfoldable pub strncpy : ℕ → List ℕ → List ℕ
strncpy n s = take n s ++ replicate (n - length s) 0

module _ {ℓ} {q : Qt} {A : Type ℓ} where
  unfoldable pub done : A → M q A
  done a g = returned a g

  -- `if (context == nullptr) return a;`
  unfoldable pub unless_null : A → M q A → M q A
  unless_null a m g = elim g.context [ none ↦ returned a g | some c ↦ m g ]

  -- `lastError = ...; return a;`
  unfoldable pub done_with : String → A → M q A
  done_with text a g = returned a (record g { last_error = q.text text })

module _ (q : Qt) where
  -- `context->sendReceiveCseq(msg, timeout, &msg)`; a null context is a fault.
  unfoldable pub request : q.Object → ℕ → M q (Option q.Object)
  request message timeout g = elim g.context [
    | none ↦ fault
    | some c ↦ elim (send_receive_cseq q message timeout c g.events) [
      | starved ↦ blocked
      | finished reply c' es ↦ returned reply (record g { context = some c'; events = es })
    ]
  ]

  abbrev pub header : ℕ → q.Object
  header id =
      q.insert (q.insert q.empty "id" (q.of_int (pos id))) "t"
        (q.of_int (pos J2534.message_type_request))

  -- `QString::number(n)` and `(int)n` as JSON values.
  abbrev pub text_of : ℕ → q.Value
  text_of n = q.of_str (q.number n)

  abbrev pub int_of : ℕ → q.Value
  int_of n = q.of_int (to_i32 n)

  abbrev pub int_field : q.Object → String → ℤ
  int_field o k = q.to_int (pos 0) (q.value o k)

  abbrev pub pass_thru_result : q.Object → ℤ
  pass_thru_result o = int_field o "passThruResult"

  unfoldable pub pass_thru_close : ℕ → M q ℤ
  unfolding delete_context
  pass_thru_close device g = elim g.context [
    | none ↦ returned (pos J2534.status_noerror) g
    | some c ↦
        if device == 1
        then returned (pos J2534.status_noerror)
            (record g { context = none; app = false; disk = (delete_context q c).disk })
        else returned (pos J2534.err_invalid_device_id) g
  ]

  -- The code, and the device id that is stored.
  unfoldable pub pass_thru_open : M q Ret
  unfolding new_context wait_for_open pass_thru_close
  pass_thru_open g = elim g.context [
    | some c ↦ returned (pos J2534.err_device_in_use, some (u32_mod - 1)) g
    | none ↦ elim (wait_for_open q (new_context q g.disk) g.events) [
      | starved ↦ blocked
      | finished opened c es ↦
          let g' : Globals q = record g { context = some c; app = true; events = es } in
          if opened
          then returned (pos J2534.status_noerror, some 1) g'
          else (pass_thru_close 1 >>= λ _. done (pos J2534.err_device_not_connected, none)) g'
    ]
  ]

  -- The code, and the channel id that is stored.
  unfoldable pub pass_thru_connect : ℕ → ℕ → ℕ → ℕ → M q Ret
  pass_thru_connect device protocol flags baud_rate =
      unless_null (pos J2534.err_device_not_connected, none)
        (if device == 1
          then (do
            reply ←
                request
                  (q.insert
                    (q.insert
                      (q.insert (header J2534.message_id_pt_connect) "protocolId" (int_of protocol))
                      "flags" (int_of flags))
                    "baudRate" (int_of baud_rate))
                  10000
            elim reply [
              | some o ↦ done (pass_thru_result o, some (to_u32 (int_field o "pChannelId")))
              | none ↦ done (pos J2534.err_failed, none)
            ])
          else done (pos J2534.err_invalid_device_id, none))

  unfoldable pub pass_thru_disconnect : ℕ → M q ℤ
  pass_thru_disconnect channel = unless_null (pos J2534.err_device_not_connected) (do
    reply ←
        request (q.insert (header J2534.message_id_pt_disconnect) "channelId" (int_of channel)) 5000
    elim reply [ some o ↦ done (pass_thru_result o) | none ↦ done (pos J2534.err_failed) ])

  -- The three texts, each with its NUL.
  unfoldable pub pass_thru_read_version : M q (List ℕ × List ℕ × List ℕ)
  unfolding strncpy
  pass_thru_read_version =
      done (strncpy 5 (codes "0.01"), strncpy 5 (codes "0.01"), strncpy 6 (codes "04.04"))

  -- The 80 bytes that are written to the caller's buffer.
  unfoldable pub pass_thru_get_last_error : M q (List ℕ)
  unfolding strncpy
  pass_thru_get_last_error g = elim g.context [
    | none ↦ returned (strncpy 80 (codes context_is_null)) g
    | some c ↦ returned (strncpy 80 (q.to_utf8 g.last_error)) g
  ]
