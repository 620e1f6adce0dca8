-- ===== src/Tests/Device.antt =====
-- The exported functions at concrete inputs.
use qt_gretio.Prelude.{ℕ, ◌≡◌, refl, ◌⊎◌, true, none, some, List, [], ◌∷◌, pos}
use qt_gretio.Qt.Sample.{sample, sample_laws}
use qt_gretio.J2534.{PassthruMsg, SconfigList}
use qt_gretio.J2534
use qt_gretio.Socket.{Socket, write_message, on_message_received, new_socket, close}
use qt_gretio.Socket
use qt_gretio.Auth.{
  write_servers_file, read_servers_file, get_token_for_key, add_token, accept_token, new_link,
  input_message,
}
use qt_gretio.Auth
use qt_gretio.Window.{new_window, show_discovery}
use qt_gretio.Context.{new_context, handle, deliver, receive, on_signals, on_signal, wait_for_open}
use qt_gretio.Context.Evolution.{handle_all}
use qt_gretio.PassThru.{
  Globals, returned, loaded, ◌>>=◌, done, pass_thru_open, pass_thru_get_last_error, no_error_yet,
  could_not_send, context_is_null,
}
use qt_gretio.PassThru.Invariant.{Inv, is_some}
use qt_gretio.PassThru.Calls.{open_device, get_last_error, connect, perform, history}
use qt_gretio.PassThru.History.{history-Inv}
use qt_gretio.PassThru.Opening.{OpenResult, pass_thru_open-OpenResult, perform_not_open}
use qt_gretio.PassThru.LastError.{IsText, pass_thru_get_last_error-IsText}
use qt_gretio.Tests.Inputs.{empty_disk, session, open_globals}

abbrev opened : Globals sample
opened = open_globals []

history_returns :
    history sample (open_device ∷ get_last_error ∷ []) (loaded sample empty_disk session)
    ≡ returned tt opened
unfolding history perform pass_thru_open pass_thru_get_last_error loaded ◌>>=◌ done wait_for_open
    handle_all handle deliver receive on_message_received input_message accept_token add_token
    write_servers_file read_servers_file get_token_for_key on_signals on_signal write_message
    Auth.on_connected Socket.on_connected new_context new_link new_socket show_discovery new_window
history_returns = refl

history-Inv_example : Inv opened
history-Inv_example =
    history-Inv sample (open_device ∷ get_last_error ∷ []) empty_disk session opened history_returns

closed_at_first : (loaded sample empty_disk session).context ≡ none
unfolding loaded
closed_at_first = refl

open_returns :
    pass_thru_open sample (loaded sample empty_disk session)
    ≡ returned (pos J2534.status_noerror, some 1) opened
unfolding pass_thru_open loaded ◌>>=◌ done wait_for_open handle_all handle deliver receive
    on_message_received input_message accept_token add_token write_servers_file read_servers_file
    get_token_for_key on_signals on_signal write_message Auth.on_connected Socket.on_connected
    new_context new_link new_socket show_discovery new_window
open_returns = refl

pass_thru_open-OpenResult_example : OpenResult sample (pos J2534.status_noerror, some 1) opened
pass_thru_open-OpenResult_example =
    pass_thru_open-OpenResult sample (loaded sample empty_disk session) opened _ closed_at_first
      open_returns

perform_not_open_example :
    perform sample (connect 1 6 0 500000) (loaded sample empty_disk session)
    ≡ returned (pos J2534.err_device_not_connected) (loaded sample empty_disk session)
perform_not_open_example =
    perform_not_open sample (connect 1 6 0 500000) (loaded sample empty_disk session) refl
      closed_at_first

opened-Inv : Inv opened
opened-Inv =
    history-Inv sample (open_device ∷ get_last_error ∷ []) empty_disk session opened history_returns

pass_thru_get_last_error-IsText_example :
    (out : List ℕ) × (pass_thru_get_last_error sample opened ≡ returned out opened)
    × ((IsText sample sample_laws out context_is_null × (opened.context ≡ none))
        ⊎ ((is_some opened.context ≡ true)
            × (IsText sample sample_laws out no_error_yet
                ⊎ IsText sample sample_laws out could_not_send)))
pass_thru_get_last_error-IsText_example =
    pass_thru_get_last_error-IsText sample sample_laws opened opened-Inv
