-- ===== src/Tests/Client.antt =====
-- The state machine, the window, the finder and the test program at concrete inputs.
use qt_gretio.Prelude.{ℕ, ◌≡◌, true, false, none, some, List, [], ◌∷◌, if◌then◌else◌, replicate}
use qt_gretio.Qt.{Qt}
use qt_gretio.Qt.Sample.{sample}
use qt_gretio.J2534
use qt_gretio.Auth.{Disk, auth_pending}
use qt_gretio.Finder.{start_browser, stop_browser, service_type, new_finder}
use qt_gretio.Finder.Alternation.{Alternates, use_finder, use_finder-Alternates}
use qt_gretio.Window.{auth, discovery}
use qt_gretio.Window.Pages.{pages_shown}
use qt_gretio.Context.{
  socket_disconnected, window_closed, delete_context, handle, on_signal, is_connected,
}
use qt_gretio.Context.Phases.{Reach, start, phase, grants_in, handle_all_refines}
use qt_gretio.PassThru.{Globals, loaded}
use qt_gretio.App.{Library}
use qt_gretio.Tests.Inputs.{empty_disk, session, open_context}

handle_all_refines_example :
    (r : Reach start (phase open_context)) × (grants_in r
      ≡ (if open_context.auth_complete then 1 else 0))
    × (is_connected open_context.status ≡ true → grants_in r ≡ 1)
handle_all_refines_example = handle_all_refines sample empty_disk session

pages_shown_example :
    let asking = (on_signal sample (auth_pending (sample.text "1234")) open_context).window in
    let lost = (handle sample socket_disconnected open_context).0.window in
    (asking.page ≡ some auth)
    × (asking.visible ≡ true)
    × (asking.auth_label ≡ sample.text "1234")
    × (lost.page ≡ some discovery)
    × (lost.visible ≡ true)
    × (lost.title ≡ "Device Selection")
pages_shown_example = pages_shown sample empty_disk session (sample.text "1234")

use_finder-Alternates_example :
    let f = use_finder (true ∷ true ∷ false ∷ []) new_finder in
    Alternates f.is_finding f.asked
    × ((delete_context sample open_context).finder.asked
        ≡ stop_browser ∷ start_browser service_type ∷ [])
use_finder-Alternates_example =
    use_finder-Alternates (true ∷ true ∷ false ∷ []) sample empty_disk session

-- A Qt that connects QWidget::close, and a user who closes the window.
abbrev closing : Qt
closing = record sample { connects_close = true }

abbrev no_tokens : Disk closing
no_tokens = record { can_read = true; can_write = true; file = none }

abbrev at_load : Globals closing
at_load = loaded closing no_tokens (window_closed ∷ [])

abbrev after_close : Globals closing
after_close = loaded closing no_tokens []

abbrev library : Library
library = record {
  loads = true;
  has_open = true;
  has_connect = true;
  has_write = true;
  has_read = true;
  has_ioctl = true;
  has_filter = true;
  has_disconnect = true;
}

abbrev memory : List ℕ
memory = replicate J2534.data_capacity 0xCC
