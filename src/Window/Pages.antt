-- ===== src/Window/Pages.antt =====
-- The pages that a context shows.
use qt_gretio.Prelude.{◌≡◌, refl, ◌∙◌, true, some, List, [], ◌∷◌, arith}
use qt_gretio.Qt.{Qt}
use qt_gretio.Auth.{Disk, auth_pending}
use qt_gretio.Window.{discovery, loading, auth, new_window, show_discovery, show_auth_widget}
use qt_gretio.Context.{Event, socket_disconnected, new_context, on_signal, handle}
use qt_gretio.Context.Evolution.{handle_all, handle_all-Evolves}

module _ (q : Qt) where
  -- The three pages, in the order in which the constructor makes them.
  new_context-stack :
      (disk : Disk q) → (new_context q disk).window.stack ≡ auth ∷ discovery ∷ loading ∷ []
  unfolding new_context show_discovery new_window
  new_context-stack disk = refl

  -- Whatever events a new context has handled: when a code has to be entered, its page becomes the
  -- current one of the visible window and shows that code; and when the connection is lost, the
  -- page with the services becomes current again, with its title.
  pub pages_shown :
      (disk : Disk q) (es : List (Event q)) (code : q.Str)
      → let c = handle_all q es (new_context q disk) in
        let asking = (on_signal q (auth_pending code) c).window in
        let lost = (handle q socket_disconnected c).0.window in
        (asking.page ≡ some auth)
        × (asking.visible ≡ true)
        × (asking.auth_label ≡ code)
        × (lost.page ≡ some discovery)
        × (lost.visible ≡ true)
        × (lost.title ≡ "Device Selection")
  unfolding on_signal handle show_auth_widget show_discovery
  pages_shown disk es code =
      let c = handle_all q es (new_context q disk) in
      let stack : c.window.stack ≡ auth ∷ discovery ∷ loading ∷ [] =
        (handle_all-Evolves q es (new_context q disk)).same_stack ∙ new_context-stack disk in
      ground arith
