-- ===== src/Context/Selecting.antt =====
-- A double click on a row of the table connects to the service of that row.
use qt_gretio.Prelude.{
  ℕ, ◌<◌, ◌≡◌, refl, sym, subst, some, List, ◌∷◌, arith, if◌then◌else◌, length, get_elem?,
}
use qt_gretio.Qt.{Qt}
use qt_gretio.Auth.{Disk}
use qt_gretio.Socket.{connect_now}
use qt_gretio.Window.{Service, check_url, show_error, service_url}
use qt_gretio.Window.Rows.{row_selected_total}
use qt_gretio.Context.{
  Context, Event, row_double_clicked, connecting, new_context, handle, click_row, select_url,
}
use qt_gretio.Context.Evolution.{handle_all}

module _ (q : Qt) where
  -- What a context does with a url that is selected.
  pub record Selects (url : q.Str) (c d : Context q) : Type 0 where
    pub shown : d.window.connect_edit ≡ url
    pub opened :
        d.socket.opened ≡ (if q.is_valid_url url then url ∷ c.socket.opened else c.socket.opened)
    pub moved : d.status ≡ (if q.is_valid_url url then connecting else c.status)
    pub told : d.window.errors ≡ (
        if q.is_valid_url url
        then c.window.errors
        else q.text "URL is not valid." ∷ c.window.errors)

  -- The button and the double click connect to what is in the edit field, if that is a url.
  select_url-Selects : (c : Context q) → Selects c.window.connect_edit c (select_url q c)
  unfolding select_url check_url show_error connect_now
  select_url-Selects c = record {
    shown = ground arith;
    opened = ground arith;
    moved = ground arith;
    told = ground arith;
  }

  -- Whatever events a new context has handled, a double click on a row of the table is in bounds of
  -- the list of services. It leaves the url of that row's service in the edit field, and either the
  -- url is valid, and a connection to it is opened and the context is connecting, or an error is
  -- shown, and nothing is opened.
  pub row_double_clicked-Selects :
      (disk : Disk q) (es : List (Event q)) (x : ℕ)
      → let c = handle_all q es (new_context q disk) in
        x < length c.window.rows
        → (s : Service q) × (get_elem? c.window.services x ≡ some s)
          × Selects (service_url q s) c (handle q (row_double_clicked x) c).0
  unfolding handle click_row
  row_double_clicked-Selects disk es x h =
      let c = handle_all q es (new_context q disk) in
      let found = row_selected_total q disk es x h in
      let clicked : Context q = record c {
        window = record c.window { connect_edit = service_url q found.0 };
      } in
      let at : click_row q x c ≡ clicked = rw (click_row, found.2) refl in
      let selects = select_url-Selects clicked in
      (
        found.0,
        found.1,
        subst (λ (d : Context q). Selects (service_url q found.0) c (select_url q d)) (sym at)
            (record {
              shown = selects.shown;
              opened = selects.opened;
              moved = selects.moved;
              told = selects.told;
            }),
      )
