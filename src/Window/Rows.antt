-- ===== src/Window/Rows.antt =====
-- A click on a row of the table finds the service of that row.
use qt_gretio.Prelude.{ℕ, zero, suc, ◌<◌, ◌≡◌, refl, some, List, [], ◌∷◌, arith, length, get_elem?}
use qt_gretio.Qt.{Qt}
use qt_gretio.Auth.{Disk}
use qt_gretio.Window.{Service, new_window, show_discovery, row_selected, service_url}
use qt_gretio.Context.{Event, new_context}
use qt_gretio.Context.Evolution.{IsListed, handle_all, handle_all-Evolves}

get_elem?_total {ℓ} :
    {A : Type ℓ} (xs : List A) (i : ℕ) → i < length xs → (x : A) × (get_elem? xs i ≡ some x)
get_elem?_total [] i h = elim h [ ]
get_elem?_total (x ∷ xs) zero h = (x, refl)
get_elem?_total (x ∷ xs) (suc i) h = get_elem?_total xs i (omega arith)

module _ (q : Qt) where
  -- Whatever events a new context has handled, a click on a row of the table is in bounds of the
  -- list of services, and it puts the url of that row's service in the edit field and changes
  -- nothing else.
  pub row_selected_total :
      (disk : Disk q) (es : List (Event q)) (x : ℕ)
      → let w = (handle_all q es (new_context q disk)).window in
        x < length w.rows
        → (s : Service q) × (get_elem? w.services x ≡ some s)
          × (row_selected q x w ≡ some (record w { connect_edit = service_url q s }))
  unfolding row_selected new_context show_discovery new_window
  row_selected_total disk es x h =
      let c = handle_all q es (new_context q disk) in
      let listed : IsListed c.window =
        (handle_all-Evolves q es (new_context q disk)).stays_listed refl in
      let found = get_elem?_total c.window.services x (omega arith) in
      (found.0, found.1, rw (row_selected, found.1))
