-- ===== src/Window.antt =====
-- SurrealJ2534Wrapper/gretiomainwindow.cpp: the window that the user sees. Of the widgets the state
-- is kept that the methods read or show: the pages of the QStackedWidget and the one that is
-- current, the title, the cells of the table, the edit field and the label of the code.
pub mod Rows
pub mod Pages
use qt_gretio.Prelude.{
  ℕ, String, Bool, true, false, ◌||◌, Option, none, some, List, [], ◌∷◌, ◌++◌, if◌then◌else◌,
  get_elem?,
}
use qt_gretio.Qt.{Qt}

pub data Page : Type 0 where
  discovery : Page
  loading : Page
  auth : Page

abbrev pub is_page : Page → Page → Bool
is_page discovery discovery = true
is_page loading loading = true
is_page auth auth = true
is_page p r = false

-- What the window uses of a QZeroConfService.
pub record Service (q : Qt) : Type 0 where
  pub name : q.Str
  pub ip : q.Str
  pub port : ℕ

-- `stack` are the pages in the order in which they were added, and `page` the current one; `rows`
-- are the cells of the table; `errors` are the texts of the message boxes that were shown, the
-- newest first.
pub record Window (q : Qt) : Type 0 where
  pub stack : List Page
  pub page : Option Page
  pub title : String
  pub visible : Bool
  pub auth_label : q.Str
  pub columns : ℕ
  pub rows : List (q.Str × q.Str)
  pub services : List (Service q)
  pub connect_edit : q.Str
  pub errors : List q.Str

-- The members before the body of the constructor.
unfoldable pub bare_window : (q : Qt) → Window q
bare_window q = record {
  stack = [];
  page = none;
  title = "";
  visible = false;
  auth_label = q.null_str;
  columns = 0;
  rows = [];
  services = [];
  connect_edit = q.null_str;
  errors = [];
}

abbrev pub has_page : Page → List Page → Bool
has_page p [] = false
has_page p (r ∷ rs) = is_page p r || has_page p rs

module _ {q : Qt} where
  -- QStackedWidget: the first widget that is added becomes the current one, and only a widget of
  -- the stack can be made current.
  unfoldable pub add_widget : Page → Window q → Window q
  add_widget p w = record w {
    stack = w.stack ++ p ∷ [];
    page = elim w.page [ none ↦ some p | some current ↦ some current ];
  }

  unfoldable pub set_current_widget : Page → Window q → Window q
  set_current_widget p w = if has_page p w.stack then record w { page = some p } else w

  unfoldable pub make_auth_widget : Window q → Window q
  unfolding add_widget
  make_auth_widget = add_widget auth

  unfoldable pub make_discovery_widget : Window q → Window q
  unfolding add_widget
  make_discovery_widget w = add_widget discovery (record w { columns = 2 })

  unfoldable pub make_loading_widget : Window q → Window q
  unfolding add_widget
  make_loading_widget = add_widget loading

-- The constructor.
unfoldable pub new_window : (q : Qt) → Window q
unfolding bare_window make_auth_widget make_discovery_widget make_loading_widget
new_window q =
    record (make_loading_widget (make_discovery_widget (make_auth_widget (bare_window q)))) {
      title = "Gretio Web Client";
    }

module _ (q : Qt) where
  unfoldable pub show_discovery : Window q → Window q
  unfolding set_current_widget
  show_discovery w = record (set_current_widget discovery w) {
    title = "Device Selection";
    visible = true;
  }

  unfoldable pub show_progress_indicator : Window q → Window q
  unfolding set_current_widget
  show_progress_indicator w = record (set_current_widget loading w) { visible = true }

  unfoldable pub show_auth_widget : q.Str → Window q → Window q
  unfolding set_current_widget
  show_auth_widget code w = record (set_current_widget auth (record w { auth_label = code })) {
    visible = true;
  }

  unfoldable pub add_service : Service q → Window q → Window q
  add_service zcs w = record w {
    rows = w.rows ++ (zcs.name, zcs.ip) ∷ [];
    services = w.services ++ zcs ∷ [];
  }

  unfoldable pub show_error : q.Str → Window q → Window q
  show_error error w = record w { errors = error ∷ w.errors }

  -- The url that is selected, or a message box.
  unfoldable pub check_url : Window q → Window q × Option q.Str
  unfolding show_error
  check_url w =
      if q.is_valid_url w.connect_edit
      then (w, some w.connect_edit)
      else (show_error (q.text "URL is not valid.") w, none)

  unfoldable pub service_url : Service q → q.Str
  service_url s =
      q.concat
        (q.concat (q.concat (q.concat (q.text "wss://") s.ip) (q.text ":")) (q.number s.port))
        (q.text "/ws")

  -- `none` is an index outside `services`.
  unfoldable pub row_selected : ℕ → Window q → Option (Window q)
  unfolding service_url
  row_selected x w = elim (get_elem? w.services x) [
    | none ↦ none
    | some service ↦ some (record w { connect_edit = service_url service })
  ]

  -- A double click: the row is selected, and its url is checked at once.
  unfoldable pub row_double_clicked : ℕ → Window q → Option (Window q × Option q.Str)
  unfolding row_selected check_url
  row_double_clicked x w = elim (row_selected x w) [ none ↦ none | some w' ↦ some (check_url w') ]
