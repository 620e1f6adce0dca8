-- ===== src/PassThru/History.antt =====
-- Histories of calls: what holds after each of them.
use qt_gretio.Prelude.{◌≡◌, refl, subst, inl, List, [], ◌∷◌, arith}
use qt_gretio.Qt.{Qt}
use qt_gretio.Auth.{Disk}
use qt_gretio.Context.{Event}
use qt_gretio.PassThru.{Globals, returned, loaded, pass_thru_read_version, pass_thru_get_last_error}
use qt_gretio.PassThru.Calls.{
  Call, open_device, close_device, connect, disconnect, read_msgs, write_msgs, start_periodic_msg,
  stop_periodic_msg, start_msg_filter, stop_msg_filter, set_programming_voltage, read_version,
  get_last_error, ioctl, perform, history,
}
use qt_gretio.PassThru.Invariant.{
  Inv, After, Keeps, keeps, Keeps-After, After-bind, done-Keeps, bind-Keeps,
}
use qt_gretio.PassThru.Preservation.{
  close-Keeps, open-Keeps, connect-Keeps, disconnect-Keeps, stop_periodic-Keeps, stop_filter-Keeps,
  set_voltage-Keeps, start_periodic-Keeps, start_filter-Keeps, ioctl-Keeps, read_msgs-Keeps,
  write_msgs-Keeps,
}

module _ (q : Qt) where
  read_version-Keeps : Keeps (pass_thru_read_version q)
  unfolding pass_thru_read_version
  read_version-Keeps = done-Keeps _

  get_last_error-Keeps : Keeps (pass_thru_get_last_error q)
  unfolding pass_thru_get_last_error
  get_last_error-Keeps = keeps λ g v. ground arith

  pub perform-Keeps : (c : Call) → Keeps (perform q c)
  unfolding perform
  perform-Keeps open_device = bind-Keeps _ _ (open-Keeps q) λ r. done-Keeps _
  perform-Keeps (close_device device) = close-Keeps q device
  perform-Keeps (connect device protocol flags baud_rate) =
      bind-Keeps _ _ (connect-Keeps q device protocol flags baud_rate) λ r. done-Keeps _
  perform-Keeps (disconnect channel) = disconnect-Keeps q channel
  perform-Keeps (read_msgs channel buffer n timeout) =
      bind-Keeps _ _ (read_msgs-Keeps q channel buffer n timeout) λ r. done-Keeps _
  perform-Keeps (write_msgs channel buffer n timeout) = write_msgs-Keeps q channel buffer n timeout
  perform-Keeps (start_periodic_msg channel msg interval) =
      bind-Keeps _ _ (start_periodic-Keeps q channel msg interval) λ r. done-Keeps _
  perform-Keeps (stop_periodic_msg channel msg_id) = stop_periodic-Keeps q channel msg_id
  perform-Keeps (start_msg_filter channel filter_type mask pattern_msg flow_control has_filter_id) =
      bind-Keeps _ _
        (start_filter-Keeps q channel filter_type mask pattern_msg flow_control has_filter_id)
        λ r. done-Keeps _
  perform-Keeps (stop_msg_filter channel filter_id) = stop_filter-Keeps q channel filter_id
  perform-Keeps (set_programming_voltage device pin voltage) =
      set_voltage-Keeps q device pin voltage
  perform-Keeps read_version = bind-Keeps _ _ read_version-Keeps λ r. done-Keeps _
  perform-Keeps get_last_error = bind-Keeps _ _ get_last_error-Keeps λ r. done-Keeps _
  perform-Keeps (ioctl channel ioctl_id input) = ioctl-Keeps q channel ioctl_id input

  loaded-Inv : (disk : Disk q) (events : List (Event q)) → Inv (loaded q disk events)
  unfolding loaded
  loaded-Inv disk events = record {
    paired = refl;
    error_known = inl refl;
    context_sound = tt;
    context_numbered = tt;
  }

  history-Keeps : (cs : List Call) → Keeps (history q cs)
  unfolding history
  history-Keeps [] = keeps λ g v. v
  history-Keeps (c ∷ cs) = keeps λ g v.
      After-bind (perform q c g) (λ _. history q cs) (Keeps-After (perform-Keeps c) g v)
        (λ _. history-Keeps cs)

  -- After every history of calls that returns, on any file of tokens and whatever Qt delivers, the
  -- application object exists exactly if the context does, the last error is one of the two texts
  -- that the source stores, a context whose status is `connected` has been authenticated, and
  -- what the context has sent are messages of the authentication and requests that carry the
  -- numbers 0, 1, 2 and so on in their order, up to the number of the next request.
  pub history-Inv :
      (cs : List Call) (disk : Disk q) (events : List (Event q)) (g : Globals q)
      → history q cs (loaded q disk events) ≡ returned tt g
      → Inv g
  history-Inv cs disk events g h =
      subst After h (Keeps-After (history-Keeps cs) (loaded q disk events) (loaded-Inv disk events))
