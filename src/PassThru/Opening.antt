-- ===== src/PassThru/Opening.antt =====
-- PassThruOpen on every branch, and the calls on a device that is not open.
use qt_gretio.Prelude.{
  ◌≡◌, refl, sym, ◌∙◌, subst, ◌⊎◌, inl, inr, Bool, true, false, none, some, Bool-cases, pos,
}
use qt_gretio.Qt.{Qt}
use qt_gretio.J2534.{PassthruMsg, SconfigList}
use qt_gretio.J2534
use qt_gretio.Context.{Context, new_context, wait_for_open, is_connected}
use qt_gretio.Context.Opening.{wait_for_open-new_context}
use qt_gretio.PassThru.{
  Globals, Outcome, returned, blocked, fault, Ret, ◌>>=◌, done, unless_null, pass_thru_open,
  pass_thru_close,
}
use qt_gretio.PassThru.Invariant.{Waited-cases}
use qt_gretio.PassThru.Calls.{
  Call, open_device, close_device, connect, disconnect, read_version, get_last_error, perform,
}
use qt_gretio.PassThru.Transfer.{pass_thru_read_msgs, pass_thru_write_msgs}
use qt_gretio.PassThru.Channel.{
  pass_thru_start_periodic_msg, pass_thru_stop_periodic_msg, pass_thru_start_msg_filter,
  pass_thru_stop_msg_filter, pass_thru_set_programming_voltage, pass_thru_ioctl,
}
use qt_gretio.PassThru.{pass_thru_connect, pass_thru_disconnect}

module _ (q : Qt) where
  -- What PassThruOpen leaves behind when it returns on a closed device.
  abbrev pub OpenResult : Ret → Globals q → Type 0
  OpenResult r g =
      ((r ≡ (pos J2534.status_noerror, some 1))
        × (g.app ≡ true)
        × ((c : Context q) × (g.context ≡ some c)
            × (is_connected c.status ≡ true)
            × (c.auth_complete ≡ true)))
      ⊎ ((r ≡ (pos J2534.err_device_not_connected, none)) × (g.app ≡ false) × (g.context ≡ none))

  abbrev OpenEnds : Outcome q Ret → Type 0
  OpenEnds (returned r g) = OpenResult r g
  OpenEnds blocked = Unit {0}
  OpenEnds fault = Unit {0}

  pass_thru_open-OpenEnds : (g : Globals q) → g.context ≡ none → OpenEnds (pass_thru_open q g)
  unfolding pass_thru_open pass_thru_close ◌>>=◌ done
  pass_thru_open-OpenEnds g e =
      elim (Waited-cases (wait_for_open q (new_context q g.disk) g.events)) [
        | inl s ↦ rw (pass_thru_open, e, s) tt
        | inr (opened, c, es, f) ↦
            let known = wait_for_open-new_context q g.disk c g.events es opened f in
            elim (Bool-cases opened) [
              | inl success ↦
                  rw (pass_thru_open, e, f, success)
                    (inl (
                      refl,
                      refl,
                      (c, refl, sym known.0 ∙ success, known.1 (sym known.0 ∙ success)),
                    ))
              | inr failure ↦ rw (pass_thru_open, e, f, failure) (inr (refl, refl, refl))
            ]
      ]

  -- On a closed device PassThruOpen, if it returns, has either opened it (code 0, device id 1, and
  -- a context that is connected and authenticated), or has failed with ERR_DEVICE_NOT_CONNECTED
  -- and deleted the context and the application again, storing no device id.
  pub pass_thru_open-OpenResult :
      (g g' : Globals q) (r : Ret)
      → g.context ≡ none
      → pass_thru_open q g ≡ returned r g'
      → OpenResult r g'
  pass_thru_open-OpenResult g g' r e h = subst OpenEnds h (pass_thru_open-OpenEnds g e)

  -- On an open device PassThruOpen changes nothing: ERR_DEVICE_IN_USE, and the device id -1.
  pub pass_thru_open-in_use :
      (g : Globals q) (c : Context q)
      → g.context ≡ some c
      → pass_thru_open q g ≡ returned (pos J2534.err_device_in_use, some 4294967295) g
  unfolding pass_thru_open
  pass_thru_open-in_use g c e = rw e

  -- The calls that need an open device.
  abbrev pub needs_device : Call → Bool
  needs_device open_device = false
  needs_device (close_device device) = false
  needs_device read_version = false
  needs_device get_last_error = false
  needs_device c = true

  -- On a closed device each of these calls returns ERR_DEVICE_NOT_CONNECTED and changes nothing.
  pub perform_not_open :
      (c : Call) (g : Globals q)
      → needs_device c ≡ true
      → g.context ≡ none
      → perform q c g ≡ returned (pos J2534.err_device_not_connected) g
  unfolding perform ◌>>=◌ done unless_null pass_thru_connect pass_thru_disconnect
      pass_thru_read_msgs pass_thru_write_msgs pass_thru_start_periodic_msg
      pass_thru_stop_periodic_msg pass_thru_start_msg_filter pass_thru_stop_msg_filter
      pass_thru_set_programming_voltage pass_thru_ioctl
  perform_not_open open_device g n e = cc
  perform_not_open (close_device device) g n e = cc
  perform_not_open read_version g n e = cc
  perform_not_open get_last_error g n e = cc
  perform_not_open (connect device protocol flags baud_rate) g n e = rw e
  perform_not_open (disconnect channel) g n e = rw e
  perform_not_open c g n e = rw e
