-- ===== src/Context/Opening.antt =====
-- `waitForOpen`: what is known when it returns, and when it does.
use qt_gretio.Prelude.{◌≡◌, refl, subst, Bool, true, false, List, [], ◌∷◌, if◌then◌else◌}
use qt_gretio.Qt.{Qt}
use qt_gretio.Auth.{Disk}
use qt_gretio.Context.Evolution.{Evolves, Evolves-trans, handle-Evolves, IsSound}
use qt_gretio.Context.{
  Context, Event, Waited, starved, finished, handle, is_connected, new_context, wait_for_open,
}

module _ (q : Qt) where
  abbrev Opens : Context q → Waited q Bool → Type 0
  Opens c starved = Unit {0}
  Opens c (finished opened d es) = Evolves c d × (opened ≡ is_connected d.status)

  Opens-later : {c d : Context q} (w : Waited q Bool) → Evolves c d → Opens d w → Opens c w
  Opens-later starved r h = tt
  Opens-later (finished opened d es) r h = (Evolves-trans r h.0, h.1)

  step-Opens :
      (c d : Context q) (es : List (Event q)) (b : Bool) (w : Waited q Bool)
      → Evolves c d
      → Opens d w
      → Opens c (if b then finished (is_connected d.status) d es else w)
  step-Opens c d es true w r h = (r, refl)
  step-Opens c d es false w r h = Opens-later w r h

  wait_for_open-Opens : (c : Context q) (es : List (Event q)) → Opens c (wait_for_open q c es)
  unfolding wait_for_open
  wait_for_open-Opens c [] = tt
  wait_for_open-Opens c (e ∷ es) =
      step-Opens c (handle q e c).0 es _ (wait_for_open q (handle q e c).0 es)
        (handle-Evolves q e c) (wait_for_open-Opens (handle q e c).0 es)

  -- If waiting for a new context to open ends, the result is whether its status is `connected`,
  -- and then it has been authenticated.
  pub wait_for_open-new_context :
      (disk : Disk q) (d : Context q) (es rest : List (Event q)) (opened : Bool)
      → wait_for_open q (new_context q disk) es ≡ finished opened d rest
      → (opened ≡ is_connected d.status) × IsSound d
  unfolding new_context
  wait_for_open-new_context disk d es rest opened h = (ended.1, ended.0.stays_sound new-IsSound)
    where
      ended : Opens (new_context q disk) (finished opened d rest)
      ended = subst (Opens (new_context q disk)) h (wait_for_open-Opens (new_context q disk) es)

      new-IsSound : IsSound (new_context q disk)
      new-IsSound e = cc
