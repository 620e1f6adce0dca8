-- ===== src/PassThru/Channel/Guards.antt =====
-- What the calls on a channel check before they send anything.
use qt_gretio.Prelude.{ℕ, ◌≡◌, ◌≢◌, ◌⊎◌, Bool, true, false, Option, none, some, arith, pos}
use qt_gretio.Qt.{Qt}
use qt_gretio.J2534.{PassthruMsg, SconfigList}
use qt_gretio.J2534
use qt_gretio.Context.{Context}
use qt_gretio.PassThru.{Globals, returned, fault, done, unless_null}
use qt_gretio.PassThru.Channel.{
  send_filter, simple_ioctl, config_ioctl, pass_thru_start_msg_filter, pass_thru_ioctl,
}

module _ (q : Qt) (g : Globals q) (c : Context q) (is_open : g.context ≡ some c) where
  -- On an open device PassThruStartMsgFilter returns ERR_NULL_PARAMETER and changes nothing
  -- exactly where a pointer is missing that it needs: the mask, the pattern, the place for the
  -- filter id, or, for a flow control filter, the flow control message. Otherwise the request is
  -- sent; any other filter type may leave the flow control message out.
  pub pass_thru_start_msg_filter_lem :
      (channel filter_type : ℕ) (mask pattern_msg flow_control : Option PassthruMsg)
      (has_filter_id : Bool)
      → ((mask ≡ none)
            ⊎ (pattern_msg ≡ none)
            ⊎ (has_filter_id ≡ false)
            ⊎ ((filter_type ≡ J2534.flow_control_filter) × (flow_control ≡ none))
          → pass_thru_start_msg_filter q channel filter_type mask pattern_msg flow_control
              has_filter_id g
            ≡ returned (pos J2534.err_null_parameter, none) g)
        × ((mask ≢ none)
            → (pattern_msg ≢ none)
            → (has_filter_id ≡ true)
            → ((filter_type ≡ J2534.flow_control_filter) → flow_control ≢ none)
            → pass_thru_start_msg_filter q channel filter_type mask pattern_msg flow_control
                has_filter_id g
              ≡ send_filter q channel filter_type mask pattern_msg flow_control g)
  unfolding pass_thru_start_msg_filter unless_null done
  pass_thru_start_msg_filter_lem channel filter_type mask pattern_msg flow_control has_filter_id =
      (λ h. ground (arith, is_open), λ m p f h. ground (arith, is_open, h))

  -- On an open device the two configuration requests fault on a null list, fail with
  -- ERR_NULL_PARAMETER on a list without an array, and every other id sends its id alone, without
  -- a look at the caller's input.
  pub pass_thru_ioctl_lem :
      (channel ioctl_id : ℕ) (input : Option SconfigList)
      → let is_config = (ioctl_id ≡ J2534.get_config) ⊎ (ioctl_id ≡ J2534.set_config) in
        (is_config → input ≡ none → pass_thru_ioctl q channel ioctl_id input g ≡ fault)
        × (is_config
            → (list : SconfigList) → input ≡ some list
            → list.config_ptr ≡ none
            → pass_thru_ioctl q channel ioctl_id input g
              ≡ returned (pos J2534.err_null_parameter) g)
        × (¬ is_config
            → pass_thru_ioctl q channel ioctl_id input g ≡ simple_ioctl q channel ioctl_id g)
  unfolding pass_thru_ioctl config_ioctl unless_null
  pass_thru_ioctl_lem channel ioctl_id input = (
    λ h e. ground (arith, is_open),
    λ h list e f. ground (arith, is_open),
    λ h. ground (arith, is_open),
  )
