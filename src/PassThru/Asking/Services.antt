-- ===== src/PassThru/Asking/Services.antt =====
-- SurrealJ2534Wrapper/J2534.cpp: the requests of periodic messages, of the end of filters, of the
-- programming voltage and of PassThruIoctl.
use qt_gretio.Prelude.{
  ℕ, zero, suc, ◌≤◌, ◌≡◌, refl, ◌∙◌, true, false, Option, some, List, [], ◌∷◌, arith, length,
}
use qt_gretio.Qt.{Qt, QtLaws}
use qt_gretio.J2534
use qt_gretio.J2534.{PassthruMsg, Sconfig, SconfigList}
use qt_gretio.Context.{Context}
use qt_gretio.PassThru.{Globals, done, done_with, header, text_of}
use qt_gretio.PassThru.Transfer.Buffers.{IsSized}
use qt_gretio.PassThru.Channel.{
  answer, config_pairs, config_ioctl, simple_ioctl, ioctl_object, config_pair,
  pass_thru_start_periodic_msg, pass_thru_stop_periodic_msg, pass_thru_stop_msg_filter,
  pass_thru_set_programming_voltage, pass_thru_ioctl,
}
use qt_gretio.PassThru.Calls.{
  start_periodic_msg, stop_periodic_msg, stop_msg_filter, set_programming_voltage, ioctl, perform,
}
use qt_gretio.PassThru.Asking.{has_configs, Asks, bind-returned, unless_null-open, answers}
use qt_gretio.PassThru.Asking.Filters.{sized_object, encode-sized}

module _ (q : Qt) where
  config_pairs-enough :
      (n : ℕ) (configs : List Sconfig)
      → n ≤ length configs
      → (os : List q.Object) × (config_pairs q n configs ≡ some os)
  unfolding config_pairs
  config_pairs-enough zero configs h = ([], refl)
  config_pairs-enough (suc n) [] h = absurd (omega arith)
  config_pairs-enough (suc n) (k ∷ configs) h =
      let rest = config_pairs-enough n configs (omega arith) in
      (config_pair q k ∷ rest.0, rw (config_pairs, rest.1) refl)

  module _ (laws : QtLaws q) (g : Globals q) (c : Context q) (e : g.context ≡ some c) where
    open laws use {value-insert}

    pub start_periodic_msg-Asks :
        (channel : ℕ) (m : PassthruMsg) (time_interval : ℕ)
        → IsSized m
        → Asks q (start_periodic_msg channel (some m) time_interval) g
    unfolding perform done done_with pass_thru_start_periodic_msg
    start_periodic_msg-Asks channel m time_interval v =
        let opened = unless_null-open _ _ e ∙ bind-returned _ _ (encode-sized q m g v) in
        record {
          message =
              q.insert
                (q.insert
                  (q.insert (header q J2534.message_id_pt_start_periodic) "channelId"
                    (text_of q channel))
                  "msg" (q.of_object (sized_object q m)))
                "timeInterval" (text_of q time_interval);
          timeout = 10000;
          has_id = simp value-insert;
          times_out = λ g' h.
              bind-returned (pass_thru_start_periodic_msg q channel (some m) time_interval) _
                (opened ∙ bind-returned _ _ h);
          is_answered = λ o g' h f.
              bind-returned (pass_thru_start_periodic_msg q channel (some m) time_interval) _
                (opened ∙ bind-returned _ _ h);
        }

    pub stop_periodic_msg-Asks : (channel msg_id : ℕ) → Asks q (stop_periodic_msg channel msg_id) g
    unfolding perform done done_with answer pass_thru_stop_periodic_msg
    stop_periodic_msg-Asks channel msg_id = record {
      message =
          q.insert
            (q.insert (header q J2534.message_id_pt_stop_periodic) "channelId" (text_of q channel))
            "msgId" (text_of q msg_id);
      timeout = 10000;
      has_id = simp value-insert;
      times_out = λ g' h. answers q g c e _ _ _ _ h;
      is_answered = λ o g' h f. answers q g c e _ _ _ _ h;
    }

    pub stop_msg_filter-Asks :
        (channel filter_id : ℕ) → Asks q (stop_msg_filter channel filter_id) g
    unfolding perform done done_with answer pass_thru_stop_msg_filter
    stop_msg_filter-Asks channel filter_id = record {
      message =
          q.insert
            (q.insert (header q J2534.message_id_pt_stop_message_filter) "channelId"
              (text_of q channel))
            "filterId" (text_of q filter_id);
      timeout = 20000;
      has_id = simp value-insert;
      times_out = λ g' h. answers q g c e _ _ _ _ h;
      is_answered = λ o g' h f. answers q g c e _ _ _ _ h;
    }

    pub set_programming_voltage-Asks :
        (pin_number voltage : ℕ) → Asks q (set_programming_voltage 1 pin_number voltage) g
    unfolding perform done done_with answer pass_thru_set_programming_voltage
    set_programming_voltage-Asks pin_number voltage = record {
      message =
          q.insert
            (q.insert (header q J2534.message_id_pt_set_prog_voltage) "pinNumber"
              (text_of q pin_number))
            "voltage" (text_of q voltage);
      timeout = 20000;
      has_id = simp value-insert;
      times_out = λ g' h. answers q g c e _ _ _ _ h;
      is_answered = λ o g' h f. answers q g c e _ _ _ _ h;
    }

    pub ioctl-Asks-simple :
        (channel ioctl_id : ℕ) (input : Option SconfigList)
        → has_configs ioctl_id ≡ false
        → Asks q (ioctl channel ioctl_id input) g
    unfolding perform done done_with pass_thru_ioctl simple_ioctl
    ioctl-Asks-simple channel ioctl_id input n =
        let opened : pass_thru_ioctl q channel ioctl_id input g
            ≡ simple_ioctl q channel ioctl_id g =
          unless_null-open _ _ e ∙ rw n refl in
        record {
          message = ioctl_object q channel ioctl_id;
          timeout = 10000;
          has_id = simp value-insert;
          times_out = λ g' h. opened ∙ bind-returned _ _ h;
          is_answered = λ o g' h f. opened ∙ bind-returned _ _ h;
        }

    pub ioctl-Asks-configs :
        (channel ioctl_id n : ℕ) (configs : List Sconfig)
        → has_configs ioctl_id ≡ true
        → n ≤ length configs
        → Asks q
            (ioctl channel ioctl_id
              (some (record { num_of_params = n; config_ptr = some configs })))
            g
    unfolding perform done done_with pass_thru_ioctl config_ioctl
    ioctl-Asks-configs channel ioctl_id n configs is_list m =
        let list : SconfigList = record { num_of_params = n; config_ptr = some configs } in
        let pairs = config_pairs-enough n configs m in
        let opened : pass_thru_ioctl q channel ioctl_id (some list) g
            ≡ config_ioctl q channel ioctl_id list g =
          unless_null-open _ _ e ∙ rw is_list refl in
        record {
          message = q.insert (ioctl_object q channel ioctl_id) "configList" (q.of_array pairs.0);
          timeout = 10000;
          has_id = simp value-insert;
          times_out = λ g' h. opened ∙ rw (config_ioctl, pairs.1) (bind-returned _ _ h);
          is_answered = λ o g' h f. opened ∙ rw (config_ioctl, pairs.1) (bind-returned _ _ h);
        }
