-- ===== src/Hostap/Status/Quiet.antt =====
-- Bringing the status up to date sets up no VF.
use eapol_operator.Base.{refl}
use eapol_operator.Base.Dict
use eapol_operator.Api.{Authenticator}
use eapol_operator.Host.{Host, update_status}
use eapol_operator.Host.Views.{IsFaithful}
use eapol_operator.Host.Quiet.{IsQuiet, IsQuiet-perform, IsQuiet-retry, quiet_rules}
use eapol_operator.Hostap.Monitor.{Monitor, get_auth}
use eapol_operator.Hostap.Status.{set_status, write_status, push_status, update_interface_status}

module _ (h : Host) (faithful : IsFaithful h) (m : Monitor) where
  write_status-IsQuiet : (auth : Authenticator) → IsQuiet (write_status h m auth)
  unfolding write_status
  write_status-IsQuiet auth = record {
    at = λ t.
        (IsQuiet-perform
            (update_status (
              set_status m.if_name m.if_eap_state
                (h.range_texts t (Dict.keys m.pf.authenticated_addrs)) auth.status.interfaces))
            (h.put_status _) refl).at
          t;
  }

  get_auth-IsQuiet : IsQuiet (get_auth h)
  unfolding get_auth
  get_auth-IsQuiet = search quiet_rules

  push_status-IsQuiet : IsQuiet (push_status h m)
  unfolding push_status
  push_status-IsQuiet = search (quiet_rules, get_auth-IsQuiet, write_status-IsQuiet)

  pub status-IsQuiet : IsQuiet (update_interface_status h m)
  unfolding update_interface_status
  status-IsQuiet = search (quiet_rules, IsQuiet-retry h faithful, push_status-IsQuiet)
