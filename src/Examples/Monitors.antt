-- ===== src/Examples/Monitors.antt =====
-- The theorems on a monitor and its messages, applied to the example.
use eapol_operator.Base.{
  List, [], ◌∷◌, ◌++◌, Str, bytes, some, ◌≡◌, ◌≢◌, refl, arith, nat_eq, bytes_eq,
}
use eapol_operator.Base.Dict
use eapol_operator.Base.Text.{join, split}
use eapol_operator.Api.{dfs}
use eapol_operator.Host.{Host, Trace}
use eapol_operator.Host.Actions.{for_each}
use eapol_operator.TrafficControl.Sriov.{
  get_sriov_pf_info, configure_vlan_state_for_vfs, configure_vlan_state,
}
use eapol_operator.Hostap.Monitor.{Monitor}
use eapol_operator.Hostap.Status.{update_interface_status}
use eapol_operator.Hostap.Status.Entries.{Wrote, update-Wrote}
use eapol_operator.Hostap.Clients.Invariant.{IsSound}
use eapol_operator.Hostap.Dispatch.{handle_hostapd_event, get_if_state, sta_connected, newline}
use eapol_operator.Hostap.Dispatch.Messages.{reaction, message_text, message_dispatch}
use eapol_operator.Hostap.Dispatch.State.{state_line, known, get_if_state_lem}
use eapol_operator.Hostap.Dispatch.Safety.{Reach, here, next, message, Reach-IsSound}
use eapol_operator.Base.{err, outside, false}
use eapol_operator.Hostap.Start.{set_up, attach_hostapd}
use eapol_operator.Hostap.Monitor.{write_command}
use eapol_operator.Base.{Result, ok, ℕ, zero, suc, ◌<◌}
use eapol_operator.Hostap.Start.Attach.{IsTimeout, answer, after_writes, attach_hostapd_ends}
use eapol_operator.Base.{true}
use eapol_operator.Hostap.Closing.{
  Subscription, Action, stop_closed, channel_closed, update_comes, monitor_unsubscribes, happen,
  closing_order,
}
use eapol_operator.Hostap.Start.Established.{set_up_ok, IsEstablished}
use eapol_operator.Examples.{mac, machine, faithful, fresh}

-- The calls of a set-up.
abbrev established : Trace
established = (set_up machine fresh []).1

fresh-IsEstablished : IsEstablished fresh established
fresh-IsEstablished = set_up_ok machine faithful fresh fresh [] (
    unfold set_up get_sriov_pf_info configure_vlan_state_for_vfs configure_vlan_state for_each
      Dict.insert Dict.keys Dict.lookup nat_eq in
    refl)

set_up_ok_example : IsEstablished fresh (set_up machine fresh []).1
set_up_ok_example = set_up_ok machine faithful fresh fresh [] (
    unfold set_up get_sriov_pf_info configure_vlan_state_for_vfs configure_vlan_state for_each
      Dict.insert Dict.keys Dict.lookup nat_eq in
    refl)

abbrev connected : Str
connected = message_text (bytes "<3") sta_connected mac

abbrev later : Monitor
later = (handle_hostapd_event machine connected fresh established).1

abbrev later_calls : Trace
later_calls = (handle_hostapd_event machine connected fresh established).2

connects : Reach machine fresh established later later_calls
connects = next here (message connected)

Reach-IsSound_example : IsSound later
Reach-IsSound_example = Reach-IsSound machine faithful fresh-IsEstablished.0 connects

message_dispatch_example :
    handle_hostapd_event machine (message_text (bytes "<3") sta_connected mac) fresh []
    ≡ reaction machine sta_connected mac fresh []
message_dispatch_example =
    message_dispatch machine (bytes "<3") sta_connected mac fresh [] (omega arith) (omega arith)
      (omega arith)

not_state : (w : Str) (ws : List Str) → split b'=' (bytes "freq=1") ≡ w ∷ ws → w ≢ bytes "state"
not_state w ws p q = unfold split nat_eq in cc

get_if_state_example :
    get_if_state
      (join (newline ∷ []) ((bytes "phy=p" ∷ []) ++ state_line dfs ∷ bytes "freq=1" ∷ []))
    ≡ known dfs
get_if_state_example =
    get_if_state_lem (bytes "phy=p" ∷ []) (bytes "freq=1" ∷ []) dfs (omega arith)
      ((λ w ws p q. not_state w ws p q), tt)

update-Wrote_example : Wrote machine fresh (update_interface_status machine fresh []).1
update-Wrote_example =
    update-Wrote machine fresh faithful refl [] (unfold update_interface_status in refl)

-- A machine whose socket takes a command only after two others.
abbrev pub late_answer : Trace → Result (Unit {0})
late_answer (_ ∷ _ ∷ t) = ok tt
late_answer t = err (outside 5)

abbrev pub slow : Host
slow = record machine { write = λ c t. late_answer t }

timed_out : (j : ℕ) → j < 2 → IsTimeout slow (answer slow j [])
unfolding write_command
timed_out zero l = refl
timed_out (suc zero) l = refl
timed_out (suc (suc j)) l = absurd (omega arith)

attach_hostapd_ends_example : attach_hostapd slow 5 [] ≡ (some (ok tt), after_writes slow 3 [])
attach_hostapd_ends_example =
    unfold write_command in attach_hostapd_ends slow 5 2 [] (omega arith) timed_out (λ p. p)

abbrev listening : Subscription
listening = record {
  subscribed = true;
  stopping = false;
  is_closed = false;
  sending = false;
  crashed = false;
}

closing_order_example :
    ((happen (stop_closed ∷ channel_closed ∷ update_comes ∷ []) listening).crashed ≡ true)
    × ((happen (update_comes ∷ stop_closed ∷ channel_closed ∷ []) listening).crashed ≡ true)
    × ((acts : List Action)
        → (happen (stop_closed ∷ monitor_unsubscribes ∷ acts) listening).crashed ≡ false)
closing_order_example = closing_order listening refl refl refl refl
