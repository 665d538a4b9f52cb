-- ===== src/Hostap/Dispatch/Safety.antt =====
-- The monitor as it runs: messages of hostapd, link events, rounds of the timeout loop and pings, in
-- any order. Each holds `addrMutex` while it works, so a run is a sequence of such steps.
use eapol_operator.Base.{
  ℕ, List, [], ◌∷◌, Str, bytes, some, ◌≡◌, ◌∙◌, arith, Bool-cases, inl, inr, nat_eq, if◌then◌else◌,
}
use eapol_operator.Base.Dict
use eapol_operator.Host.{Host, Link, Trace, state_auto, state_disable}
use eapol_operator.Host.Views.{IsFaithful, IsObliging, vlan_of, state_of}
use eapol_operator.Host.Quiet.{SameVfs, SameVfs-refl}
use eapol_operator.TrafficControl.Sriov.{VfInfo, reserved_vlan}
use eapol_operator.TrafficControl.Sriov.Kernel.{AllConfigured}
use eapol_operator.TrafficControl.Tc.Port.{AllConfigured-SameVfs}
use eapol_operator.Hostap.Stats
use eapol_operator.Hostap.Monitor.{Monitor, write_command}
use eapol_operator.Hostap.Status.Quiet.{status-IsQuiet}
use eapol_operator.Hostap.Clients.{handle_if_event, handle_requests_timeout_round}
use eapol_operator.Hostap.Clients.Invariant.{
  IsSound, has_clients, authenticate-IsSound, de_authenticate-IsSound, timeout-IsSound,
}
use eapol_operator.Hostap.Clients.Invariant.LinkState.{if_event-IsSound}
use eapol_operator.Hostap.Clients.Guarded.{
  log_event_quiet, write_command-IsQuiet, authenticate-AllConfigured, de_authenticate-AllConfigured,
  timeout-AllConfigured, if_event-AllConfigured,
}
use eapol_operator.Hostap.Dispatch.{
  EventKey, sta_connected, eap_success, sta_disconnected, eap_failure, other, on_event, on_words,
  on_reply, finish, handle_hostapd_event, is_solicited_event, status_reply, key_of, event_key,
}
use eapol_operator.Base.Text.{contains}

module _ (h : Host) where
  pub on_event-IsSound :
      (k : EventKey) (addr : Str) (m : Monitor) (t : Trace)
      → IsSound m
      → IsSound (on_event h k addr m t).1
  unfolding on_event
  on_event-IsSound sta_connected addr m t s = authenticate-IsSound h addr m t s
  on_event-IsSound sta_disconnected addr m t s =
      de_authenticate-IsSound h addr _ _ (record { port = s.port; pending = s.pending })
  on_event-IsSound eap_success addr m t s = record { port = s.port; pending = s.pending }
  on_event-IsSound eap_failure addr m t s = record { port = s.port; pending = s.pending }
  on_event-IsSound other addr m t s = s

  -- A reply changes nothing but the EAP state.
  pub reply-pf : (event : Str) (m : Monitor) (t : Trace) → (on_reply h event m t).1.pf ≡ m.pf
  unfolding on_reply
  reply-pf event m t = ground arith

  pub reply-requests :
      (event : Str) (m : Monitor) (t : Trace)
      → (on_reply h event m t).1.deauth_requests ≡ m.deauth_requests
  unfolding on_reply
  reply-requests event m t = ground arith

  pub reply-IsSound :
      (event : Str) (m : Monitor) (t : Trace) → IsSound m → IsSound (on_reply h event m t).1
  reply-IsSound event m t s = record {
    port = rw reply-pf s.port;
    pending = λ a. rw (reply-pf, reply-requests) (s.pending a);
  }

  words-IsSound :
      (event : Str) (words : List Str) (m : Monitor) (t : Trace)
      → IsSound m
      → IsSound (on_words h event words m t).1
  unfolding on_words finish
  words-IsSound event [] m t s = reply-IsSound event m t s
  words-IsSound event (w ∷ []) m t s = reply-IsSound event m t s
  words-IsSound event (key ∷ addr ∷ _) m t s = on_event-IsSound _ addr m t s

  -- Every message of hostapd leaves a sound monitor, whatever its text is and whatever fails.
  pub message-IsSound :
      (event : Str) (m : Monitor) (t : Trace)
      → IsSound m
      → IsSound (handle_hostapd_event h event m t).1
  unfolding handle_hostapd_event
  message-IsSound event m t s = words-IsSound event _ m t s

  -- One step of a monitor that runs.
  pub data Step (m : Monitor) (t : Trace) : Monitor → Trace → Type 0 where
    message :
        (event : Str)
        → Step m t (handle_hostapd_event h event m t).1 (handle_hostapd_event h event m t).2
    link_event :
        (link : Link) → Step m t (handle_if_event h link m t).0 (handle_if_event h link m t).1
    timeout_round :
        Step m t (handle_requests_timeout_round h m t).0 (handle_requests_timeout_round h m t).1
    keep_alive : Step m t m (write_command h (bytes "PING") t).1

  pub data Reach (m : Monitor) (t : Trace) : Monitor → Trace → Type 0 where
    here : Reach m t m t
    next :
        {n : Monitor} {u : Trace} {o : Monitor} {v : Trace}
        → Reach m t n u
        → Step n u o v
        → Reach m t o v

  pub Step-IsSound :
      (faithful : IsFaithful h) {m : Monitor} {t : Trace} {n : Monitor} {u : Trace}
      → Step m t n u
      → IsSound m
      → IsSound n
  Step-IsSound faithful {m} {t} (message event) s = message-IsSound event m t s
  Step-IsSound faithful {m} {t} (link_event link) s = if_event-IsSound h faithful link m t s
  Step-IsSound faithful {m} {t} timeout_round s = timeout-IsSound h m t s
  Step-IsSound faithful {m} {t} keep_alive s = s

  -- However a sound monitor runs, and whatever fails, it stays sound: its port is open just when it
  -- has clients, and each pending request is one of a client.
  pub Reach-IsSound :
      (faithful : IsFaithful h) {m : Monitor} {t : Trace} {n : Monitor} {u : Trace}
      → IsSound m
      → Reach m t n u
      → IsSound n
  Reach-IsSound faithful s here = s
  Reach-IsSound faithful s (next r st) = Step-IsSound faithful st (Reach-IsSound faithful s r)

-- What the kernel is to hold for a VF: its own VLAN and the state of its link while a client is
-- authenticated; the reserved VLAN and a link that is disabled while none is.
abbrev pub IsControlled : Monitor → VfInfo → Trace → Type 0
IsControlled m vf t =
    (vlan_of m.pf.name vf.index t
      ≡ some (if has_clients m.pf.authenticated_addrs then vf.vlan else reserved_vlan))
    × (state_of m.pf.name vf.index t
        ≡ some (if has_clients m.pf.authenticated_addrs then state_auto else state_disable))

module _ (h : Host) (faithful : IsFaithful h) where
  pub reply_quiet : (event : Str) (m : Monitor) (t : Trace) → SameVfs t (on_reply h event m t).2
  unfolding on_reply
  reply_quiet event m t = elim (Bool-cases (is_solicited_event event)) [
    | inr no_ ↦ rw (no_, on_reply) (SameVfs-refl t)
    | inl yes_ ↦
        rw (yes_, on_reply)
          (elim (Bool-cases (contains event status_reply)) [
            | inr none_ ↦ rw (none_, on_reply) (SameVfs-refl t)
            | inl some_ ↦ rw (some_, on_reply) ((status-IsQuiet h faithful _).at t)
          ])
  ]

module _ (h : Host) (faithful : IsFaithful h) (obliging : IsObliging h) where
  on_event-AllConfigured :
      (k : EventKey) (addr : Str) (m : Monitor) (t : Trace)
      → AllConfigured m.pf t
      → AllConfigured (on_event h k addr m t).1.pf (on_event h k addr m t).2
  unfolding on_event
  on_event-AllConfigured sta_connected addr m t a =
      authenticate-AllConfigured h faithful obliging addr m t a
  on_event-AllConfigured sta_disconnected addr m t a =
      de_authenticate-AllConfigured h faithful obliging addr
        (record m { stats = Stats.de_authenticated m.if_name m.stats }) _
        (AllConfigured-SameVfs m.pf (log_event_quiet h m.has_client _ t) a)
  on_event-AllConfigured eap_success addr m t a =
      AllConfigured-SameVfs m.pf (log_event_quiet h m.has_client _ t) a
  on_event-AllConfigured eap_failure addr m t a =
      AllConfigured-SameVfs m.pf (log_event_quiet h m.has_client _ t) a
  on_event-AllConfigured other addr m t a = a

  reply-AllConfigured :
      (event : Str) (m : Monitor) (t : Trace)
      → AllConfigured m.pf t
      → AllConfigured (on_reply h event m t).1.pf (on_reply h event m t).2
  reply-AllConfigured event m t a =
      rw reply-pf (AllConfigured-SameVfs m.pf (reply_quiet h faithful event m t) a)

  words-AllConfigured :
      (event : Str) (words : List Str) (m : Monitor) (t : Trace)
      → AllConfigured m.pf t
      → AllConfigured (on_words h event words m t).1.pf (on_words h event words m t).2
  unfolding on_words finish
  words-AllConfigured event [] m t a = reply-AllConfigured event m t a
  words-AllConfigured event (w ∷ []) m t a = reply-AllConfigured event m t a
  words-AllConfigured event (key ∷ addr ∷ _) m t a =
      let (_, m', t') = on_event h (key_of (event_key key)) addr m t in
      AllConfigured-SameVfs m'.pf ((status-IsQuiet h faithful m').at t')
        (on_event-AllConfigured (key_of (event_key key)) addr m t a)

  message-AllConfigured :
      (event : Str) (m : Monitor) (t : Trace)
      → AllConfigured m.pf t
      → AllConfigured (handle_hostapd_event h event m t).1.pf (handle_hostapd_event h event m t).2
  unfolding handle_hostapd_event
  message-AllConfigured event m t a = words-AllConfigured event _ m t a

  pub Step-AllConfigured :
      {m : Monitor} {t : Trace} {n : Monitor} {u : Trace}
      → Step h m t n u
      → AllConfigured m.pf t
      → AllConfigured n.pf u
  Step-AllConfigured {m} {t} (message event) a = message-AllConfigured event m t a
  Step-AllConfigured {m} {t} (link_event link) a =
      if_event-AllConfigured h faithful obliging link m t a
  Step-AllConfigured {m} {t} timeout_round a = timeout-AllConfigured h faithful obliging m t a
  Step-AllConfigured {m} {t} keep_alive a =
      AllConfigured-SameVfs m.pf ((write_command-IsQuiet h (bytes "PING")).at t) a

  pub Reach-AllConfigured :
      {m : Monitor} {t : Trace} {n : Monitor} {u : Trace}
      → AllConfigured m.pf t
      → Reach h m t n u
      → AllConfigured n.pf u
  Reach-AllConfigured a here = a
  Reach-AllConfigured a (next r st) = Step-AllConfigured st (Reach-AllConfigured a r)

  -- Port-based control. From a sound monitor whose VFs are set up, whatever messages, link events,
  -- timeouts and pings come, and whatever fails but the setting of VFs: every VF of the PF has its
  -- own VLAN and follows its link if a client is authenticated, and is on the reserved VLAN and
  -- disabled if none is.
  pub port_control :
      {m : Monitor} {t : Trace} {n : Monitor} {u : Trace}
      → IsSound m
      → AllConfigured m.pf t
      → Reach h m t n u
      → (i : ℕ) (vf : VfInfo) → Dict.lookup i n.pf.vfs ≡ some vf
      → IsControlled n vf u
  port_control s a r i vf p =
      let sound = Reach-IsSound h faithful s r in
      let (vlan, state) = (Reach-AllConfigured a r).configured i vf p in
      (vlan ∙ rw sound.port (ground arith), state ∙ rw sound.port (ground arith))
