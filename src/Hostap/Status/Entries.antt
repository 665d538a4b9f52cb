-- ===== src/Hostap/Status/Entries.antt =====
-- What `updateInterfaceStatus` writes.
use eapol_operator.Base.{
  List, [], ◌∷◌, ◌++◌, Str, true, Option, none, some, Result, ok, ◌≡◌, refl, ◌≢◌, ◌∙◌, arith,
  if◌then◌else◌, ◌==◌, bytes_eq, append-nil,
}
use eapol_operator.Base.Dict
use eapol_operator.Api.{Authenticator, Interface, IfState}
use eapol_operator.Host.{Host, done, get_auth_object, update_status, Trace}
use eapol_operator.Host.Actions.{>>=-ok}
use eapol_operator.Host.Views.{IsFaithful, Attempts, once, again}
use eapol_operator.Hostap.Monitor.{Monitor, get_auth}
use eapol_operator.Hostap.Status.{set_status, write_status, push_status, update_interface_status}

-- The first entry of an interface.
abbrev pub entry : Str → List Interface → Option Interface
entry name [] = none
entry name (iface ∷ rest) = if iface.name == name then some iface else entry name rest

abbrev pub names : List Interface → List Str
names [] = []
names (iface ∷ rest) = iface.name ∷ names rest

abbrev pub new_name : Str → Option Interface → List Str
new_name name none = name ∷ []
new_name name (some _) = []

module _ (name : Str) (state : IfState) (clients : List Str) where
  -- The interface's entry holds its state and its clients, and the entries of the others are what
  -- they were.
  entry-set_status :
      (n : Str) (ifaces : List Interface)
      → entry n (set_status name state clients ifaces) ≡ (
          if name == n
          then some (record { name = name; state = state; authenticated_clients = clients })
          else entry n ifaces)
  unfolding set_status
  entry-set_status n [] = refl
  entry-set_status n (iface ∷ ifaces) = ground (arith, entry-set_status n ifaces)

  -- No entry is lost or moved: a new one comes last.
  names-set_status :
      (ifaces : List Interface)
      → names (set_status name state clients ifaces)
        ≡ names ifaces ++ new_name name (entry name ifaces)
  unfolding set_status
  names-set_status [] = refl
  names-set_status (iface ∷ ifaces) =
      ground (arith, names-set_status ifaces, append-nil (names ifaces))

module _ (h : Host) (m : Monitor) where
  -- The status that a run of the closure writes.
  abbrev written : Authenticator → Trace → List Interface
  written auth t =
      set_status m.if_name m.if_eap_state (h.range_texts t (Dict.keys m.pf.authenticated_addrs))
        auth.status.interfaces

  -- In these entries, made from those of a resource, that of the monitor's interface has its EAP state
  -- and the addresses of its clients as they were visited; the others are what they were, and if there
  -- was none of the interface then it is the last.
  abbrev pub IsUpdated : Authenticator → Trace → List Interface → Type 0
  IsUpdated auth t ifaces =
      (entry m.if_name ifaces
        ≡ some (record {
          name = m.if_name;
          state = m.if_eap_state;
          authenticated_clients = h.range_texts t (Dict.keys m.pf.authenticated_addrs);
        }))
      × ((n : Str) → m.if_name ≢ n → entry n ifaces ≡ entry n auth.status.interfaces)
      × (names ifaces
          ≡ names auth.status.interfaces
            ++ new_name m.if_name (entry m.if_name auth.status.interfaces))

  written-IsUpdated : (auth : Authenticator) (t : Trace) → IsUpdated auth t (written auth t)
  written-IsUpdated auth t =
      let clients = h.range_texts t (Dict.keys m.pf.authenticated_addrs) in
      let at = entry-set_status m.if_name m.if_eap_state clients in
      (
        at m.if_name auth.status.interfaces ∙ ground arith,
        λ n p. at n auth.status.interfaces ∙ ground (arith, p),
        names-set_status m.if_name m.if_eap_state clients auth.status.interfaces,
      )

  -- A successful run ends with the accepted status, made from a resource that was read in it.
  abbrev pub Wrote : Trace → Type 0
  Wrote u =
      (auth : Authenticator) × (s : Trace) × (ifaces : List Interface) × (h.auth_object s ≡ ok auth)
      × (u ≡ done (update_status ifaces) ∷ done get_auth_object ∷ s)
      × IsUpdated auth (done get_auth_object ∷ s) ifaces

  write_wrote :
      (auth : Authenticator) (t : Trace)
      → (write_status h m auth t).0 ≡ ok tt
      → (write_status h m auth t).1 ≡ done (update_status (written auth t)) ∷ t
  unfolding write_status
  write_wrote auth t e = ground arith

  push-Wrote : (t : Trace) → (push_status h m t).0 ≡ ok tt → Wrote (push_status h m t).1
  unfolding push_status get_auth
  push-Wrote t e =
      let (auth, read, rest, same) = >>=-ok (get_auth h) (write_status h m) t tt e in
      (
        auth,
        t,
        written auth (done get_auth_object ∷ t),
        read,
        same ∙ write_wrote auth _ rest ∙ rw read,
        written-IsUpdated auth (done get_auth_object ∷ t),
      )

  Attempts-Wrote :
      (t : Trace) {p : Result (Unit {0}) × Trace}
      → Attempts (push_status h m) t p
      → p.0 ≡ ok tt
      → Wrote p.1
  Attempts-Wrote t once e = push-Wrote t e
  Attempts-Wrote t (again {p = p} more) e = push-Wrote p.1 e

  -- When the status has been brought up to date with no error, the last call is an accepted update
  -- of a status that was read in the same attempt, in which the interface's entry has the
  -- monitor's EAP state and the authenticated addresses, in the order in which they were visited, the
  -- entries of other interfaces are as they were read, and no entry is lost or moved.
  pub update-Wrote :
      IsFaithful h
      → m.has_client ≡ true
      → (t : Trace) → (update_interface_status h m t).0 ≡ ok tt
      → Wrote (update_interface_status h m t).1
  unfolding update_interface_status
  update-Wrote faithful c t e =
      rw (c, update_interface_status)
        (Attempts-Wrote t (faithful.retries (push_status h m) t)
          (rw (c, update_interface_status) at e))
