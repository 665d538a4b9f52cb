-- ===== src/MonitorMain/Program/Loops.antt =====
-- The loops of `main`, when no goroutine takes a step in between, as steps of the program.
use eapol_operator.Base.{
  ℕ, zero, suc, List, [], ◌∷◌, ◌++◌, Str, bytes, false, Bool-cases, inl, inr, Option, none, some,
  Result, ok, err, ◌≡◌, refl, ap, ◌∙◌, All, map,
}
use eapol_operator.Host.{Host, Trace}
use eapol_operator.Hostap.Monitor.{Monitor, new_interface_monitor, write_command}
use eapol_operator.Hostap.Clients.{stop_monitor}
use eapol_operator.Hostap.Start.{
  set_up, attach_hostapd, attach_next, after_attach, after_set_up, start_monitor,
}
use eapol_operator.MonitorMain.{reset_interfaces}
use eapol_operator.MonitorMain.Shutdown.{with_started, start_monitors, shutdown}
use eapol_operator.MonitorMain.Program.Chain.{Chain, none_yet, and_then, chain, behind, one}
use eapol_operator.MonitorMain.Program.{
  Slot, waiting, attaching, attached, running, closing, ending, stopped, disturbed, abandoned,
  absent, IsSettled, IsOver, here, Starts, sets_up, sets_up_not, attaches_again, attaches,
  attaches_not, gives_up, closes, ends, reports, Stops, stops, goes_on_stopping,
}

-- The monitors of `main`'s list.
abbrev pub monitors_of : List Slot → List Monitor
monitors_of [] = []
monitors_of (running m ∷ slots) = m ∷ monitors_of slots
monitors_of (_ ∷ slots) = monitors_of slots

module _ (h : Host) where
  -- What the loop appends for an interface.
  abbrev appended : Result (Unit {0}) → Monitor → List Monitor
  appended (ok _) m = m ∷ []
  appended (err _) m = []

  -- The head of the list is brought to the end of its start, unless this has no end.
  abbrev Comes : Slot → Trace → Option (Result (Unit {0})) × Monitor × Trace → Type 0
  Comes s t (none, m, u) = Unit
  Comes s t (some r, m, u) =
      (s' : Slot) × IsSettled s'
      × (monitors_of (s' ∷ []) ≡ appended r m)
      × ((a : List Slot) → Chain IsSettled (Starts h) (s ∷ a) t (s' ∷ a) u)

  Comes-after :
      (s s' : Slot) (t u : Trace) (out : Option (Result (Unit {0})) × Monitor × Trace)
      → ((a : List Slot) → Chain IsSettled (Starts h) (s ∷ a) t (s' ∷ a) u)
      → Comes s' u out
      → Comes s t out
  Comes-after s s' t u (none, m, v) c x = tt
  Comes-after s s' t u (some r, m, v) c (s'', p, q, d) = (s'', p, q, λ a. chain (c a) (d a))

  attach_lost :
      {m : Monitor} {t : Trace} {e : _} {a : List Slot}
      → (write_command h (bytes "ATTACH") t).0 ≡ err e
      → h.is_timeout e ≡ false
      → Chain IsSettled
          (Starts h)
          (attaching m ∷ a)
          t
          (stopped (stop_monitor h m (write_command h (bytes "ATTACH") t).1).0 ∷ a)
          (stop_monitor h m (write_command h (bytes "ATTACH") t).1).1
  unfolding stop_monitor
  attach_lost p lost =
      and_then (and_then (one (attaches_not p lost)) (here (gives_up closes)))
        (here (gives_up ends))

  stop_one :
      {m : Monitor} {t : Trace} {a : List Slot}
      → Chain IsOver
          (Stops h)
          (running m ∷ a)
          t
          (stopped (stop_monitor h m t).0 ∷ a)
          (stop_monitor h m t).1
  unfolding stop_monitor
  stop_one =
      and_then (and_then (one stops) (here (goes_on_stopping closes)))
        (here (goes_on_stopping ends))

  attach_written-Comes :
      (n : ℕ) (m : Monitor) (t : Trace) (w : Result (Unit {0}))
      → (write_command h (bytes "ATTACH") t).0 ≡ w
      → ((v : Trace) → Comes (attaching m) v (after_attach h m (attach_hostapd h n v)))
      → Comes (attaching m) t (
          after_attach h m
            (attach_next h w (attach_hostapd h n) (write_command h (bytes "ATTACH") t).1))
  unfolding attach_next after_attach
  attach_written-Comes n m t (ok _) p again =
      (running m, tt, refl, λ a. and_then (one (attaches p)) (here reports))
  attach_written-Comes n m t (err f) p again = elim (Bool-cases (h.is_timeout f)) [
    | inl late ↦
        rw (late, attach_next)
          (Comes-after (attaching m) (attaching m) t (write_command h (bytes "ATTACH") t).1
            (after_attach h m (attach_hostapd h n (write_command h (bytes "ATTACH") t).1))
            (λ a. one (attaches_again p late)) (again (write_command h (bytes "ATTACH") t).1))
    | inr lost ↦ rw (lost, attach_next) (_, tt, refl, λ a. attach_lost p lost)
  ]

  attach-Comes :
      (n : ℕ) (m : Monitor) (t : Trace)
      → Comes (attaching m) t (after_attach h m (attach_hostapd h n t))
  unfolding attach_hostapd after_attach
  attach-Comes zero m t = tt
  attach-Comes (suc n) m t = attach_written-Comes n m t _ refl (attach-Comes n m)

  set_up-Comes :
      (n : ℕ) (i : Str) (t : Trace) (r : Result Monitor)
      → (set_up h (new_interface_monitor i) t).0 ≡ r
      → Comes
          (waiting i)
          t
          (after_set_up h n (new_interface_monitor i) (r, (set_up h (new_interface_monitor i) t).1))
  unfolding after_set_up
  set_up-Comes n i t (err e) p = (absent i, tt, refl, λ a. one (sets_up_not p))
  set_up-Comes n i t (ok m) p =
      Comes-after (waiting i) (attaching m) t (set_up h (new_interface_monitor i) t).1
        (after_attach h m (attach_hostapd h n (set_up h (new_interface_monitor i) t).1))
        (λ a. one (sets_up p)) (attach-Comes n m _)

  start-Comes :
      (n : ℕ) (i : Str) (t : Trace)
      → Comes (waiting i) t (start_monitor h n (new_interface_monitor i) t)
  unfolding start_monitor
  start-Comes n i t = set_up-Comes n i t _ refl

  -- All of the list is.
  abbrev pub AllCome : List Str → Trace → Option (List Monitor) × Trace → Type 0
  AllCome ifaces t (none, u) = Unit
  AllCome ifaces t (some ms, u) =
      (slots : List Slot) × All IsSettled slots
      × (monitors_of slots ≡ ms)
      × Chain IsSettled (Starts h) (map waiting ifaces) t slots u

  appended_monitors :
      (s : Slot) (slots : List Slot)
      → monitors_of (s ∷ slots) ≡ monitors_of (s ∷ []) ++ monitors_of slots
  appended_monitors (waiting i) slots = refl
  appended_monitors (attaching m) slots = refl
  appended_monitors (attached m) slots = refl
  appended_monitors (running m) slots = refl
  appended_monitors (closing m) slots = refl
  appended_monitors (ending m) slots = refl
  appended_monitors (stopped m) slots = refl
  appended_monitors (disturbed i) slots = refl
  appended_monitors (abandoned i) slots = refl
  appended_monitors (absent i) slots = refl

  cons-Comes :
      (i : Str) (is : List Str) (t : Trace) (r : Option (Result (Unit {0}))) (m : Monitor)
      (u : Trace) (rest : Option (List Monitor)) (v : Trace)
      → Comes (waiting i) t (r, m, u)
      → AllCome is u (rest, v)
      → AllCome (i ∷ is) t (with_started r m rest, v)
  unfolding with_started
  cons-Comes i is t none m u rest v c a = tt
  cons-Comes i is t (some (ok _)) m u none v c a = tt
  cons-Comes i is t (some (ok _)) m u (some ms) v (s, p, q, d) (slots, ps, qs, ds) = (
    s ∷ slots,
    (p, ps),
    appended_monitors s slots ∙ ap (λ x. x ++ monitors_of slots) q ∙ ap (◌∷◌ m) qs,
    chain (d (map waiting is)) (behind p ds),
  )
  cons-Comes i is t (some (err e)) m u none v c a = tt
  cons-Comes i is t (some (err e)) m u (some ms) v (s, p, q, d) (slots, ps, qs, ds) = (
    s ∷ slots,
    (p, ps),
    appended_monitors s slots ∙ ap (λ x. x ++ monitors_of slots) q ∙ qs,
    chain (d (map waiting is)) (behind p ds),
  )

  pub all-AllCome :
      (n : ℕ) (ifaces : List Str) (t : Trace) → AllCome ifaces t (start_monitors h n ifaces t)
  unfolding start_monitors
  all-AllCome n [] t = ([], tt, refl, none_yet)
  all-AllCome n (i ∷ is) t =
      let (r, m, u) = start_monitor h n (new_interface_monitor i) t in
      let (rest, v) = start_monitors h n is u in
      cons-Comes i is t r m u rest v (start-Comes n i t) (all-AllCome n is u)

  -- The loop that stops them.
  pub all-Stops :
      (slots : List Slot) (ifaces : List Str) (t : Trace)
      → All IsSettled slots
      → (over : List Slot) × (u : Trace) × All IsOver over
        × (shutdown h (monitors_of slots) ifaces t ≡ (reset_interfaces h ifaces u).1)
        × Chain IsOver (Stops h) slots t over u
  unfolding shutdown
  all-Stops [] ifaces t s = ([], t, tt, refl, none_yet)
  all-Stops (waiting i ∷ slots) ifaces t (s, _) = absurd s
  all-Stops (attaching m ∷ slots) ifaces t (s, _) = absurd s
  all-Stops (attached m ∷ slots) ifaces t (s, _) = absurd s
  all-Stops (closing m ∷ slots) ifaces t (s, _) = absurd s
  all-Stops (ending m ∷ slots) ifaces t (s, _) = absurd s
  all-Stops (running m ∷ slots) ifaces t (_, s) =
      let (over, u, o, same, c) = all-Stops slots ifaces (stop_monitor h m t).1 s in
      (stopped (stop_monitor h m t).0 ∷ over, u, (tt, o), same, chain stop_one (behind tt c))
  all-Stops (stopped m ∷ slots) ifaces t (_, s) =
      let (over, u, o, same, c) = all-Stops slots ifaces t s in
      (stopped m ∷ over, u, (tt, o), same, behind tt c)
  all-Stops (disturbed i ∷ slots) ifaces t (s, _) = absurd s
  all-Stops (abandoned i ∷ slots) ifaces t (_, s) =
      let (over, u, o, same, c) = all-Stops slots ifaces t s in
      (abandoned i ∷ over, u, (tt, o), same, behind tt c)
  all-Stops (absent i ∷ slots) ifaces t (_, s) =
      let (over, u, o, same, c) = all-Stops slots ifaces t s in
      (absent i ∷ over, u, (tt, o), same, behind tt c)
