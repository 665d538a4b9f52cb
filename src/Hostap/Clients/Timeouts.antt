-- ===== src/Hostap/Clients/Timeouts.antt =====
-- Which clients one round of `handleRequestsTimeout` drops.
use eapol_operator.Base.{
  ℕ, ◌-◌, ◌≤◌, ◌<◌, List, [], ◌∷◌, Str, Bool, true, false, Option, none, some, ◌≡◌, refl, ◌≢◌,
  arith, ◌∙◌, In, inl, inr, Bool-cases, bytes_eq, ltb, if◌then◌else◌, ◌==◌,
}
use eapol_operator.Base.Dict
use eapol_operator.Base.Dict.{Dict}
use eapol_operator.Host.{Host, Trace}
use eapol_operator.Host.Views.{IsFaithful}
use eapol_operator.TrafficControl.Tc.Port.{pf-deny}
use eapol_operator.Hostap.Monitor.{Monitor}
use eapol_operator.Hostap.Clients.{
  drop_client, handle_de_authenticate_event, timeout_loop, handle_requests_timeout_round, timestamp,
  request_timeout,
}

abbrev pub request : Monitor → Str → Option ℕ
request m a = Dict.lookup a m.deauth_requests

abbrev pub client : Monitor → Str → Option (Unit {0})
client m a = Dict.lookup a m.pf.authenticated_addrs

-- Every client has a request to leave that is pending.
abbrev pub AllAsked : Monitor → Type 0
AllAsked m = (a : Str) → client m a ≢ none → request m a ≢ none

module _ (h : Host) where
  drop_request :
      (addr a : Str) (m : Monitor) (t : Trace)
      → request (drop_client h addr m t).0 a ≡ (if a == addr then none else request m a)
  unfolding drop_client
  drop_request addr a m t = Dict.lookup-erase a addr m.deauth_requests

  drop_addr :
      (addr a : Str) (m : Monitor) (t : Trace)
      → client (drop_client h addr m t).0 a ≡ (if a == addr then none else client m a)
  unfolding drop_client
  drop_addr addr a m t =
      rw pf-deny (ground (arith, Dict.lookup-erase a addr m.pf.authenticated_addrs))

  abbrev young : ℕ → Monitor → Str → Bool
  young now m a = ltb (now - timestamp h (request m a)) request_timeout

  -- A client that was not to be dropped is not, and its request stays.
  loop_keeps :
      (now : ℕ) (addrs : List Str) (m : Monitor) (t : Trace) (a : Str)
      → (In a addrs → young now m a ≡ true)
      → (client (timeout_loop h now addrs m t).0 a ≡ client m a)
        × (request (timeout_loop h now addrs m t).0 a ≡ request m a)
  unfolding timeout_loop
  loop_keeps now [] m t a hy = (refl, refl)
  loop_keeps now (addr ∷ addrs) m t a hy = elim (Bool-cases (young now m addr)) [
    | inl early ↦ rw (early, timeout_loop) (refl, refl)
    | inr late ↦
        let other : a ≢ addr = λ p. cc (late, p, hy (inl p)) in
        let (m', t') = drop_client h addr m t in
        let same : request m' a ≡ request m a = ground (arith, drop_request addr a m t) in
        let same_client : client m' a ≡ client m a = ground (arith, drop_addr addr a m t) in
        let rest = loop_keeps now addrs m' t' a (λ i. rw same (hy (inr i))) in
        rw (late, timeout_loop) (rest.0 ∙ same_client, rest.1 ∙ same)
  ]

  -- Who is a client has a request to leave pending: a round keeps it so, and so does a client that
  -- leaves.
  loop_asked :
      (now : ℕ) (addrs : List Str) (m : Monitor) (t : Trace)
      → AllAsked m
      → AllAsked (timeout_loop h now addrs m t).0
  unfolding timeout_loop
  loop_asked now [] m t asked = asked
  loop_asked now (addr ∷ addrs) m t asked = elim (Bool-cases (young now m addr)) [
    | inl early ↦ rw (early, timeout_loop) asked
    | inr late ↦
        rw (late, timeout_loop)
          (loop_asked now addrs (drop_client h addr m t).0 (drop_client h addr m t).1
            (λ a. ground (arith, drop_request addr a m t, drop_addr addr a m t, asked a)))
  ]

  pub round_asked :
      (m : Monitor) (t : Trace) → AllAsked m → AllAsked (handle_requests_timeout_round h m t).0
  unfolding handle_requests_timeout_round
  round_asked m t asked = loop_asked (h.now t) _ m t asked

  leave_request :
      (addr a : Str) (m : Monitor) (t : Trace)
      → request (handle_de_authenticate_event h addr m t).1 a
        ≡ (if a == addr then none else request m a)
  unfolding handle_de_authenticate_event
  leave_request addr a m t = Dict.lookup-erase a addr m.deauth_requests

  leave_client :
      (addr a : Str) (m : Monitor) (t : Trace)
      → client (handle_de_authenticate_event h addr m t).1 a
        ≡ (if a == addr then none else client m a)
  unfolding handle_de_authenticate_event
  leave_client addr a m t =
      rw pf-deny (ground (arith, Dict.lookup-erase a addr m.pf.authenticated_addrs))

  pub leave_asked :
      (addr : Str) (m : Monitor) (t : Trace)
      → AllAsked m
      → AllAsked (handle_de_authenticate_event h addr m t).1
  leave_asked addr m t asked a =
      ground (arith, leave_request addr a m t, leave_client addr a m t, asked a)

  -- Once dropped, a client stays dropped.
  loop_gone :
      (now : ℕ) (addrs : List Str) (m : Monitor) (t : Trace) (a : Str)
      → client m a ≡ none
      → client (timeout_loop h now addrs m t).0 a ≡ none
  unfolding timeout_loop
  loop_gone now [] m t a g = g
  loop_gone now (addr ∷ addrs) m t a g = elim (Bool-cases (young now m addr)) [
    | inl early ↦ rw (early, timeout_loop) g
    | inr late ↦
        rw (late, timeout_loop)
          (loop_gone now addrs (drop_client h addr m t).0 (drop_client h addr m t).1 a
            (ground (arith, drop_addr addr a m t)))
  ]

  -- Where all that is visited is old, each is dropped.
  loop_drops :
      (now : ℕ) (addrs : List Str) (m : Monitor) (t : Trace) (a : Str)
      → request_timeout ≤ now
      → ((b : Str) → In b addrs → young now m b ≡ false)
      → In a addrs
      → client (timeout_loop h now addrs m t).0 a ≡ none
  unfolding timeout_loop
  loop_drops now [] m t a late old i = absurd i
  loop_drops now (addr ∷ addrs) m t a late old (inl p) =
      rw (old addr (inl refl), timeout_loop)
        (loop_gone now addrs (drop_client h addr m t).0 (drop_client h addr m t).1 a
          (ground (arith, drop_addr addr a m t)))
  loop_drops now (addr ∷ addrs) m t a late old (inr i) =
      let (m', t') = drop_client h addr m t in
      rw (old addr (inl refl), timeout_loop)
        (loop_drops now addrs m' t' a late
          (λ b j. ground (arith, drop_request addr b m t, old b (inr j))) i)

  abbrev visited : Monitor → Trace → List Str
  visited m t = h.range_texts t (Dict.keys m.deauth_requests)

  module _ (faithful : IsFaithful h) (m : Monitor) (t : Trace) (a : Str) where
    old_request :
        (o : Option ℕ) (b : Str)
        → request m b ≡ o
        → o ≢ none
        → ((since : ℕ) → o ≡ some since → request_timeout ≤ h.now t - since)
        → young (h.now t) m b ≡ false
    old_request none b p n old = absurd (n refl)
    old_request (some since) b p n old = rw p (ground (arith, old since refl))

    -- If every request has timed out, every client with a request is dropped by one round.
    pub round_drops :
        request_timeout ≤ h.now t
        → ((b : Str) (since : ℕ) → request m b ≡ some since → request_timeout ≤ h.now t - since)
        → request m a ≢ none
        → client (handle_requests_timeout_round h m t).0 a ≡ none
    unfolding handle_requests_timeout_round
    round_drops late old asked =
        loop_drops (h.now t) (visited m t) m t a late
          (λ b i.
            old_request (request m b) b refl
              (Dict.lookup_of_keys b m.deauth_requests
                ((faithful.visits_texts t (Dict.keys m.deauth_requests) b).1 i))
              (old b))
          ((faithful.visits_texts t (Dict.keys m.deauth_requests) a).0
            (Dict.In-keys a m.deauth_requests asked))

    -- A client with no request, or with one that has not timed out, is kept by the round.
    pub round_keeps :
        ((since : ℕ) → request m a ≡ some since → h.now t - since < request_timeout)
        → client (handle_requests_timeout_round h m t).0 a ≡ client m a
    unfolding handle_requests_timeout_round
    round_keeps fresh =
        (loop_keeps (h.now t) (visited m t) m t a (λ i. fresh_request (request m a) refl (
          Dict.lookup_of_keys a m.deauth_requests
            ((faithful.visits_texts t (Dict.keys m.deauth_requests) a).1 i)))).0
      where
        fresh_request :
            (o : Option ℕ) → request m a ≡ o → request m a ≢ none → young (h.now t) m a ≡ true
        fresh_request none p n = absurd (n p)
        fresh_request (some since) p n = rw p (ground (arith, fresh since p))
