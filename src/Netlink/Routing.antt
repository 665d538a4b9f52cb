-- ===== src/Netlink/Routing.antt =====
-- Where the link updates go.
use eapol_operator.Base.{
  List, [], ◌∷◌, Str, Bool, true, false, Option, none, some, ◌≡◌, refl, ap, ◌∙◌, arith,
  if◌then◌else◌, bytes_eq, ◌==◌, ◌||◌,
}
use eapol_operator.Base.Dict
use eapol_operator.Base.Dict.{Dict}
use eapol_operator.Host.{Link}
use eapol_operator.Netlink.{
  subscribe, unsubscribe, subscribe_all, Signal, subscribed, unsubscribed, update, stop, closed,
  Handler, handle_signal, handle_signals, send, start,
}

-- Whether a list of names has this one.
abbrev pub listed : Str → List Str → Bool
listed n [] = false
listed n (x ∷ xs) = (n == x) || listed n xs

module _ {C : Type 0} where
  -- The channel that an interface has after one signal, from the one that it had.
  abbrev pub owner_after : Str → Signal C → Option C → Option C
  owner_after n (subscribed none if_names) o = o
  owner_after n (subscribed (some c) if_names) o = if listed n if_names then some c else o
  owner_after n (unsubscribed if_names) o = if listed n if_names then none else o
  owner_after n (update link) o = o
  owner_after n stop o = o
  owner_after n closed o = o

  -- What is sent for the signals, the newest first: each update to the channel that its
  -- interface has then, and none after the handler has stopped.
  abbrev pub deliveries :
      List (Signal C) → Bool → (Str → Option C) → List (C × Link) → List (C × Link)
  deliveries [] runs owner sent = sent
  deliveries (update link ∷ rest) true owner sent =
      deliveries rest true owner
        (elim (owner link.name) [ none ↦ sent | some c ↦ (c, link) ∷ sent ])
  deliveries (update link ∷ rest) false owner sent = deliveries rest false owner sent
  deliveries (stop ∷ rest) runs owner sent = deliveries rest false owner sent
  deliveries (closed ∷ rest) runs owner sent = deliveries rest false owner sent
  deliveries (subscribed c if_names ∷ rest) runs owner sent =
      deliveries rest runs (λ n. owner_after n (subscribed c if_names) (owner n)) sent
  deliveries (unsubscribed if_names ∷ rest) runs owner sent =
      deliveries rest runs (λ n. owner_after n (unsubscribed if_names) (owner n)) sent

  lookup-subscribe_all :
      (n : Str) (c : C) (if_names : List Str) (m : Dict Str C)
      → Dict.lookup n (subscribe_all c if_names m)
        ≡ (if listed n if_names then some c else Dict.lookup n m)
  unfolding subscribe_all
  lookup-subscribe_all n c [] m = refl
  lookup-subscribe_all n c (x ∷ xs) m =
      ground (arith, lookup-subscribe_all n c xs (Dict.insert x c m), Dict.lookup-insert n x c m)

  lookup-unsubscribe :
      (n : Str) (if_names : List Str) (m : Dict Str C)
      → Dict.lookup n (unsubscribe if_names m)
        ≡ (if listed n if_names then none else Dict.lookup n m)
  unfolding unsubscribe
  lookup-unsubscribe n [] m = refl
  lookup-unsubscribe n (x ∷ xs) m =
      ground (arith, lookup-unsubscribe n xs (Dict.erase x m), Dict.lookup-erase n x m)

  after-subscribe :
      (n : Str) (c : Option C) (if_names : List Str) (m : Dict Str C)
      → Dict.lookup n (subscribe c if_names m).1
        ≡ owner_after n (subscribed c if_names) (Dict.lookup n m)
  unfolding subscribe
  after-subscribe n none if_names m = refl
  after-subscribe n (some c) if_names m = lookup-subscribe_all n c if_names m

  updated :
      (link : Link) (m o : Option C) (sent : List (C × Link))
      → m ≡ o
      → send m link sent ≡ elim o [ none ↦ sent | some c ↦ (c, link) ∷ sent ]
  unfolding send
  updated link none none sent p = refl
  updated link (some c) (some d) sent p = ground arith
  updated link none (some d) sent p = ground arith
  updated link (some c) none sent p = ground arith

  keeps_channels :
      (link : Link) (l : Handler C) (n : Str)
      → Dict.lookup n (handle_signal (update link) l).iface_channels
        ≡ Dict.lookup n l.iface_channels
  unfolding handle_signal
  keeps_channels link l n = ground arith

  update_delivered :
      (ss : List (Signal C)) (link : Link) (runs : Bool) (m : Dict Str C) (sent : List (C × Link))
      (owner : Str → Option C)
      → Dict.lookup link.name m ≡ owner link.name
      → deliveries ss
          (handle_signal
            (update link)
            (record { runs = runs; iface_channels = m; sent = sent })).runs
          owner
          (handle_signal
            (update link)
            (record { runs = runs; iface_channels = m; sent = sent })).sent
        ≡ deliveries (update link ∷ ss) runs owner sent
  unfolding handle_signal
  update_delivered ss link false m sent owner p = refl
  update_delivered ss link true m sent owner p =
      ap (deliveries ss true owner)
        (updated link (Dict.lookup link.name m) (owner link.name) sent p)

  routed :
      (ss : List (Signal C)) (l : Handler C) (owner : Str → Option C)
      → ((n : Str) → Dict.lookup n l.iface_channels ≡ owner n)
      → (handle_signals ss l).sent ≡ deliveries ss l.runs owner l.sent
  unfolding handle_signals handle_signal
  routed [] l owner p = refl
  routed (subscribed c if_names ∷ ss) l owner p =
      routed ss (handle_signal (subscribed c if_names) l) _ (λ n.
        after-subscribe n c if_names l.iface_channels
        ∙ ap (owner_after n (subscribed c if_names)) (p n))
  routed (unsubscribed if_names ∷ ss) l owner p =
      routed ss (handle_signal (unsubscribed if_names) l) _ (λ n.
        lookup-unsubscribe n if_names l.iface_channels
        ∙ ap (owner_after n (unsubscribed if_names)) (p n))
  routed (stop ∷ ss) l owner p = routed ss (handle_signal stop l) owner p
  routed (closed ∷ ss) l owner p = routed ss (handle_signal closed l) owner p
  routed (update link ∷ ss) l owner p =
      routed ss (handle_signal (update link) l) owner (λ n. keeps_channels link l n ∙ p n)
      ∙ update_delivered ss link l.runs l.iface_channels l.sent owner (p link.name)

-- Whatever subscriptions, updates and stops come in whatever order: each update that is handled is
-- sent to the channel that was last subscribed for its interface and not unsubscribed since, one
-- with no such channel is dropped, a nil channel changes nothing, and nothing is sent after the
-- handler has stopped.
pub handle_signals_lem :
    {C : Type 0} (signals : List (Signal C))
    → (handle_signals signals start).sent ≡ deliveries signals true (λ n. none) []
handle_signals_lem signals = routed signals start (λ n. none) (λ n. unfold Dict.lookup in refl)
