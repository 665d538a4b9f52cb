-- ===== src/Netlink.antt =====
-- pkg/netlink/eventhandle.go: `LinkEventHandler`, which passes each link update on to the channel
-- that its interface's monitor has subscribed. `C` is the type of the channels.
pub mod Routing
use eapol_operator.Base.{
  List, [], ◌∷◌, ◌++◌, Str, Bool, true, false, Option, none, some, Result, ok, err, Error,
  no_channel, if◌then◌else◌, bytes_eq,
}
use eapol_operator.Base.Dict
use eapol_operator.Base.Dict.{Dict}
use eapol_operator.Host.{Link}

module _ (C : Type 0) where
  -- What may happen to the handler, in the order in which the mutex lets it.
  pub data Signal : Type 0 where
    subscribed : Option C → List Str → Signal
    unsubscribed : List Str → Signal
    update : Link → Signal
    -- `l.stop` is closed, or the channel of the updates is
    stop closed : Signal

  -- The goroutine of `handleEvents` runs or has returned; the channels; and what was sent, the
  -- newest first.
  pub record Handler : Type 0 where
    pub runs : Bool
    pub iface_channels : Dict Str C
    pub sent : List (C × Link)

module _ {C : Type 0} where
  -- The loops of `Subscribe` and `Unsubscribe`.
  subscribe_all : C → List Str → Dict Str C → Dict Str C
  subscribe_all c [] m = m
  subscribe_all c (if_name ∷ rest) m = subscribe_all c rest (Dict.insert if_name c m)

  unfoldable pub unsubscribe : List Str → Dict Str C → Dict Str C
  unsubscribe [] m = m
  unsubscribe (if_name ∷ rest) m = unsubscribe rest (Dict.erase if_name m)

  -- A channel that may be nil is an `Option`.
  unfoldable pub subscribe : Option C → List Str → Dict Str C → Result (Unit {0}) × Dict Str C
  unfolding subscribe_all
  subscribe none if_names m = (err no_channel, m)
  subscribe (some c) if_names m = (ok tt, subscribe_all c if_names m)

  send : Option C → Link → List (C × Link) → List (C × Link)
  send none link sent = sent
  send (some c) link sent = (c, link) ∷ sent

  unfoldable pub handle_signal : Signal C → Handler C → Handler C
  unfolding subscribe unsubscribe send
  handle_signal (subscribed c if_names) l = record l {
    iface_channels = (subscribe c if_names l.iface_channels).1;
  }
  handle_signal (unsubscribed if_names) l = record l {
    iface_channels = unsubscribe if_names l.iface_channels;
  }
  handle_signal (update link) l =
      if l.runs
      then record l { sent = send (Dict.lookup link.name l.iface_channels) link l.sent }
      else l
  handle_signal stop l = record l { runs = false }
  handle_signal closed l = record l { runs = false }

  -- The signals one after the other, the oldest first.
  unfoldable pub handle_signals : List (Signal C) → Handler C → Handler C
  unfolding handle_signal
  handle_signals [] l = l
  handle_signals (s ∷ rest) l = handle_signals rest (handle_signal s l)

-- `Start`
abbrev pub start : {C : Type 0} → Handler C
start = record { runs = true; iface_channels = []; sent = [] }
