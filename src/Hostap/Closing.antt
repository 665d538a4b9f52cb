-- ===== src/Hostap/Closing.antt =====
-- The end of a monitor's subscription: `StopMonitor` closes `stop` and then unsubscribes, while
-- `handleIfEvents` closes the channel as soon as it sees `stop`, and `handleEvents` of
-- pkg/netlink/eventhandle.go, which holds the mutex while it sends, may send to it at any time.
use eapol_operator.Base.{List, [], ◌∷◌, Bool, true, false, not, ◌&&◌, if◌then◌else◌, ◌≡◌, ◌≢◌, refl}

-- One action of the three goroutines.
pub data Action : Type 0 where
  -- an update of the interface comes to `handleEvents`
  update_comes : Action
  -- `handleIfEvents` takes the update that is being sent, or sees `stop` and closes the channel
  update_taken channel_closed : Action
  -- `close(m.stop)` and `Unsubscribe` of `StopMonitor`
  stop_closed monitor_unsubscribes : Action

pub record Subscription : Type 0 where
  pub subscribed : Bool
  pub stopping : Bool
  -- the channel is closed
  pub is_closed : Bool
  -- an update is being sent, and the mutex is held
  pub sending : Bool
  -- a send on a closed channel has stopped the program
  pub crashed : Bool

-- An action that cannot happen changes nothing.
abbrev when : Bool → Subscription → Subscription → Subscription
when enabled s t = if enabled then t else s

act : Action → Subscription → Subscription
act update_comes s =
    when (s.subscribed && not s.sending) s
      (record s { sending = not s.is_closed; crashed = s.is_closed })
act update_taken s = when (s.sending && not s.is_closed) s (record s { sending = false })
act channel_closed s =
    when (s.stopping && not s.is_closed) s
      (record s { is_closed = true; crashed = s.sending; sending = false })
act stop_closed s = record s { stopping = true }
act monitor_unsubscribes s = when (s.stopping && not s.sending) s (record s { subscribed = false })

-- Nothing happens any more in a program that has stopped.
unfoldable pub happen : List Action → Subscription → Subscription
unfolding act
happen [] s = s
happen (a ∷ rest) s = let later = happen rest (act a s) in if s.crashed then s else later

-- No update is being sent to a channel that the handler has forgotten.
record IsDetached (s : Subscription) : Type 0 where
  gone : s.subscribed ≡ false
  idle : s.sending ≡ false
  alive : s.crashed ≡ false

when-IsDetached :
    (b : Bool) (s t : Subscription)
    → IsDetached s
    → (b ≡ true → IsDetached t)
    → IsDetached (when b s t)
when-IsDetached true s t p q = q refl
when-IsDetached false s t p q = p

not_both : (b c : Bool) → b ≡ false → (b && c) ≢ true
not_both true c p q = cc
not_both false c p q = cc

act-IsDetached : (a : Action) (s : Subscription) → IsDetached s → IsDetached (act a s)
unfolding act
act-IsDetached update_comes s d =
    when-IsDetached (s.subscribed && not s.sending) s _ d
      (λ e. absurd (not_both s.subscribed (not s.sending) d.gone e))
act-IsDetached update_taken s d =
    when-IsDetached _ s _ d (λ e. record { gone = d.gone; idle = refl; alive = d.alive })
act-IsDetached channel_closed s d =
    when-IsDetached _ s _ d (λ e. record { gone = d.gone; idle = refl; alive = d.idle })
act-IsDetached stop_closed s d = record { gone = d.gone; idle = d.idle; alive = d.alive }
act-IsDetached monitor_unsubscribes s d =
    when-IsDetached _ s _ d (λ e. record { gone = refl; idle = d.idle; alive = d.alive })

still_alive :
    (b : Bool) (s t : Subscription)
    → b ≡ false
    → t.crashed ≡ false
    → (if b then s else t).crashed ≡ false
still_alive true s t p q = absurd cc
still_alive false s t p q = q

happen-IsDetached :
    (acts : List Action) (s : Subscription) → IsDetached s → (happen acts s).crashed ≡ false
unfolding happen
happen-IsDetached [] s d = d.alive
happen-IsDetached (a ∷ rest) s d =
    still_alive s.crashed s (happen rest (act a s)) d.alive
      (happen-IsDetached rest (act a s) (act-IsDetached a s d))

-- From a monitor that is subscribed and to which nothing is being sent: an update that comes between
-- the closing of the channel and `Unsubscribe` stops the program, and so does the closing of the
-- channel while an update is being sent; if `Unsubscribe` comes before the channel is closed, then
-- whatever happens afterwards does not.
pub closing_order :
    (s : Subscription)
    → s.subscribed ≡ true
    → s.is_closed ≡ false
    → s.sending ≡ false
    → s.crashed ≡ false
    → ((happen (stop_closed ∷ channel_closed ∷ update_comes ∷ []) s).crashed ≡ true)
      × ((happen (update_comes ∷ stop_closed ∷ channel_closed ∷ []) s).crashed ≡ true)
      × ((acts : List Action)
          → (happen (stop_closed ∷ monitor_unsubscribes ∷ acts) s).crashed ≡ false)
unfolding happen act
closing_order s sub open_ idle alive = (
  simp (sub, open_, idle, alive),
  simp (sub, open_, idle, alive),
  λ acts.
      simp (idle, alive)
        (happen-IsDetached acts
          (record {
            subscribed = false;
            stopping = true;
            is_closed = s.is_closed;
            sending = false;
            crashed = false;
          })
          (record { gone = refl; idle = refl; alive = refl })),
)
