-- ===== src/Hostap/Dispatch/Messages.antt =====
-- What hostapd's messages mean to the monitor.
use eapol_operator.Base.{
  ℕ, suc, [], ◌∷◌, ◌++◌, Str, bytes, none, some, Result, ok, ◌≡◌, refl, ◌∙◌, ap, arith, Lacks,
  nat_eq, bytes_eq, length,
}
use eapol_operator.Base.Text.{split, index, drop}
use eapol_operator.Base.Text.Split.{split-append, split-Lacks_word, Lacks-append}
use eapol_operator.Host.{Host, Trace}
use eapol_operator.Hostap.Stats
use eapol_operator.Hostap.Status.{update_interface_status}
use eapol_operator.Hostap.Clients.{handle_authenticate_event, handle_de_authenticate_event}
use eapol_operator.Hostap.Monitor.{Monitor, log_event}
use eapol_operator.Hostap.Dispatch.{
  EventKey, sta_connected, eap_success, sta_disconnected, eap_failure, other, on_event, on_words,
  finish, event_key, key_of, handle_hostapd_event,
}

index-Lacks : (c : ℕ) (s : Str) → Lacks c s → index s c ≡ none
unfolding index
index-Lacks c [] h = refl
index-Lacks c (x ∷ s) h = ground (arith, index-Lacks c s h.1)

index-append : (c : ℕ) (s t : Str) → Lacks c s → index (s ++ c ∷ t) c ≡ some (length s)
unfolding index
index-append c [] t h = ground arith
index-append c (x ∷ s) t h = ground (arith, index-append c s t h.1)

drop-append : (s t : Str) (c : ℕ) → drop (suc (length s)) (s ++ c ∷ t) ≡ t
unfolding drop
drop-append [] t c = refl
drop-append (x ∷ s) t c = drop-append s t c

-- The level in front of a message is passed over, and a message need have none.
event_key-append : (level key : Str) → Lacks b'>' level → event_key (level ++ b'>' ∷ key) ≡ key
unfolding event_key
event_key-append level key h =
    rw (index-append b'>' level key h, event_key) (drop-append level key b'>')

event_key_bare : (key : Str) → Lacks b'>' key → event_key key ≡ key
unfolding event_key
event_key_bare key h = rw (index-Lacks b'>' key h, event_key)

-- The words of the events that change something.
abbrev pub word_of : EventKey → Str
word_of sta_connected = bytes "AP-STA-CONNECTED"
word_of eap_success = bytes "CTRL-EVENT-EAP-SUCCESS"
word_of sta_disconnected = bytes "AP-STA-DISCONNECTED"
word_of eap_failure = bytes "CTRL-EVENT-EAP-FAILURE"
word_of other = bytes "CTRL-EVENT"

key_of-word_of : (k : EventKey) → key_of (word_of k) ≡ k
unfolding key_of
key_of-word_of sta_connected = refl
key_of-word_of eap_success = refl
key_of-word_of sta_disconnected = refl
key_of-word_of eap_failure = refl
key_of-word_of other = refl

word_of-Lacks : (k : EventKey) → Lacks 32 (word_of k)
word_of-Lacks sta_connected = omega arith
word_of-Lacks eap_success = omega arith
word_of-Lacks sta_disconnected = omega arith
word_of-Lacks eap_failure = omega arith
word_of-Lacks other = omega arith

-- A message with its level, such as "<3", the word of the event and an address.
abbrev pub message_text : Str → EventKey → Str → Str
message_text level k addr = (level ++ b'>' ∷ word_of k) ++ 32 ∷ addr

split_message :
    (level : Str) (k : EventKey) (addr : Str)
    → Lacks 32 level
    → Lacks 32 addr
    → split 32 (message_text level k addr) ≡ (level ++ b'>' ∷ word_of k) ∷ addr ∷ []
split_message level k addr h a =
    split-append 32 (level ++ b'>' ∷ word_of k) addr
      (Lacks-append 32 level (b'>' ∷ word_of k) h ((λ p. omega arith), word_of-Lacks k))
    ∙ ap (λ ws. (level ++ b'>' ∷ word_of k) ∷ ws) (split-Lacks_word 32 addr a)

-- What a message is to do, before the status is brought up to date.
abbrev Outcome : Type 0
Outcome = Result (Unit {0}) × Monitor × Trace

-- The status of the interface is brought up to date after the step, whatever its result.
abbrev updated : Host → Outcome → Outcome
updated h (r, m, t) = (r, m, (update_interface_status h m t).1)

-- A client that connects is authenticated, one that disconnects is de-authenticated and counted, and
-- successes and failures of EAP are counted and logged; the rest is passed over.
abbrev pub reaction : Host → EventKey → Str → Monitor → Trace → Outcome
reaction h sta_connected addr m t = updated h (handle_authenticate_event h addr m t)
reaction h sta_disconnected addr m t = updated h (
    handle_de_authenticate_event h addr
      (record m { stats = Stats.de_authenticated m.if_name m.stats })
      (log_event h m.has_client (bytes "deauthenticated supplicant " ++ addr) t))
reaction h eap_success addr m t = updated h (
  ok tt,
  record m { stats = Stats.authenticated m.if_name m.stats },
  log_event h m.has_client (bytes "authenticated supplicant " ++ addr) t,
)
reaction h eap_failure addr m t = updated h (
  ok tt,
  record m { stats = Stats.auth_failed m.if_name m.stats },
  log_event h m.has_client (bytes "authentication failure for supplicant " ++ addr) t,
)
reaction h other addr m t = updated h (ok tt, m, t)

event_reaction :
    (h : Host) (k : EventKey) (addr : Str) (m : Monitor) (t : Trace)
    → finish h (on_event h k addr m t) ≡ reaction h k addr m t
unfolding on_event finish
event_reaction h sta_connected addr m t = refl
event_reaction h sta_disconnected addr m t = refl
event_reaction h eap_success addr m t = refl
event_reaction h eap_failure addr m t = refl
event_reaction h other addr m t = refl

-- A message with a level, the word of an event and an address, of which none has a blank and the
-- level no `>`: "AP-STA-CONNECTED" authenticates the client of this address, "AP-STA-DISCONNECTED"
-- de-authenticates it, counts and logs that, "CTRL-EVENT-EAP-SUCCESS" and "CTRL-EVENT-EAP-FAILURE" are
-- counted and logged, and "CTRL-EVENT" alone does nothing; after each the status is brought up to date.
pub message_dispatch :
    (h : Host) (level : Str) (k : EventKey) (addr : Str) (m : Monitor) (t : Trace)
    → Lacks 32 level
    → Lacks b'>' level
    → Lacks 32 addr
    → handle_hostapd_event h (message_text level k addr) m t ≡ reaction h k addr m t
unfolding handle_hostapd_event
message_dispatch h level k addr m t blank mark a =
    rw (split_message level k addr blank a, on_words)
      (rw (event_key-append level (word_of k) mark, key_of-word_of k) (event_reaction h k addr m t))
