-- ===== src/Hostap/Start/Attach.antt =====
-- The loop of `attachHostapd`.
use eapol_operator.Base.{
  ℕ, zero, suc, ◌<◌, bytes, true, Option, some, Result, ok, err, ◌≡◌, refl, ◌∙◌, arith,
}
use eapol_operator.Host.{Host, Trace}
use eapol_operator.Hostap.Monitor.{write_command}
use eapol_operator.Hostap.Start.{attach_hostapd, attach_next}

module _ (h : Host) where
  -- What the write of `ATTACH` gives, when this many have been made before.
  abbrev pub after_writes : ℕ → Trace → Trace
  after_writes zero t = t
  after_writes (suc i) t = after_writes i (write_command h (bytes "ATTACH") t).1

  abbrev pub answer : ℕ → Trace → Result (Unit {0})
  answer i t = (write_command h (bytes "ATTACH") (after_writes i t)).0

  -- An error that is a timeout.
  abbrev pub IsTimeout : Result (Unit {0}) → Type 0
  IsTimeout (ok _) = ⊥
  IsTimeout (err e) = h.is_timeout e ≡ true

  ends_now :
      (r : Result (Unit {0})) (again : Trace → Option (Result (Unit {0})) × Trace) (t : Trace)
      → (IsTimeout r → ⊥)
      → attach_next h r again t ≡ (some r, t)
  unfolding attach_next
  ends_now (ok _) again t n = refl
  ends_now (err e) again t n = ground (arith, n)

  goes_on :
      (r : Result (Unit {0})) (again : Trace → Option (Result (Unit {0})) × Trace) (t : Trace)
      → IsTimeout r
      → attach_next h r again t ≡ again t
  unfolding attach_next
  goes_on (ok _) again t p = absurd p
  goes_on (err e) again t p = ground (arith, p)

  -- If the first `i` writes time out and the next does not, then attaching ends with what that one
  -- gives, and makes no more writes, however many more than `i` are allowed.
  pub attach_hostapd_ends :
      (n i : ℕ) (t : Trace)
      → i < n
      → ((j : ℕ) → j < i → IsTimeout (answer j t))
      → (IsTimeout (answer i t) → ⊥)
      → attach_hostapd h n t ≡ (some (answer i t), after_writes (suc i) t)
  unfolding attach_hostapd attach_next
  attach_hostapd_ends zero i t l p q = absurd (omega arith)
  attach_hostapd_ends (suc n) zero t l p q =
      ends_now (answer 0 t) (attach_hostapd h n) (after_writes 1 t) q
  attach_hostapd_ends (suc n) (suc i) t l p q =
      goes_on (answer 0 t) (attach_hostapd h n) (after_writes 1 t) (p 0 (omega arith))
      ∙ attach_hostapd_ends n i (after_writes 1 t) (omega arith) (λ j k. p (suc j) (omega arith)) q
