-- ===== src/TrafficControl/Tc/Verdict.antt =====
-- The filters that a run has left: what the last `tc filter replace` that succeeded says of a MAC
-- address on an interface.
use eapol_operator.Base.{
  ℕ, ◌<◌, String, List, length, length-append, [], ◌∷◌, ◌++◌, Str, bytes, Option, none, some, ok,
  ◌≡◌, refl, ◌≢◌, arith, sym, ap, ◌∙◌, In, if◌then◌else◌, ◌==◌, bytes_eq,
}
use eapol_operator.Host.{Host, done, run, Trace}
use eapol_operator.Host.Actions.{◌>>=◌, for_each, for_each-makes, >>=-ok}
use eapol_operator.TrafficControl.Sysfs.{get_associated_interfaces}
use eapol_operator.Host.Quiet.{IsQuiet, quiet_rules}
use eapol_operator.TrafficControl.Sysfs.Quiet.{get_associated_interfaces-IsQuiet}
use eapol_operator.TrafficControl.Tc.{
  filter_text, allow_command, deny_command, shell_run, find_tc, replace_filters,
}

pub data Verdict : Type 0 where
  let_in drop : Verdict

-- The two commands in full.
let_in_text : Str → Str → Str
let_in_text iface mac =
    bytes "tc filter replace dev "
    ++ (iface
        ++ (bytes " ingress pref 9000 protocol all flower src_mac " ++ (mac ++ bytes " action ok")))

drop_text : Str → Str → Str
drop_text iface mac =
    bytes "tc filter replace dev "
    ++ (iface
        ++ (bytes " ingress pref 9000 protocol all flower src_mac "
            ++ (mac ++ bytes " action drop")))

allow_command_lem : (iface mac : Str) → allow_command iface mac ≡ let_in_text iface mac
unfolding allow_command let_in_text
allow_command_lem iface mac = refl

deny_command_lem : (iface mac : Str) → deny_command iface mac ≡ drop_text iface mac
unfolding deny_command drop_text
deny_command_lem iface mac = refl

pub verdict_of : Str → Str → Trace → Option Verdict
verdict_of iface mac [] = none
verdict_of iface mac (done (run text) ∷ t) =
    if text == let_in_text iface mac
    then some let_in
    else if text == drop_text iface mac
    then some drop
    else verdict_of iface mac t
verdict_of iface mac (_ ∷ t) = verdict_of iface mac t

last : Str → ℕ
last [] = 0
last (c ∷ []) = c
last (c ∷ d ∷ s) = last (d ∷ s)

last-append : (s t : Str) → 0 < length t → last (s ++ t) ≡ last t
unfolding last
last-append [] t h = refl
last-append (x ∷ []) [] h = absurd (omega arith)
last-append (x ∷ []) (c ∷ t) h = refl
last-append (x ∷ y ∷ s) t h = last-append (y ∷ s) t h

-- A command ends with its action.
last-filter :
    (iface mac : Str) (action : String)
    → 0 < length (bytes action)
    → last (filter_text iface mac action) ≡ last (bytes action)
unfolding filter_text
last-filter iface mac action h =
    let tail = bytes " action " ++ bytes action in
    let from_mac = mac ++ tail in
    let middle = bytes " ingress pref 9000 protocol all flower src_mac " ++ from_mac in
    last-append (bytes "tc filter replace dev ") (iface ++ middle)
      (omega (arith, length-append iface middle))
    ∙ last-append iface middle (omega arith)
    ∙ last-append (bytes " ingress pref 9000 protocol all flower src_mac ") from_mac
        (omega (arith, length-append mac tail))
    ∙ last-append mac tail (omega arith)
    ∙ last-append (bytes " action ") (bytes action) h

-- No command both lets in and drops.
allow-ne-deny : (i m j n : Str) → let_in_text i m ≢ drop_text j n
unfolding allow_command deny_command let_in_text drop_text
allow-ne-deny i m j n p =
    let k =
      sym (last-filter i m "ok" (omega arith)) ∙ ap last p ∙ last-filter j n "drop" (omega arith) in
    unfold last in omega (arith, k)

abbrev pub IsDropped : Str → Str → Trace → Type 0
IsDropped mac iface t = verdict_of iface mac t ≡ some drop

abbrev pub IsLetIn : Str → Str → Trace → Type 0
IsLetIn mac iface t = verdict_of iface mac t ≡ some let_in

module _ (h : Host) (mac : Str) where
  deny_makes :
      (x : Str) (t : Trace)
      → (shell_run h (deny_command x mac) t).0 ≡ ok tt
      → IsDropped mac x (shell_run h (deny_command x mac) t).1
  unfolding verdict_of
  deny_makes x t e = ground (arith, allow-ne-deny x mac x mac, deny_command_lem x mac)

  deny_keeps :
      (x y : Str) (t : Trace)
      → IsDropped mac y t
      → (shell_run h (deny_command x mac) t).0 ≡ ok tt
      → IsDropped mac y (shell_run h (deny_command x mac) t).1
  unfolding verdict_of
  deny_keeps x y t p e = ground (arith, allow-ne-deny y mac x mac, deny_command_lem x mac)

  allow_makes :
      (x : Str) (t : Trace)
      → (shell_run h (allow_command x mac) t).0 ≡ ok tt
      → IsLetIn mac x (shell_run h (allow_command x mac) t).1
  unfolding verdict_of
  allow_makes x t e = ground (arith, allow_command_lem x mac)

  allow_keeps :
      (x y : Str) (t : Trace)
      → IsLetIn mac y t
      → (shell_run h (allow_command x mac) t).0 ≡ ok tt
      → IsLetIn mac y (shell_run h (allow_command x mac) t).1
  unfolding verdict_of
  allow_keeps x y t p e = ground (arith, allow-ne-deny x mac y mac, allow_command_lem x mac)

module _ (h : Host) (name : Str) where
  -- The interface itself is always among its associated interfaces.
  pub associated_self :
      (t : Trace) (ifaces : List Str)
      → (get_associated_interfaces h name t).0 ≡ ok ifaces
      → In name ifaces
  unfolding get_associated_interfaces
  associated_self t ifaces e = ground arith

-- The interfaces that a run found, and what it left on them.
abbrev pub Covers : Host → Str → (Str → Trace → Type 0) → Trace → Trace → Type 0
Covers h name P t u =
    (ifaces : List Str) × ((get_associated_interfaces h name t).0 ≡ ok ifaces)
    × In name ifaces
    × ((i : Str) → In i ifaces → P i u)

module _ (h : Host) (name : Str) (command : Str → Str) (P : Str → Trace → Type 0)
    (makes : (x : Str) (t : Trace)
      → (shell_run h (command x) t).0 ≡ ok tt
      → P x (shell_run h (command x) t).1)
    (keeps : (x y : Str) (t : Trace)
      → P y t
      → (shell_run h (command x) t).0 ≡ ok tt
      → P y (shell_run h (command x) t).1) where
  replace-Covers :
      (t : Trace)
      → (replace_filters h command name t).0 ≡ ok tt
      → Covers h name P (find_tc h t).1 (replace_filters h command name t).1
  unfolding replace_filters
  replace-Covers t e =
      let (_, tc, rest, e1) =
        >>=-ok (find_tc h)
          (λ _. get_associated_interfaces h name >>= λ ifaces.
            for_each (λ i. shell_run h (command i)) ifaces)
          t tt e in
      let (ifaces, found, loop, e2) =
        >>=-ok (get_associated_interfaces h name)
          (λ ifaces. for_each (λ i. shell_run h (command i)) ifaces) (find_tc h t).1 tt rest in
      (
        ifaces,
        found,
        associated_self h name (find_tc h t).1 ifaces found,
        λ i m.
            rw (e1, e2)
              (for_each-makes (λ x. shell_run h (command x)) P makes keeps ifaces _ loop i m),
      )

module _ (h : Host) (name mac : Str) (t : Trace) where
  pub replace_drops :
      (replace_filters h (λ i. deny_command i mac) name t).0 ≡ ok tt
      → Covers h name
          (IsDropped mac)
          (find_tc h t).1
          (replace_filters h (λ i. deny_command i mac) name t).1
  replace_drops =
      replace-Covers h name (λ i. deny_command i mac) (IsDropped mac) (deny_makes h mac)
        (deny_keeps h mac) t

  pub replace_lets_in :
      (replace_filters h (λ i. allow_command i mac) name t).0 ≡ ok tt
      → Covers h name
          (IsLetIn mac)
          (find_tc h t).1
          (replace_filters h (λ i. allow_command i mac) name t).1
  replace_lets_in =
      replace-Covers h name (λ i. allow_command i mac) (IsLetIn mac) (allow_makes h mac)
        (allow_keeps h mac) t

pub replace_filters-IsQuiet :
    (h : Host) (command : Str → Str) (name : Str) → IsQuiet (replace_filters h command name)
unfolding replace_filters
replace_filters-IsQuiet h command name = search (quiet_rules, get_associated_interfaces-IsQuiet)
