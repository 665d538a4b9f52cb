-- ===== src/MonitorMain/Program/Kept.antt =====
-- The invariant of the program: what holds of each interface, and that a change of one interface
-- leaves it true of the others.
use eapol_operator.Base.{true, List, [], ◌∷◌, Str, ◌≡◌, ◌≢◌, refl, sym, ap, In, All, inl, inr, map}
use eapol_operator.Host.{Trace}
use eapol_operator.TrafficControl.Sriov.Kernel.{AllConfigured}
use eapol_operator.TrafficControl.Sriov.Others.{SameFor, SameFor-trans, AllConfigured-SameFor}
use eapol_operator.Hostap.Clients.Invariant.{IsSound}
use eapol_operator.Hostap.Monitor.{Monitor}
use eapol_operator.MonitorMain.Program.{
  Slot, waiting, attaching, attached, running, closing, ending, stopped, disturbed, abandoned,
  absent, Somewhere, here, there,
}

abbrev pub slot_name : Slot → Str
slot_name (waiting i) = i
slot_name (attaching m) = m.pf.name
slot_name (attached m) = m.pf.name
slot_name (running m) = m.pf.name
slot_name (closing m) = m.pf.name
slot_name (ending m) = m.pf.name
slot_name (stopped m) = m.pf.name
slot_name (disturbed i) = i
slot_name (abandoned i) = i
slot_name (absent i) = i

-- No name comes twice.
abbrev pub AreDistinct : List Str → Type 0
AreDistinct [] = Unit
AreDistinct (n ∷ ns) = ((o : Str) → In o ns → n ≢ o) × AreDistinct ns

-- The VFs are as their PF wants them, and it wants them given back.
abbrev pub IsClosing : Monitor → Trace → Type 0
IsClosing m t = AllConfigured m.pf t × (m.pf.authenticated ≡ true)

-- A monitor whose goroutines run is sound, and its VFs are as its PF wants them, also while it is
-- stopped and after that, unless it meets one of its handlers then; those of an interface without a
-- monitor are as they were when the program had made the calls `before`.
abbrev pub IsKept : Trace → Trace → Slot → Type 0
IsKept before t (waiting i) = SameFor i before t
IsKept before t (attaching m) = IsSound m × AllConfigured m.pf t
IsKept before t (attached m) = IsSound m × AllConfigured m.pf t
IsKept before t (running m) = IsSound m × AllConfigured m.pf t
IsKept before t (closing m) = IsClosing m t
IsKept before t (ending m) = IsClosing m t
IsKept before t (stopped m) = IsClosing m t
IsKept before t (disturbed i) = Unit
IsKept before t (abandoned i) = Unit
IsKept before t (absent i) = SameFor i before t

pub IsClosing-SameFor :
    (m : Monitor) {t u : Trace} → SameFor m.pf.name t u → IsClosing m t → IsClosing m u
IsClosing-SameFor m same (a, r) = (AllConfigured-SameFor m.pf same a, r)

pub IsKept-SameFor :
    (before : Trace) (s : Slot) {t u : Trace}
    → SameFor (slot_name s) t u
    → IsKept before t s
    → IsKept before u s
IsKept-SameFor before (waiting i) same k = SameFor-trans k same
IsKept-SameFor before (attaching m) same (s, a) = (s, AllConfigured-SameFor m.pf same a)
IsKept-SameFor before (attached m) same (s, a) = (s, AllConfigured-SameFor m.pf same a)
IsKept-SameFor before (running m) same (s, a) = (s, AllConfigured-SameFor m.pf same a)
IsKept-SameFor before (closing m) same k = IsClosing-SameFor m same k
IsKept-SameFor before (ending m) same k = IsClosing-SameFor m same k
IsKept-SameFor before (stopped m) same k = IsClosing-SameFor m same k
IsKept-SameFor before (disturbed i) same k = tt
IsKept-SameFor before (abandoned i) same k = tt
IsKept-SameFor before (absent i) same k = SameFor-trans k same

-- A change that keeps the interface's name and its part of the invariant, and spares other PFs.
pub record IsLocal (before : Trace) (s : Slot) (t : Trace) (s' : Slot) (u : Trace) : Type 0 where
  pub same_name : slot_name s' ≡ slot_name s
  pub spares : (o : Str) → slot_name s ≢ o → SameFor o t u
  pub keeps : IsKept before t s → IsKept before u s'

pub spared :
    (before : Trace) (ss : List Slot) (n : Str) {t u : Trace}
    → ((o : Str) → In o (map slot_name ss) → n ≢ o)
    → ((o : Str) → n ≢ o → SameFor o t u)
    → All (IsKept before t) ss
    → All (IsKept before u) ss
spared before [] n apart spares all = tt
spared before (s ∷ ss) n apart spares (k, ks) = (
  IsKept-SameFor before s (spares (slot_name s) (apart (slot_name s) (inl refl))) k,
  spared before ss n (λ o i. apart o (inr i)) spares ks,
)

module _ {Before : Slot → Type 0} {Change : Slot → Trace → Slot → Trace → Type 0} (before : Trace)
    (local : (s : Slot) (t : Trace) (s' : Slot) (u : Trace)
      → Change s t s' u
      → IsLocal before s t s' u) where
  pub Somewhere-names :
      {ss : List Slot} {t : Trace} {ss' : List Slot} {u : Trace}
      → Somewhere Before Change ss t ss' u
      → map slot_name ss' ≡ map slot_name ss
  Somewhere-names (here {slots = slots} c) =
      ap (λ n. n ∷ map slot_name slots) (local _ _ _ _ c).same_name
  Somewhere-names (there {s = s} b w) = ap (◌∷◌ (slot_name s)) (Somewhere-names w)

  -- A PF that none of the list has is spared.
  Somewhere-spares :
      {ss : List Slot} {t : Trace} {ss' : List Slot} {u : Trace} (o : Str)
      → Somewhere Before Change ss t ss' u
      → ((n : Str) → In n (map slot_name ss) → n ≢ o)
      → SameFor o t u
  Somewhere-spares o (here {s = s} c) other =
      (local _ _ _ _ c).spares o (other (slot_name s) (inl refl))
  Somewhere-spares o (there b w) other = Somewhere-spares o w (λ n i. other n (inr i))

  pub Somewhere-keeps :
      {ss : List Slot} {t : Trace} {ss' : List Slot} {u : Trace}
      → AreDistinct (map slot_name ss)
      → Somewhere Before Change ss t ss' u
      → All (IsKept before t) ss
      → All (IsKept before u) ss'
  Somewhere-keeps distinct (here {s = s} {slots = slots} c) (k, ks) =
      let l = local _ _ _ _ c in
      (l.keeps k, spared before slots (slot_name s) distinct.0 l.spares ks)
  Somewhere-keeps distinct (there {s = s} b w) (k, ks) = (
    IsKept-SameFor before s (Somewhere-spares (slot_name s) w (λ n i p. distinct.0 n i (sym p))) k,
    Somewhere-keeps distinct.1 w ks,
  )
