-- ===== src/MonitorMain/Program/Chain.antt =====
-- Changes of the interfaces one after the other, and the runs that they make.
use eapol_operator.Base.{List, ◌∷◌, Str}
use eapol_operator.Host.{Host, Trace}
use eapol_operator.MonitorMain.Program.{
  Slot, Program, starting, stopping, IsSettled, IsOver, Somewhere, here, there, Starts, Stops,
  starts, stops_one, Runs, goes_on,
}

-- Changes one after the other.
pub data Chain (Before : Slot → Type 0) (Change : Slot → Trace → Slot → Trace → Type 0)
    (slots : List Slot) (t : Trace) : List Slot → Trace → Type 0 where
  none_yet : Chain Before Change slots t slots t
  and_then :
      {slots' : List Slot} {u : Trace} {slots'' : List Slot} {v : Trace}
      → Chain Before Change slots t slots' u
      → Somewhere Before Change slots' u slots'' v
      → Chain Before Change slots t slots'' v

module _ {Before : Slot → Type 0} {Change : Slot → Trace → Slot → Trace → Type 0} where
  pub chain :
      {a : List Slot} {t : Trace} {b : List Slot} {u : Trace} {c : List Slot} {v : Trace}
      → Chain Before Change a t b u
      → Chain Before Change b u c v
      → Chain Before Change a t c v
  chain x none_yet = x
  chain x (and_then y w) = and_then (chain x y) w

  pub behind :
      {s : Slot} {a : List Slot} {t : Trace} {b : List Slot} {u : Trace}
      → Before s
      → Chain Before Change a t b u
      → Chain Before Change (s ∷ a) t (s ∷ b) u
  behind p none_yet = none_yet
  behind p (and_then y w) = and_then (behind p y) (there p w)

  pub one :
      {s : Slot} {t : Trace} {s' : Slot} {u : Trace} {a : List Slot}
      → Change s t s' u
      → Chain Before Change (s ∷ a) t (s' ∷ a) u
  one c = and_then none_yet (here c)

module _ (h : Host) where
  module _ (ifaces : List Str) (p : Program) where
    pub chain-Starts :
        {a : List Slot} {t : Trace} {b : List Slot} {u : Trace}
        → Runs h ifaces p (record { phase = starting; slots = a; calls = t })
        → Chain IsSettled (Starts h) a t b u
        → Runs h ifaces p (record { phase = starting; slots = b; calls = u })
    chain-Starts r none_yet = r
    chain-Starts r (and_then c w) = goes_on (chain-Starts r c) (starts w)

    pub chain-Stops :
        {a : List Slot} {t : Trace} {b : List Slot} {u : Trace}
        → Runs h ifaces p (record { phase = stopping; slots = a; calls = t })
        → Chain IsOver (Stops h) a t b u
        → Runs h ifaces p (record { phase = stopping; slots = b; calls = u })
    chain-Stops r none_yet = r
    chain-Stops r (and_then c w) = goes_on (chain-Stops r c) (stops_one w)
