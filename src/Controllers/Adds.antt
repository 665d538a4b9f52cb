-- ===== src/Controllers/Adds.antt =====
-- Which requests a step adds: one rule for each way to build a step.
use eapol_operator.Base.{
  refl, List, [], ◌∷◌, Bool, true, false, Result, ok, err, Error, if◌then◌else◌,
}
use eapol_operator.Controllers.{
  Request, Event, done, failed, Trace, Resources, Ends, value, error, panic, World, Run, pure, fail,
  stop, continue, ◌>>=◌, note, ask, or_return, load, store,
}

-- `u` is `t` with newer events, each of which is `P`.
pub data Since (P : Event → Type 0) (t : Trace) : Trace → Type 0 where
  nothing : Since P t t
  newer : {u : Trace} (e : Event) → P e → Since P t u → Since P t (e ∷ u)

module _ {P : Event → Type 0} where
  pub Since-trans : {t u v : Trace} → Since P t u → Since P u v → Since P t v
  Since-trans s nothing = s
  Since-trans s (newer e p r) = newer e p (Since-trans s r)

-- A step that adds such events only.
pub record Adds (P : Event → Type 0) {A : Type 0} (m : Run A) : Type 0 where
  pub at : (w : World) → Since P w.calls (m w).1.calls

module _ (P : Event → Type 0) {A : Type 0} where
  pub noted : (q : Request) (r : Result A) → P (done q) → P (failed q) → P (note q r)
  noted q (ok a) d f = d
  noted q (err e) d f = f

module _ {P : Event → Type 0} {A : Type 0} where
  pub Adds-pure : (a : A) → Adds P (pure a)
  Adds-pure a = record { at = λ w. nothing }

  pub Adds-fail : (e : Error) → Adds P (fail {A = A} e)
  Adds-fail e = record { at = λ w. nothing }

  pub Adds-stop : Adds P (stop {A = A})
  Adds-stop = record { at = λ w. nothing }

  pub Adds-or_return : (wrap : Error → Error) (r : Result A) → Adds P (or_return wrap r)
  Adds-or_return wrap r = record { at = λ w. nothing }

  pub Adds-if : (b : Bool) (m n : Run A) → Adds P m → Adds P n → Adds P (if b then m else n)
  Adds-if true m n p q = p
  Adds-if false m n p q = q

  pub Adds-ask : (q : Request) (f : Trace → Result A) → P (done q) → P (failed q) → Adds P (ask q f)
  Adds-ask q f d n = record { at = λ w. newer _ (noted P q (f w.calls) d n) nothing }

module _ {P : Event → Type 0} where
  pub Adds-load : Adds P load
  Adds-load = record { at = λ w. nothing }

  pub Adds-store : (m : Resources) → Adds P (store m)
  Adds-store m = record { at = λ w. nothing }

module _ {P : Event → Type 0} {A B : Type 0} where
  Adds-continue : (r : Ends A) (f : A → Run B) → ((a : A) → Adds P (f a)) → Adds P (continue r f)
  Adds-continue (value a) f q = q a
  Adds-continue (error e) f q = record { at = λ w. nothing }
  Adds-continue panic f q = record { at = λ w. nothing }

  pub Adds-bind :
      (m : Run A) (f : A → Run B) → Adds P m → ((a : A) → Adds P (f a)) → Adds P (m >>= f)
  Adds-bind m f p q = record {
    at = λ w. Since-trans (p.at w) ((Adds-continue (m w).0 f q).at (m w).1);
  }

pub ruleset adds_rules = (
  Adds-pure, Adds-fail, Adds-stop, Adds-or_return, Adds-if, Adds-ask, Adds-load, Adds-store,
  Adds-bind, refl,
)
