-- ===== src/Controllers/Leaves.antt =====
-- Which requests a step has made if it succeeds: one rule for each way to build a step.
use eapol_operator.Base.{◌∷◌, Bool, true, false, Result, ok, err, Error, ◌≡◌, refl, if◌then◌else◌}
use eapol_operator.Controllers.{
  Request, Event, done, failed, Trace, Kube, Resources, Ends, value, error, panic, World, Run, fail,
  stop, ◌>>=◌, ask, note, continue, ends_of, or_return,
}
use eapol_operator.Controllers.Adds.{Since, Since-trans, newer, nothing, Adds}
use eapol_operator.Controllers.Reconcile.{on_get}

-- No condition on an event.
pub data Any (e : Event) : Type 0 where
  any : Any e

-- `u` is `t` with newer events, one of which is `P`.
pub data Reached (P : Event → Type 0) (t : Trace) : Trace → Type 0 where
  here : {u : Trace} (e : Event) → P e → Since Any t u → Reached P t (e ∷ u)
  later : {u : Trace} (e : Event) → Reached P t u → Reached P t (e ∷ u)

module _ {P : Event → Type 0} where
  pub Reached-newer : {t u v : Trace} → Reached P t u → Since Any u v → Reached P t v
  Reached-newer r nothing = r
  Reached-newer r (newer e _ s) = later e (Reached-newer r s)

  pub Reached-older : {t u v : Trace} → Since Any t u → Reached P u v → Reached P t v
  Reached-older s (here e p r) = here e p (Since-trans s r)
  Reached-older s (later e r) = later e (Reached-older s r)

-- A step that adds such an event if it succeeds.
pub record Leaves (P : Event → Type 0) {A : Type 0} (m : Run A) : Type 0 where
  pub at : (w : World) (a : A) → (m w).0 ≡ value a → Reached P w.calls (m w).1.calls

module _ {P : Event → Type 0} {A B : Type 0} where
  first_continue :
      {t : Trace} (r : Ends A) (f : A → Run B) (w : World) (b : B)
      → ((a : A) → r ≡ value a → Reached P t w.calls)
      → ((a : A) → Adds Any (f a))
      → (continue r f w).0 ≡ value b
      → Reached P t (continue r f w).1.calls
  first_continue (value a) f w b p q e = Reached-newer (p a refl) ((q a).at w)
  first_continue (error x) f w b p q e = absurd cc
  first_continue panic f w b p q e = absurd cc

  pub Leaves-first :
      (m : Run A) (f : A → Run B) → Leaves P m → ((a : A) → Adds Any (f a)) → Leaves P (m >>= f)
  Leaves-first m f p q = record { at = λ w b e. first_continue (m w).0 f (m w).1 b (p.at w) q e }

  then_continue :
      (r : Ends A) (f : A → Run B) (w : World) (b : B)
      → ((a : A) → Leaves P (f a))
      → (continue r f w).0 ≡ value b
      → Reached P w.calls (continue r f w).1.calls
  then_continue (value a) f w b q e = (q a).at w b e
  then_continue (error x) f w b q e = absurd cc
  then_continue panic f w b q e = absurd cc

  pub Leaves-then :
      (m : Run A) (f : A → Run B) → Adds Any m → ((a : A) → Leaves P (f a)) → Leaves P (m >>= f)
  Leaves-then m f p q = record {
    at = λ w b e. Reached-older (p.at w) (then_continue (m w).0 f (m w).1 b q e);
  }

module _ {P : Event → Type 0} {A : Type 0} where
  pub Leaves-fail : (x : Error) → Leaves P (fail {A = A} x)
  Leaves-fail x = record { at = λ w a e. absurd cc }

  pub Leaves-stop : Leaves P (stop {A = A})
  Leaves-stop = record { at = λ w a e. absurd cc }

  pub Leaves-if : (b : Bool) (m n : Run A) → Leaves P m → Leaves P n → Leaves P (if b then m else n)
  Leaves-if true m n p q = p
  Leaves-if false m n p q = q

  asked_step :
      (q : Request) (wrap : Error → Error) (r : Result A) (t : Trace) (a : A)
      → P (done q)
      → ends_of wrap r ≡ value a
      → Reached P t (note q r ∷ t)
  asked_step q wrap (ok x) t a p e = here _ p nothing
  asked_step q wrap (err x) t a p e = absurd cc

  -- A request whose error is returned.
  pub Leaves-ask :
      (q : Request) (f : Trace → Result A) (wrap : Error → Error)
      → P (done q)
      → Leaves P (ask q f >>= or_return wrap)
  Leaves-ask q f wrap p = record { at = λ w a e. asked_step q wrap (f w.calls) w.calls a p e }

pub ruleset leaves_rules = (Leaves-if, Leaves-fail, Leaves-stop, Leaves-first, Leaves-then)

module _ (kube : Kube) {P : Event → Type 0} where
  found_step :
      {A : Type 0} {t : Trace} (q : Request) (r : Result A) (absent : Run (Unit {0}))
      (present : A → Run (Unit {0})) (m : Resources) (b : Unit {0})
      → P (done q)
      → Leaves P absent
      → ((a : A) → Adds Any (present a))
      → (on_get kube r absent present (record { memory = m; calls = note q r ∷ t })).0 ≡ value b
      → Reached P t
          (on_get kube r absent present (record { memory = m; calls = note q r ∷ t })).1.calls
  unfolding on_get
  found_step q (ok a) absent present m b d p k e = Reached-newer (here _ d nothing) ((k a).at _)
  found_step q (err x) absent present m b d p k e =
      Reached-older (newer (failed q) any nothing)
        ((Leaves-if (kube.is_not_found x) absent (fail x) p (Leaves-fail x)).at _ b e)

  pub Leaves-get :
      {A : Type 0} (q : Request) (f : Trace → Result A) (absent : Run (Unit {0}))
      (present : A → Run (Unit {0}))
      → P (done q)
      → Leaves P absent
      → ((a : A) → Adds Any (present a))
      → Leaves P (ask q f >>= λ r. on_get kube r absent present)
  Leaves-get q f absent present d p k = record {
    at = λ w b e. found_step q (f w.calls) absent present w.memory b d p k e;
  }
