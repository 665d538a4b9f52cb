-- ===== src/Host/Quiet.antt =====
-- Steps that set up no VF: one rule for each way to build such a step.
use eapol_operator.Base.{
  ℕ, List, [], ◌∷◌, Str, Bool, true, false, Result, ok, err, Error, ◌≡◌, refl, ◌∙◌, Option, none,
  some, if◌then◌else◌,
}
use eapol_operator.Host.{Host, Call, link_set_vf_vlan, link_set_vf_state, Trace, Act}
use eapol_operator.Host.Actions.{pure, fail, attempt, ◌>>=◌, perform, note, for_each, continue}
use eapol_operator.Host.Views.{vlan_of, state_of, IsFaithful, Attempts, once, again}

-- Two runs that left the VFs alike.
pub record SameVfs (t u : Trace) : Type 0 where
  pub vlans : (pf : Str) (i : ℕ) → vlan_of pf i u ≡ vlan_of pf i t
  pub states : (pf : Str) (i : ℕ) → state_of pf i u ≡ state_of pf i t

pub SameVfs-refl : (t : Trace) → SameVfs t t
SameVfs-refl t = record { vlans = λ pf i. refl; states = λ pf i. refl }

pub SameVfs-trans : {t u v : Trace} → SameVfs t u → SameVfs u v → SameVfs t v
SameVfs-trans a b = record {
  vlans = λ pf i. b.vlans pf i ∙ a.vlans pf i;
  states = λ pf i. b.states pf i ∙ a.states pf i;
}

pub record IsQuiet {A : Type 0} (m : Act A) : Type 0 where
  pub at : (t : Trace) → SameVfs t (m t).1

-- The calls that set up no VF.
abbrev pub harmless : Call → Bool
harmless (link_set_vf_vlan _ _ _) = false
harmless (link_set_vf_state _ _ _) = false
harmless _ = true

harmless-note :
    (c : Call) (r : Result (Unit {0})) (t : Trace) → harmless c ≡ true → SameVfs t (note c r ∷ t)
unfolding vlan_of state_of
harmless-note (link_set_vf_vlan _ _ _) (ok _) t h = cc
harmless-note (link_set_vf_state _ _ _) (ok _) t h = cc
harmless-note _ (ok _) t h = record { vlans = λ pf i. refl; states = λ pf i. refl }
harmless-note _ (err _) t h = record { vlans = λ pf i. refl; states = λ pf i. refl }

module _ {A : Type 0} where
  pub IsQuiet-pure : (a : A) → IsQuiet (pure a)
  IsQuiet-pure a = record { at = SameVfs-refl }

  pub IsQuiet-fail : (e : Error) → IsQuiet (fail {A = A} e)
  IsQuiet-fail e = record { at = SameVfs-refl }

  pub IsQuiet-attempt : (m : Act A) → IsQuiet m → IsQuiet (attempt m)
  IsQuiet-attempt m q = record { at = λ t. q.at t }

  pub IsQuiet-if : (b : Bool) (m n : Act A) → IsQuiet m → IsQuiet n → IsQuiet (if b then m else n)
  IsQuiet-if true m n p q = p
  IsQuiet-if false m n p q = q

  quiet_note : (c : Call) (r : Result A) (t : Trace) → harmless c ≡ true → SameVfs t (note c r ∷ t)
  quiet_note c (ok a) t q = harmless-note c (ok tt) t q
  quiet_note c (err e) t q = harmless-note c (err e) t q

  pub IsQuiet-perform :
      (c : Call) (f : Trace → Result A) → harmless c ≡ true → IsQuiet (perform c f)
  IsQuiet-perform c f q = record { at = λ t. quiet_note c (f t) t q }

module _ {A B : Type 0} where
  IsQuiet-continue :
      (r : Result A) (f : A → Act B) → ((a : A) → IsQuiet (f a)) → IsQuiet (continue r f)
  IsQuiet-continue (ok a) f q = q a
  IsQuiet-continue (err e) f q = record { at = SameVfs-refl }

  pub IsQuiet-bind :
      (m : Act A) (f : A → Act B) → IsQuiet m → ((a : A) → IsQuiet (f a)) → IsQuiet (m >>= f)
  IsQuiet-bind m f p q = record {
    at = λ t. SameVfs-trans (p.at t) ((IsQuiet-continue (m t).0 f q).at (m t).1);
  }

module _ {A : Type 0} where
  pub IsQuiet-for_each :
      (f : A → Act (Unit {0})) (xs : List A) → ((x : A) → IsQuiet (f x)) → IsQuiet (for_each f xs)
  unfolding for_each
  IsQuiet-for_each f [] q = IsQuiet-pure tt
  IsQuiet-for_each f (x ∷ xs) q =
      IsQuiet-bind (f x) (λ _. for_each f xs) (q x) (λ _. IsQuiet-for_each f xs q)

Attempts-SameVfs :
    (act : Act (Unit {0})) (t : Trace) {p : Result (Unit {0}) × Trace}
    → IsQuiet act
    → Attempts act t p
    → SameVfs t p.1
Attempts-SameVfs act t q once = q.at t
Attempts-SameVfs act t q (again {p = p} more) =
    SameVfs-trans (Attempts-SameVfs act t q more) (q.at p.1)

-- A retried closure is as quiet as one run of it.
pub IsQuiet-retry :
    (h : Host) (faithful : IsFaithful h) (act : Act (Unit {0}))
    → IsQuiet act
    → IsQuiet (h.retry_on_conflict act)
IsQuiet-retry h faithful act q = record {
  at = λ t. Attempts-SameVfs act t q (faithful.retries act t);
}

pub ruleset quiet_rules = (
  IsQuiet-pure, IsQuiet-fail, IsQuiet-attempt, IsQuiet-if, IsQuiet-perform, IsQuiet-bind,
  IsQuiet-for_each, refl,
)
