-- ===== src/TrafficControl/Init/Issued.antt =====
-- The shell commands that a run gave, in their order, and what a step that succeeds adds to them.
use eapol_operator.Base.{
  List, [], ◌∷◌, ◌++◌, Str, Result, ok, err, ◌≡◌, refl, ◌∙◌, ap, arith, map, append-nil,
  append_assoc,
}
use eapol_operator.Host.{Host, done, failed, run, Trace, Act}
use eapol_operator.Host.Actions.{pure, ◌>>◌, note, for_all, >>=-ok}
use eapol_operator.TrafficControl.Sysfs.{is_sriov_pf}
use eapol_operator.TrafficControl.Tc.{shell_run, find_tc}

unfoldable pub issued : Trace → List Str
issued [] = []
issued (done (run c) ∷ t) = issued t ++ c ∷ []
issued (failed (run c) ∷ t) = issued t ++ c ∷ []
issued (_ ∷ t) = issued t

-- Whenever the step succeeds it has given these commands, and no others.
pub record Issues (m : Act (Unit {0})) (cs : List Str) : Type 0 where
  pub at : (t : Trace) → (m t).0 ≡ ok tt → issued (m t).1 ≡ issued t ++ cs

pub Issues-pure : Issues (pure tt) []
Issues-pure = record { at = λ t e. rw append-nil refl }

pub Issues-then :
    (m n : Act (Unit {0})) (cs ds : List Str)
    → Issues m cs
    → Issues n ds
    → Issues (m >> n) (cs ++ ds)
Issues-then m n cs ds p q = record {
  at = λ t e.
      let (_, first, rest, same) = >>=-ok m (λ _. n) t tt e in
      rw same
        (q.at (m t).1 rest ∙ ap (λ xs. xs ++ ds) (p.at t first) ∙ append_assoc (issued t) cs ds);
}

module _ (h : Host) where
  shell_issued :
      (c : Str) (r : Result (Unit {0})) (t : Trace)
      → issued (note (run c) r ∷ t) ≡ issued t ++ c ∷ []
  unfolding issued
  shell_issued c (ok _) t = refl
  shell_issued c (err _) t = refl

  pub Issues-shell : (c : Str) → Issues (shell_run h c) (c ∷ [])
  Issues-shell c = record { at = λ t e. shell_issued c (h.shell c t) t }

  pub Issues-tc : Issues (find_tc h) []
  unfolding issued
  Issues-tc = record { at = λ t e. rw e (rw append-nil refl) }

  pub Issues-for_all :
      {A : Type 0} (command : A → Str) (xs : List A)
      → Issues (for_all (λ x. shell_run h (command x)) xs) (map command xs)
  unfolding for_all
  Issues-for_all command [] = Issues-pure
  Issues-for_all command (x ∷ xs) = record {
    at = λ t e.
        (Issues-for_all command xs).at _ e
        ∙ ap (λ ys. ys ++ map command xs) (shell_issued (command x) (h.shell (command x) t) t)
        ∙ append_assoc (issued t) _ _;
  }

  pub issued-is_sriov_pf : (n : Str) (t : Trace) → issued (is_sriov_pf h n t).1 ≡ issued t
  unfolding is_sriov_pf issued
  issued-is_sriov_pf n t = ground arith
