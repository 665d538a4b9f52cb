-- ===== src/Controllers/Reconcile/Owners.antt =====
-- Who owns the objects that the reconciler has created.
use mathlib.Core.Path.{subst}
use eapol_operator.Base.{sym, List, [], ◌∷◌, ◌++◌, Str, true, Option, none, some, ◌≡◌, ◌≢◌, ◌∙◌, ap}
use eapol_operator.Api.{Authenticator}
use eapol_operator.Controllers.{Owner, Meta, Subject, Object, Kind, Trace, Kube, Resources, World}
use eapol_operator.Controllers.Documented.{meta_of, owner_of, IsServer, IsReferring}
use eapol_operator.Controllers.Reconcile.{reconcile}
use eapol_operator.Controllers.Reconcile.Fresh.{
  unwritten, creations, IsFresh, wanted, kept, reconcile_fresh,
}

abbrev pub owners : List Object → List (Option Owner)
owners [] = []
owners (o ∷ rest) = (meta_of o).owner ∷ owners rest

-- The three objects that the reconciler keeps have this owner.
pub record AreOwned (o : Option Owner) (res : Resources) : Type 0 where
  pub of_service_account : res.service_account.owner ≡ o
  pub of_role : res.role.owner ≡ o
  pub of_role_binding : res.role_binding.owner ≡ o

module _ (kube : Kube) (server : IsServer kube) (referring : IsReferring kube) where
  owners-wanted :
      (ns name : Str) (a : Authenticator) (res : Resources) (text : Str) (s : Subject)
      (rest : List Subject) (more : List Object)
      → a.namespace ≡ ns
      → AreOwned none res
      → owners (wanted kube ns name a res text s rest ++ more)
        ≡ some (owner_of a)
          ∷ some (owner_of a)
          ∷ some (owner_of a)
          ∷ some (owner_of a)
          ∷ some (owner_of a)
          ∷ owners more
  owners-wanted ns name a res text s rest more p o =
      simp (referring.takes, p, o.of_service_account, o.of_role, o.of_role_binding)

  owners-wanted_foreign :
      (ns name : Str) (a : Authenticator) (b : Owner) (res : Resources) (text : Str) (s : Subject)
      (rest : List Subject) (more : List Object)
      → AreOwned (some b) res
      → b.name ≢ a.name
      → owners (wanted kube ns name a res text s rest ++ more)
        ≡ some (owner_of a) ∷ some b ∷ some b ∷ some b ∷ some (owner_of a) ∷ owners more
  owners-wanted_foreign ns name a b res text s rest more o n = simp (
    referring.takes,
    λ (m : Meta). referring.leaves a m b,
    n,
    o.of_service_account,
    o.of_role,
    o.of_role_binding,
  )

  kept-AreOwned :
      (ns name : Str) (a : Authenticator) (f : IsFresh kube ns name a) (res : Resources)
      (s : Subject) (rest : List Subject) (t : Trace)
      → a.namespace ≡ ns
      → AreOwned none res
      → AreOwned (some (owner_of a)) (kept kube ns name a f res s rest)
  kept-AreOwned ns name a f res s rest t p o = record {
    of_service_account =
        (server.created _ t _ (f.accepts _ t)).2 ∙ referring.takes a _ o.of_service_account (sym p);
    of_role = (server.created _ t _ (f.accepts _ t)).2 ∙ referring.takes a _ o.of_role (sym p);
    of_role_binding =
        (server.created _ t _ (f.accepts _ t)).2 ∙ referring.takes a _ o.of_role_binding (sym p);
  }

  -- While the objects that the reconciler keeps have no owner: what is created in a namespace in
  -- which the resource is alone, five objects, is owned by the resource.
  reconcile_fresh-owners :
      (ns name : Str) (a : Authenticator) (w : World) (f : IsFresh kube ns name a) (s : Subject)
      (rest : List Subject)
      → w.memory.subjects ≡ s ∷ rest
      → ((k : Kind) → unwritten k ns w.calls ≡ true)
      → AreOwned none w.memory
      → owners (creations (reconcile kube ns name w).1.calls)
        ≡ some (owner_of a)
          ∷ some (owner_of a)
          ∷ some (owner_of a)
          ∷ some (owner_of a)
          ∷ some (owner_of a)
          ∷ owners (creations w.calls)
  reconcile_fresh-owners ns name a w f s rest q u o =
      ap owners (reconcile_fresh kube ns name a w f s rest q u).2
      ∙ owners-wanted ns name a w.memory f.text s rest (creations w.calls)
          (server.found_authenticator ns name w.calls a (f.has_authenticator w.calls)).0 o

  -- A reconciler whose objects have no owner makes those of the resource `a`, and then those of
  -- the resource `b` of another name and namespace: the ServiceAccount, the Role and the RoleBinding that it
  -- creates there are owned by `a`; the ConfigMap and the DaemonSet by `b`.
  pub reconcile_foreign-owners :
      (ns name ns' name' : Str) (a b : Authenticator) (w : World) (f : IsFresh kube ns name a)
      (g : IsFresh kube ns' name' b) (s : Subject) (rest : List Subject)
      → w.memory.subjects ≡ s ∷ rest
      → ((k : Kind) → unwritten k ns w.calls ≡ true)
      → AreOwned none w.memory
      → a.name ≢ b.name
      → ((k : Kind) → unwritten k ns' (reconcile kube ns name w).1.calls ≡ true)
      → owners (creations (reconcile kube ns' name' (reconcile kube ns name w).1).1.calls)
        ≡ some (owner_of b)
          ∷ some (owner_of a)
          ∷ some (owner_of a)
          ∷ some (owner_of a)
          ∷ some (owner_of b)
          ∷ owners (creations (reconcile kube ns name w).1.calls)
  reconcile_foreign-owners ns name ns' name' a b w f g s rest q u o n u' =
      let first = reconcile_fresh kube ns name a w f s rest q u in
      let after = (reconcile kube ns name w).1 in
      ap owners
        (reconcile_fresh kube ns' name' b after g (record s { namespace = ns }) rest
          (ap (λ m. m.subjects) first.1 ∙ (server.created _ w.calls _ (f.accepts _ w.calls)).3)
          u').2
      ∙ owners-wanted_foreign ns' name' b (owner_of a) after.memory g.text
          (record s { namespace = ns }) rest (creations after.calls)
          (subst (AreOwned (some (owner_of a))) (sym first.1) (
            kept-AreOwned ns name a f w.memory s rest w.calls
              (server.found_authenticator ns name w.calls a (f.has_authenticator w.calls)).0 o))
          n
