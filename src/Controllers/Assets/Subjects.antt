-- ===== src/Controllers/Assets/Subjects.antt =====
-- The binding that was read has one subject, so that the reconciler may write to it.
use mathlib.Core.Path.{subst}
use eapol_operator.Base.{
  length, no_role_binding, Error, List, [], ◌∷◌, Str, Bool, true, false, Option, none, some, ◌≡◌,
  refl, if◌then◌else◌,
}
use eapol_operator.Controllers.{Meta, Subject, Resources, Ends, value, error, panic}
use eapol_operator.Controllers.Assets.{
  Manifests, Found, then_on, with_binding, or_missing, complete, add_kind, add_manifest, add_all,
  retrieve_resources,
}

-- What holds of the value, if there is one.
abbrev OfValue : {A : Type 0} → (A → Type 0) → Ends A → Type 0
OfValue P (value a) = P a
OfValue P (error e) = Unit
OfValue P panic = Unit

record Ensures {A : Type 0} (P : A → Type 0) (r : Ends A) : Type 0 where
  of_value : OfValue P r

Ensures-then_on :
    {A B : Type 0} (P : A → Type 0) (Q : B → Type 0) (r : Ends A) (f : A → Ends B)
    → Ensures P r
    → ((a : A) → P a → Ensures Q (f a))
    → Ensures Q (then_on r f)
Ensures-then_on P Q (value a) f p q = q a p.of_value
Ensures-then_on P Q (error e) f p q = record { of_value = tt }
Ensures-then_on P Q panic f p q = record { of_value = tt }

Ensures-after :
    {A B : Type 0} (Q : B → Type 0) (r : Ends A) (f : A → Ends B)
    → ((a : A) → Ensures Q (f a))
    → Ensures Q (then_on r f)
Ensures-after Q (value a) f q = q a
Ensures-after Q (error e) f q = record { of_value = tt }
Ensures-after Q panic f q = record { of_value = tt }

Ensures-if :
    {A : Type 0} (P : A → Type 0) (b : Bool) (r s : Ends A)
    → Ensures P r
    → Ensures P s
    → Ensures P (if b then r else s)
Ensures-if P true r s p q = p
Ensures-if P false r s p q = q

Ensures-value : {A : Type 0} (P : A → Type 0) (a : A) → P a → Ensures P (value a)
Ensures-value P a p = record { of_value = p }

Ensures-error : {A : Type 0} (P : A → Type 0) (e : Error) → Ensures P (error e)
Ensures-error P e = record { of_value = tt }

ruleset ensures_rules = (Ensures-after, Ensures-if, Ensures-value, Ensures-error)

-- A binding, if there is one, has one subject.
abbrev IsSingle : Option (Meta × List Subject) → Type 0
IsSingle none = Unit
IsSingle (some b) = length b.1 ≡ 1

abbrev HasSubject : Found → Type 0
HasSubject res = IsSingle res.role_binding

binding-IsSingle : (res : Found) (b : Meta × List Subject) → Ensures HasSubject (with_binding res b)
unfolding with_binding
binding-IsSingle res (m, []) = record { of_value = tt }
binding-IsSingle res (m, s ∷ []) = record { of_value = refl }
binding-IsSingle res (m, s ∷ _ ∷ _) = record { of_value = tt }

module _ (m : Manifests) where
  kind-IsSingle :
      (res : Found) (manifest kind : Str)
      → HasSubject res
      → Ensures HasSubject (add_kind m res manifest kind)
  unfolding add_kind
  kind-IsSingle res manifest kind p = search (ensures_rules, binding-IsSingle, p)

  all-IsSingle :
      (manifests : List Str) (res : Found)
      → HasSubject res
      → Ensures HasSubject (add_all m manifests res)
  unfolding add_all add_manifest
  all-IsSingle [] res p = record { of_value = p }
  all-IsSingle (manifest ∷ rest) res p =
      Ensures-then_on HasSubject HasSubject (add_manifest m res manifest) (add_all m rest)
        (search (ensures_rules, kind-IsSingle, p)) (λ next q. all-IsSingle rest next q)

abbrev IsOne : Meta × List Subject → Type 0
IsOne b = length b.1 ≡ 1

abbrev HasOne : Resources → Type 0
HasOne r = length r.subjects ≡ 1

missing-IsSingle :
    (b : Option (Meta × List Subject)) (e : Error) → IsSingle b → Ensures IsOne (or_missing b e)
unfolding or_missing
missing-IsSingle none e p = record { of_value = tt }
missing-IsSingle (some b) e p = record { of_value = p }

abbrev made_of : Meta → Meta → Meta × List Subject → Ends Resources
made_of account role binding = value (record {
  service_account = account;
  role = role;
  role_binding = binding.0;
  subjects = binding.1;
})

binding-HasOne :
    (res : Found) (account role : Meta)
    → HasSubject res
    → Ensures HasOne (then_on (or_missing res.role_binding no_role_binding) (made_of account role))
binding-HasOne res account role p =
    Ensures-then_on IsOne HasOne (or_missing res.role_binding no_role_binding)
      (made_of account role) (missing-IsSingle res.role_binding no_role_binding p)
      (λ binding q. record { of_value = q })

complete-IsSingle : (res : Found) → HasSubject res → Ensures HasOne (complete res)
unfolding complete
complete-IsSingle res p = search (ensures_rules, binding-HasOne, p)

abbrev nothing_found : Found
nothing_found = record { service_account = none; role = none; role_binding = none }

manifests-IsSingle :
    (m : Manifests) (manifests : List Str)
    → Ensures HasOne (then_on (add_all m manifests nothing_found) complete)
manifests-IsSingle m manifests =
    Ensures-then_on HasSubject HasOne (add_all m manifests nothing_found) complete
      (all-IsSingle m manifests nothing_found tt) complete-IsSingle

retrieved-IsSingle : (m : Manifests) (path : Str) → Ensures HasOne (retrieve_resources m path)
unfolding retrieve_resources
retrieved-IsSingle m path = search (ensures_rules, manifests-IsSingle)

-- The binding of resources that were read has exactly one subject.
pub retrieve_resources_subject :
    (m : Manifests) (path : Str) (res : Resources)
    → retrieve_resources m path ≡ value res
    → length res.subjects ≡ 1
retrieve_resources_subject m path res p =
    (subst (Ensures HasOne) p (retrieved-IsSingle m path)).of_value
