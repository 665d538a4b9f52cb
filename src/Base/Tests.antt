-- ===== src/Base/Tests.antt =====
-- Boolean tests: Go's `==`, `<` and `<=`, and the conditional.
use Prim.Native.Nat.{ℕ, compare, Ordering}
use mathlib.Core.Path.{◌≡◌, refl, ap}
use mathlib.Core.Logic.{◌≢◌, ◌⊎◌, inl, inr, ite}
use mathlib.Core.Bool.{Bool, true, false}
use mathlib.Core.List.{List, [], ◌∷◌}
use native.Mathlib.Decide.{ℕ_discrete}
use native.Mathlib.Omega.{arith}

infix 1 if◌then◌else◌
abbrev pub if◌then◌else◌ {ℓ} : {A : Type ℓ} → Bool → A → A → A
if true then x else y = x
if false then x else y = y

-- These compute to `compare`, which the tactics read with no lemma listed.
abbrev pub ltb : ℕ → ℕ → Bool
ltb a b = elim (compare a b) [ Ordering.lt ↦ true | _ ↦ false ]

abbrev pub leb : ℕ → ℕ → Bool
leb a b = elim (compare a b) [ Ordering.gt ↦ false | _ ↦ true ]

-- A type whose values Go compares by `==`.
pub record Eq {ℓ} (A : Type ℓ) : Type ℓ where
  pub dec : Discrete A

infix 50 ◌==◌
abbrev pub ◌==◌ {ℓ} : {A : Type ℓ} ⦃e : Eq A⦄ → A → A → Bool
◌==◌ ⦃e⦄ a b = ite (e.dec a b) true false

instance unfoldable pub nat_eq : Eq ℕ
unfolding ℕ_discrete
nat_eq = record { dec = ℕ_discrete }

tail_of : List ℕ → List ℕ
tail_of [] = []
tail_of (_ ∷ s) = s

head_of : List ℕ → ℕ
head_of [] = 0
head_of (c ∷ _) = c

heads-eq : {c d : ℕ} {s t : List ℕ} → c ∷ s ≡ d ∷ t → c ≡ d
unfolding head_of
heads-eq p = ap head_of p

tails-eq : {c d : ℕ} {s t : List ℕ} → c ∷ s ≡ d ∷ t → s ≡ t
unfolding tail_of
tails-eq p = ap tail_of p

cons-eq : {c d : ℕ} {s t : List ℕ} → c ≡ d → s ≡ t → c ∷ s ≡ d ∷ t
cons-eq p q = cc

nil-ne-cons : {d : ℕ} {t : List ℕ} → [] ≢ d ∷ t
nil-ne-cons p = cc

cons-ne-nil : {c : ℕ} {s : List ℕ} → c ∷ s ≢ []
cons-ne-nil p = cc

bytes_dec : Discrete (List ℕ)
unfolding ℕ_discrete
bytes_dec [] [] = yes refl
bytes_dec [] (d ∷ t) = no nil-ne-cons
bytes_dec (c ∷ s) [] = no cons-ne-nil
bytes_dec (c ∷ s) (d ∷ t) =
    let rest = bytes_dec s t in
    elim (ℕ_discrete c d) [
      | yes p ↦ elim rest [ yes q ↦ yes (cons-eq p q) | no n ↦ no (λ r. n (tails-eq r)) ]
      | no n ↦ no (λ r. n (heads-eq r))
    ]

instance unfoldable pub bytes_eq : Eq (List ℕ)
unfolding bytes_dec nil-ne-cons cons-ne-nil cons-eq tails-eq heads-eq
bytes_eq = record { dec = bytes_dec }

-- To split on a computed value and keep the equation.
pub Bool-cases : (b : Bool) → (b ≡ true) ⊎ (b ≡ false)
Bool-cases true = inl refl
Bool-cases false = inr refl

module _ {ℓ} {A : Type ℓ} ⦃e : Eq A⦄ where
  pub ==_refl : (a : A) → (a == a) ≡ true
  ==_refl a = ground arith

  pub ==_eq : {a b : A} → (a == b) ≡ true → a ≡ b
  ==_eq {a} {b} h = ground arith

  pub ==_ne : {a b : A} → a ≢ b → (a == b) ≡ false
  ==_ne {a} {b} h = ground arith
