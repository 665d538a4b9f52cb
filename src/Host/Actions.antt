-- ===== src/Host/Actions.antt =====
-- Steps that call the world, and their sequences.
use eapol_operator.Base.{List, [], ◌∷◌, Result, ok, err, Error, ◌≡◌, refl, inl, inr}
use eapol_operator.Base.{In}
use eapol_operator.Host.{Call, Event, done, failed, Trace, Act}

abbrev pub pure : {A : Type 0} → A → Act A
pure a t = (ok a, t)

abbrev pub fail : {A : Type 0} → Error → Act A
fail e t = (err e, t)

abbrev pub continue : {A B : Type 0} → Result A → (A → Act B) → Act B
continue (ok a) f t = f a t
continue (err e) f t = (err e, t)

infixl 5 ◌>>=◌ ◌>>◌
abbrev pub ◌>>=◌ : {A B : Type 0} → Act A → (A → Act B) → Act B
◌>>=◌ m f t = let (r, t') = m t in continue r f t'

abbrev pub ◌>>◌ : {A B : Type 0} → Act A → Act B → Act B
m >> k = m >>= λ _. k

-- What a step returns, as a step that cannot fail: for code that looks at the error itself.
abbrev pub attempt : {A : Type 0} → Act A → Act (Result A)
attempt m t = let (r, t') = m t in (ok r, t')

-- The record of a call and its answer.
abbrev pub note : {A : Type 0} → Call → Result A → Event
note c (ok _) = done c
note c (err _) = failed c

abbrev pub perform : {A : Type 0} → Call → (Trace → Result A) → Act A
perform c answer t = (answer t, note c (answer t) ∷ t)

-- `for _, x := range xs { if err := f(x); err != nil { return err } }`
unfoldable pub for_each : {A : Type 0} → (A → Act (Unit {0})) → List A → Act (Unit {0})
for_each f [] = pure tt
for_each f (x ∷ xs) = f x >>= λ _. for_each f xs

-- `for _, x := range xs { f(x) }`, with the errors looked at and dropped.
unfoldable pub for_all : {A : Type 0} → (A → Act (Unit {0})) → List A → Act (Unit {0})
for_all f [] = pure tt
for_all f (x ∷ xs) = attempt (f x) >>= λ _. for_all f xs

continue-ok :
    {A B : Type 0} (r : Result A) (f : A → Act B) (t : Trace) (b : B)
    → (continue r f t).0 ≡ ok b
    → (a : A) × (r ≡ ok a) × ((f a t).0 ≡ ok b) × ((continue r f t).1 ≡ (f a t).1)
continue-ok (ok a) f t b h = (a, refl, h, refl)
continue-ok (err e) f t b h = cc

-- A bind that succeeded is two steps that did.
pub >>=-ok :
    {A B : Type 0} (m : Act A) (f : A → Act B) (t : Trace) (b : B)
    → ((m >>= f) t).0 ≡ ok b
    → (a : A) × ((m t).0 ≡ ok a) × ((f a (m t).1).0 ≡ ok b) × (((m >>= f) t).1 ≡ (f a (m t).1).1)
>>=-ok m f t b h = continue-ok (m t).0 f (m t).1 b h

-- A loop over steps that each make `P x` true and keep what the others made.
module _ {A : Type 0} (f : A → Act (Unit {0})) (P : A → Trace → Type 0) where
  pub for_each-keeps :
      ((x y : A) (t : Trace) → P y t → (f x t).0 ≡ ok tt → P y (f x t).1)
      → (xs : List A) (y : A) (t : Trace) → P y t
      → (for_each f xs t).0 ≡ ok tt
      → P y (for_each f xs t).1
  unfolding for_each
  for_each-keeps keeps [] y t p h = p
  for_each-keeps keeps (x ∷ xs) y t p h =
      let (a, first, rest, e) = >>=-ok (f x) (λ _. for_each f xs) t tt h in
      rw e (for_each-keeps keeps xs y (f x t).1 (keeps x y t p first) rest)

  pub for_each-makes :
      ((x : A) (t : Trace) → (f x t).0 ≡ ok tt → P x (f x t).1)
      → ((x y : A) (t : Trace) → P y t → (f x t).0 ≡ ok tt → P y (f x t).1)
      → (xs : List A) (t : Trace) → (for_each f xs t).0 ≡ ok tt
      → (x : A) → In x xs
      → P x (for_each f xs t).1
  unfolding for_each
  for_each-makes makes keeps [] t h x i = absurd i
  for_each-makes makes keeps (x ∷ xs) t h y (inl p) =
      let (a, first, rest, e) = >>=-ok (f x) (λ _. for_each f xs) t tt h in
      rw (e, p) (for_each-keeps keeps xs x (f x t).1 (makes x t first) rest)
  for_each-makes makes keeps (x ∷ xs) t h y (inr i) =
      let (a, first, rest, e) = >>=-ok (f x) (λ _. for_each f xs) t tt h in
      rw e (for_each-makes makes keeps xs (f x t).1 rest y i)
