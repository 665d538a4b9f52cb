-- ===== src/Base/Text/Trim.antt =====
-- Texts that `TrimSpace` leaves alone.
use Prim.Native.Nat.{ℕ}
use mathlib.Core.Logic.{◌⊎◌, inl, inr}
use mathlib.Core.Bool.{Bool, true, false}
use mathlib.Core.Path.{◌≡◌, refl, ap, ◌∙◌}
use mathlib.Core.List.{
  [], ◌∷◌, ◌++◌, reverse, reverse-reverse, reverse-cons, reverse-append, append_assoc,
}
use native.Mathlib.Omega.{arith}
use eapol_operator.Base.Lists.{All, All-append}
use eapol_operator.Base.Text.{Str, is_space, trim_left, trim_space}

-- No byte is white space.
abbrev pub IsSolid : Str → Type 0
IsSolid s = All (λ c. is_space c ≡ false) s

trim_left-IsSolid : (s : Str) → IsSolid s → trim_left s ≡ s
unfolding trim_left
trim_left-IsSolid [] h = refl
trim_left-IsSolid (c ∷ s) h = ground arith

reverse-IsSolid : (s : Str) → IsSolid s → IsSolid (reverse s)
reverse-IsSolid [] h = tt
reverse-IsSolid (c ∷ s) h =
    rw (reverse-cons c s)
      (All-append (λ c. is_space c ≡ false) (reverse s) (c ∷ []) (reverse-IsSolid s h.1) (h.0, tt))

pub trim_space-IsSolid : (s : Str) → IsSolid s → trim_space s ≡ s
unfolding trim_space
trim_space-IsSolid s h =
    rw (trim_left-IsSolid s h, trim_left-IsSolid (reverse s) (reverse-IsSolid s h))
      (reverse-reverse s)

-- Some byte is no white space.
abbrev pub HasSolid : Str → Type 0
HasSolid [] = ⊥
HasSolid (c ∷ s) = (is_space c ≡ false) ⊎ HasSolid s

pub HasSolid-append : (s t : Str) → HasSolid t → HasSolid (s ++ t)
HasSolid-append [] t h = h
HasSolid-append (c ∷ s) t h = inr (HasSolid-append s t h)

pub HasSolid-append_left : (s t : Str) → HasSolid s → HasSolid (s ++ t)
HasSolid-append_left [] t h = absurd h
HasSolid-append_left (c ∷ s) t (inl p) = inl p
HasSolid-append_left (c ∷ s) t (inr h) = inr (HasSolid-append_left s t h)

reverse-HasSolid : (s : Str) → HasSolid s → HasSolid (reverse s)
reverse-HasSolid [] h = absurd h
reverse-HasSolid (c ∷ s) (inl p) =
    rw (reverse-cons c s) (HasSolid-append (reverse s) (c ∷ []) (inl p))
reverse-HasSolid (c ∷ s) (inr h) =
    rw (reverse-cons c s) (HasSolid-append_left (reverse s) (c ∷ []) (reverse-HasSolid s h))

keeps_step :
    (c : ℕ) (u v : Str) (b : Bool)
    → is_space c ≡ b
    → (z : Str) × (trim_left (u ++ 32 ∷ v) ≡ z ++ 32 ∷ v)
    → (z : Str) × (trim_left (c ∷ u ++ 32 ∷ v) ≡ z ++ 32 ∷ v)
unfolding trim_left
keeps_step c u v true p (z, q) = (z, ground arith)
keeps_step c u v false p (z, q) = (c ∷ u, ground arith)

-- What stands behind a byte that is no white space is kept.
trim_left_keeps : (u v : Str) → HasSolid u → (z : Str) × (trim_left (u ++ 32 ∷ v) ≡ z ++ 32 ∷ v)
unfolding trim_left
trim_left_keeps [] v h = absurd h
trim_left_keeps (c ∷ u) v (inl p) = (c ∷ u, ground arith)
trim_left_keeps (c ∷ u) v (inr h) = keeps_step c u v (is_space c) refl (trim_left_keeps u v h)

reverse_around : (u v : Str) → reverse (u ++ 32 ∷ v) ≡ reverse v ++ 32 ∷ reverse u
reverse_around u v =
    reverse-append u (32 ∷ v)
    ∙ ap (λ r. r ++ reverse u) (reverse-cons 32 v)
    ∙ append_assoc (reverse v) (32 ∷ []) (reverse u)

-- A blank between two words is kept.
pub trim_space_keeps :
    (u v : Str)
    → HasSolid u
    → HasSolid v
    → (y : Str) × (z : Str) × (trim_space (u ++ 32 ∷ v) ≡ y ++ 32 ∷ z)
unfolding trim_space
trim_space_keeps u v h k =
    let (y, p) = trim_left_keeps u v h in
    let (z, q) = trim_left_keeps (reverse v) (reverse y) (reverse-HasSolid v k) in
    (reverse (reverse y), reverse z, rw (p, reverse_around y v, q) (reverse_around z (reverse y)))
