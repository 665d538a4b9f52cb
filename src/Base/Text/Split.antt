-- ===== src/Base/Text/Split.antt =====
-- `strings.Split` and `strings.Join` undo one another.
use eapol_operator.Base.Tests.{nat_eq}
use eapol_operator.Base.Lists.{All}
use eapol_operator.Base.Text.{Str, split, join, Lacks}
use Prim.Native.Nat.{ℕ}
use mathlib.Core.Path.{◌≡◌, refl}
use mathlib.Core.Logic.{◌≢◌}
use mathlib.Core.List.{List, [], ◌∷◌, ◌++◌}
use native.Mathlib.Omega.{arith}

module _ (c : ℕ) where
  -- What stands before the first separator is the first word.
  pub split-append : (w s : Str) → Lacks c w → split c (w ++ c ∷ s) ≡ w ∷ split c s
  unfolding split
  split-append [] s h = ground arith
  split-append (x ∷ w) s h = ground (arith, split-append w s h.1)

  pub split-Lacks_word : (w : Str) → Lacks c w → split c w ≡ w ∷ []
  unfolding split
  split-Lacks_word [] h = refl
  split-Lacks_word (x ∷ w) h = ground (arith, split-Lacks_word w h.1)

  pub split-ne-nil : (s : Str) → split c s ≢ []
  unfolding split
  split-ne-nil [] h = cc
  split-ne-nil (x ∷ s) h = ground (arith, split-ne-nil s)

  pub split-join :
      (w : Str) (ws : List Str) → All (Lacks c) (w ∷ ws) → split c (join (c ∷ []) (w ∷ ws)) ≡ w ∷ ws
  unfolding join
  split-join w [] h = split-Lacks_word w h.0
  split-join w (v ∷ ws) h =
      ground (arith, split-append w (join (c ∷ []) (v ∷ ws)) h.0, split-join v ws h.1)

  -- No word of a split holds the separator.
  pub split-Lacks : (s : Str) → All (Lacks c) (split c s)
  unfolding split
  split-Lacks [] = (tt, tt)
  split-Lacks (x ∷ s) = ground (arith, split-Lacks s, split-ne-nil s)

  pub Lacks-append : (s t : Str) → Lacks c s → Lacks c t → Lacks c (s ++ t)
  Lacks-append [] t h k = k
  Lacks-append (x ∷ s) t h k = (h.0, Lacks-append s t h.1 k)
