-- ===== src/Base/Text.antt =====
-- Go strings as lists of bytes, with what the program uses of the package `strings`. `TrimSpace`
-- knows the white space of ASCII, which is all that configuration text here may hold.
pub mod Split
pub mod Trim
use Prim.Native.Char.{code}
use Prim.Native.String.{String}
use Prim.Native.Nat.{ℕ, zero, suc, ◌+◌}
use mathlib.Core.Bool.{Bool, true, false, ◌||◌, ◌&&◌}
use mathlib.Core.Option.{Option, none, some}
use mathlib.Core.Path.{◌≡◌, refl}
use mathlib.Core.Logic.{◌≢◌}
use mathlib.Core.List.{List, [], ◌∷◌, ◌++◌, reverse, map}
use native.Mathlib.Omega.{arith}
use eapol_operator.Base.Tests.{◌==◌, nat_eq, leb, if◌then◌else◌}

abbrev pub Str : Type 0
Str = List ℕ

-- The bytes of an ASCII literal.
abbrev pub bytes : String → Str
bytes String.[] = []
bytes (String.◌∷◌ c s) = code c ∷ bytes s

-- `strings.Split(s, sep)` at a separator of one byte.
push_first : ℕ → List Str → List Str
push_first x [] = (x ∷ []) ∷ []
push_first x (w ∷ ws) = (x ∷ w) ∷ ws

unfoldable pub split : ℕ → Str → List Str
unfolding push_first nat_eq
split c [] = [] ∷ []
split c (x ∷ s) = let rest = split c s in if x == c then [] ∷ rest else push_first x rest

-- `strings.Join(words, sep)`
unfoldable pub join : Str → List Str → Str
join sep [] = []
join sep (w ∷ []) = w
join sep (w ∷ v ∷ ws) = w ++ (sep ++ join sep (v ∷ ws))

unfoldable pub has_prefix : Str → Str → Bool
unfolding nat_eq
has_prefix [] s = true
has_prefix (p ∷ ps) [] = false
has_prefix (p ∷ ps) (c ∷ s) = (p == c) && has_prefix ps s

-- `strings.Contains(s, sub)`
unfoldable pub contains : Str → Str → Bool
unfolding has_prefix
contains [] sub = has_prefix sub []
contains (c ∷ s) sub = has_prefix sub (c ∷ s) || contains s sub

-- `strings.Index(s, sep)` at a separator of one byte; `none` is -1.
unfoldable pub index : Str → ℕ → Option ℕ
unfolding nat_eq
index [] c = none
index (x ∷ s) c =
    let rest = index s c in
    if x == c then some 0 else elim rest [ none ↦ none | some i ↦ some (suc i) ]

-- `s[n:]`
unfoldable pub drop : ℕ → Str → Str
drop zero s = s
drop (suc n) [] = []
drop (suc n) (_ ∷ s) = drop n s

unfoldable pub is_space : ℕ → Bool
unfolding nat_eq
is_space c = (c == 32) || (leb 9 c && leb c 13)

unfoldable pub trim_left : Str → Str
unfolding is_space
trim_left [] = []
trim_left (c ∷ s) = let rest = trim_left s in if is_space c then rest else c ∷ s

-- `strings.TrimSpace(s)`
unfoldable pub trim_space : Str → Str
unfolding trim_left
trim_space s = reverse (trim_left (reverse (trim_left s)))

-- `strings.Replace(s, old, "", -1)` for an `old` of one byte, and of two.
unfoldable pub remove : ℕ → Str → Str
unfolding nat_eq
remove c [] = []
remove c (x ∷ s) = let rest = remove c s in if x == c then rest else x ∷ rest

unfoldable pub remove_pair : ℕ → ℕ → Str → Str
unfolding nat_eq
remove_pair a b [] = []
remove_pair a b (x ∷ []) = x ∷ []
remove_pair a b (x ∷ y ∷ s) =
    let here = remove_pair a b s in
    let later = remove_pair a b (y ∷ s) in if (x == a) && (y == b) then here else x ∷ later

-- No byte of the text is `c`.
abbrev pub Lacks : ℕ → Str → Type 0
Lacks c [] = Unit
Lacks c (x ∷ s) = (x ≢ c) × Lacks c s
