-- ===== src/Base/Decimal.antt =====
-- Go's `int` on a 64-bit machine, and `strconv.Itoa` and `strconv.Atoi`.
pub mod RoundTrip
use Prim.Native.Nat.{ℕ, zero, suc, ◌+◌, ◌-◌, ◌*◌, ◌/◌, ◌%◌, ◌^◌, ◌≤◌, ◌<◌}
use mathlib.Core.Bool.{Bool, true, false, ◌||◌, ◌&&◌}
use mathlib.Core.Path.{◌≡◌, refl}
use mathlib.Core.List.{List, [], ◌∷◌}
use native.Mathlib.Omega.{arith}
use eapol_operator.Base.Tests.{◌==◌, nat_eq, ltb, leb, if◌then◌else◌}
use eapol_operator.Base.Errors.{Error, Result, ok, err, bad_syntax, out_of_range}
use eapol_operator.Base.Text.{Str, bytes}

-- `negsuc n` is -(n + 1).
pub data ℤ : Type 0 where
  pos : ℕ → ℤ
  negsuc : ℕ → ℤ

abbrev pub opposite : ℕ → ℤ
opposite zero = pos zero
opposite (suc n) = negsuc n

-- The values of an `int`.
abbrev pub InRange : ℤ → Type 0
InRange (pos n) = n < 2 ^ 63
InRange (negsuc n) = n < 2 ^ 63

-- The digits of `n` in front of `out`; the fuel `n` is enough.
emit : ℕ → ℕ → Str → Str
unfolding nat_eq
emit zero n out = out
emit (suc fuel) n out =
    let rest = emit fuel (n / 10) ((48 + n % 10) ∷ out) in if n == 0 then out else rest

decimal : ℕ → Str
unfolding emit
decimal n = if n == 0 then 48 ∷ [] else emit n n []

unfoldable pub itoa : ℤ → Str
unfolding decimal emit
itoa (pos n) = decimal n
itoa (negsuc n) = 45 ∷ decimal (suc n)

-- `ParseUint`: an `uint64` from its digits, the first fault from the left decides the error.
scan : Str → ℕ → Result ℕ
scan [] n = ok n
scan (c ∷ s) n =
    let next = n * 10 + (c - 48) in
    let rest = scan s next in
    if ltb c 48 || ltb 57 c
    then err bad_syntax
    else if leb (2 ^ 64) next
    then err out_of_range
    else rest

digits : Str → Result ℕ
unfolding scan
digits [] = err bad_syntax
digits (c ∷ s) = scan (c ∷ s) 0

positive : Result ℕ → Result ℤ
positive (err e) = err e
positive (ok n) = if leb (2 ^ 63) n then err out_of_range else ok (pos n)

negative : Result ℕ → Result ℤ
negative (err e) = err e
negative (ok n) = if ltb (2 ^ 63) n then err out_of_range else ok (opposite n)

unfoldable pub atoi : Str → Result ℤ
unfolding digits positive negative nat_eq scan
atoi [] = err bad_syntax
atoi (c ∷ s) =
    if c == 45
    then negative (digits s)
    else if c == 43
    then positive (digits s)
    else positive (digits (c ∷ s))

atoi_tests :
    (atoi (bytes "-12") ≡ ok (negsuc 11))
    × (atoi (bytes "+7") ≡ ok (pos 7))
    × (atoi (bytes "53 80") ≡ err bad_syntax)
    × (atoi (bytes "9223372036854775808") ≡ err out_of_range)
unfolding atoi
atoi_tests = (refl, refl, refl, refl)

itoa_tests : (itoa (pos 8080) ≡ bytes "8080") × (itoa (negsuc 9) ≡ bytes "-10")
unfolding itoa nat_eq
itoa_tests = (refl, refl)
