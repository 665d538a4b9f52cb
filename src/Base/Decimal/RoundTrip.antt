-- ===== src/Base/Decimal/RoundTrip.antt =====
-- `strconv.Atoi` reads back what `strconv.Itoa` writes.
use Prim.Native.Nat.{ℕ, zero, suc, ◌+◌, ◌-◌, ◌*◌, ◌/◌, ◌%◌, ◌^◌, ◌≤◌, ◌<◌}
use mathlib.Core.Path.{◌≡◌, refl, ◌∙◌}
use mathlib.Core.Logic.{◌≢◌, inl}
use mathlib.Core.Bool.{false}
use mathlib.Core.List.{[], ◌∷◌, ◌++◌}
use native.Mathlib.Omega.{arith}
use eapol_operator.Base.Tests.{nat_eq}
use eapol_operator.Base.Errors.{Result, ok, err}
use eapol_operator.Base.Lists.{All}
use eapol_operator.Base.Text.{Str, Lacks, is_space}
use eapol_operator.Base.Text.Trim.{IsSolid, HasSolid}
use eapol_operator.Base.Decimal.{
  ℤ, pos, negsuc, InRange, emit, decimal, itoa, scan, digits, positive, negative, atoi,
}

scan_step : (n : ℕ) (out : Str) → n < 2 ^ 64 → scan ((48 + n % 10) ∷ out) (n / 10) ≡ scan out n
unfolding scan
scan_step n out h =
    let e : n / 10 * 10 + (48 + n % 10 - 48) ≡ n = omega arith in rw e (ground arith)

scan-emit : (fuel n : ℕ) (out : Str) → n ≤ fuel → n < 2 ^ 64 → scan (emit fuel n out) 0 ≡ scan out n
unfolding emit
scan-emit zero n out h lt = let e : n ≡ 0 = omega arith in rw e
scan-emit (suc fuel) n out h lt =
    ground (arith, scan-emit fuel (n / 10) ((48 + n % 10) ∷ out), scan_step n out)

abbrev IsDigit : ℕ → Type 0
IsDigit c = (48 ≤ c) × (c ≤ 57)

-- A text with a digit in it, and nothing else.
abbrev IsDecimal : Str → Type 0
IsDecimal [] = ⊥
IsDecimal (c ∷ s) = IsDigit c × All IsDigit s

emit-All : (fuel n : ℕ) (out : Str) → All IsDigit out → All IsDigit (emit fuel n out)
unfolding emit
emit-All zero n out h = h
emit-All (suc fuel) n out h =
    ground (arith, emit-All fuel (n / 10) ((48 + n % 10) ∷ out) ((omega arith, omega arith), h))

emit-IsDecimal : (fuel n : ℕ) (out : Str) → IsDecimal out → IsDecimal (emit fuel n out)
unfolding emit
emit-IsDecimal zero n out h = h
emit-IsDecimal (suc fuel) n [] h = absurd h
emit-IsDecimal (suc fuel) n (c ∷ s) h =
    ground
      (arith, emit-IsDecimal fuel (n / 10) ((48 + n % 10) ∷ c ∷ s) ((omega arith, omega arith), h))

decimal_pos : (n : ℕ) → 0 < n → decimal n ≡ emit n n []
unfolding decimal
decimal_pos n h = ground arith

emit-suc : (n : ℕ) → emit (suc n) (suc n) [] ≡ emit n (suc n / 10) ((48 + suc n % 10) ∷ [])
unfolding emit
emit-suc n = ground arith

decimal-IsDecimal : (n : ℕ) → IsDecimal (decimal n)
decimal-IsDecimal zero = unfold decimal in ((omega arith, omega arith), tt)
decimal-IsDecimal (suc n) =
    rw (decimal_pos (suc n) (omega arith), emit-suc n)
      (emit-IsDecimal n (suc n / 10) ((48 + suc n % 10) ∷ []) ((omega arith, omega arith), tt))

digits-eq-scan : (s : Str) → IsDecimal s → digits s ≡ scan s 0
unfolding digits
digits-eq-scan [] h = absurd h
digits-eq-scan (c ∷ s) h = refl

-- The digits of a number read back to it.
digits-decimal : (n : ℕ) → n < 2 ^ 64 → digits (decimal n) ≡ ok n
digits-decimal zero h = unfold decimal scan in digits-eq-scan _ ((omega arith, omega arith), tt)
digits-decimal (suc n) h =
    digits-eq-scan (decimal (suc n)) (decimal-IsDecimal (suc n))
    ∙ rw (decimal_pos (suc n) (omega arith))
        (scan-emit (suc n) (suc n) [] (omega arith) h ∙ unfold scan in refl)

atoi-digits : (s : Str) → IsDecimal s → atoi s ≡ positive (digits s)
unfolding atoi
atoi-digits [] h = absurd h
atoi-digits (c ∷ s) h = ground arith

-- An `int` written by `Itoa` is read back by `Atoi`.
pub atoi-itoa : (z : ℤ) → InRange z → atoi (itoa z) ≡ ok z
unfolding itoa
atoi-itoa (pos n) h =
    atoi-digits (decimal n) (decimal-IsDecimal n)
    ∙ rw (digits-decimal n (omega arith)) (unfold positive in ground arith)
atoi-itoa (negsuc n) h =
    unfold atoi in rw (digits-decimal (suc n) (omega arith)) (unfold negative in ground arith)

-- A separator that is no sign and no digit.
abbrev pub IsSeparator : ℕ → Type 0
IsSeparator c = c < 48

Lacks-of_digits : (c : ℕ) (s : Str) → IsSeparator c → All IsDigit s → Lacks c s
Lacks-of_digits c [] k h = tt
Lacks-of_digits c (x ∷ s) k h = ((λ p. omega arith), Lacks-of_digits c s k h.1)

decimal-Lacks : (c : ℕ) (s : Str) → IsSeparator c → IsDecimal s → Lacks c s
decimal-Lacks c [] k h = absurd h
decimal-Lacks c (x ∷ s) k h = Lacks-of_digits c (x ∷ s) k h

-- Neither a comma nor a blank stands in a written number.
pub itoa-Lacks : (c : ℕ) (z : ℤ) → IsSeparator c → c ≢ 45 → Lacks c (itoa z)
unfolding itoa
itoa-Lacks c (pos n) k h = decimal-Lacks c (decimal n) k (decimal-IsDecimal n)
itoa-Lacks c (negsuc n) k h =
    ((λ p. omega arith), decimal-Lacks c (decimal (suc n)) k (decimal-IsDecimal (suc n)))

Lacks-above_digits : (c : ℕ) (s : Str) → 57 < c → All IsDigit s → Lacks c s
Lacks-above_digits c [] k h = tt
Lacks-above_digits c (x ∷ s) k h = ((λ p. omega arith), Lacks-above_digits c s k h.1)

decimal-Lacks_above : (c : ℕ) (s : Str) → 57 < c → IsDecimal s → Lacks c s
decimal-Lacks_above c [] k h = absurd h
decimal-Lacks_above c (x ∷ s) k h = Lacks-above_digits c (x ∷ s) k h

-- Nor does a letter or another byte above the digits.
pub itoa-Lacks_above : (c : ℕ) (z : ℤ) → 57 < c → Lacks c (itoa z)
unfolding itoa
itoa-Lacks_above c (pos n) k = decimal-Lacks_above c (decimal n) k (decimal-IsDecimal n)
itoa-Lacks_above c (negsuc n) k =
    ((λ p. omega arith), decimal-Lacks_above c (decimal (suc n)) k (decimal-IsDecimal (suc n)))

digit_solid : (c : ℕ) → 45 ≤ c → c ≤ 57 → is_space c ≡ false
unfolding is_space nat_eq
digit_solid c h k = ground arith

digits-IsSolid : (s : Str) → All IsDigit s → IsSolid s
digits-IsSolid [] h = tt
digits-IsSolid (c ∷ s) h = (digit_solid c (omega arith) (omega arith), digits-IsSolid s h.1)

decimal-IsSolid : (s : Str) → IsDecimal s → IsSolid s
decimal-IsSolid [] h = absurd h
decimal-IsSolid (c ∷ s) h = digits-IsSolid (c ∷ s) h

decimal-HasSolid : (s : Str) → IsDecimal s → HasSolid s
decimal-HasSolid [] h = absurd h
decimal-HasSolid (c ∷ s) h = inl (digit_solid c (omega arith) (omega arith))

-- A written number has no white space, and it has a byte.
pub itoa-IsSolid : (z : ℤ) → IsSolid (itoa z)
unfolding itoa
itoa-IsSolid (pos n) = decimal-IsSolid (decimal n) (decimal-IsDecimal n)
itoa-IsSolid (negsuc n) = (
  digit_solid 45 (omega arith) (omega arith),
  decimal-IsSolid (decimal (suc n)) (decimal-IsDecimal (suc n)),
)

pub itoa-HasSolid : (z : ℤ) → HasSolid (itoa z)
unfolding itoa
itoa-HasSolid (pos n) = decimal-HasSolid (decimal n) (decimal-IsDecimal n)
itoa-HasSolid (negsuc n) = inl (digit_solid 45 (omega arith) (omega arith))

scan_blank : (y z : Str) (n m : ℕ) → scan (y ++ 32 ∷ z) n ≢ ok m
unfolding scan
scan_blank [] z n m p = ground arith
scan_blank (c ∷ y) z n m p = ground (arith, scan_blank y z (n * 10 + (c - 48)) m)

digits_blank : (y z : Str) (n : ℕ) → digits (y ++ 32 ∷ z) ≢ ok n
unfolding digits
digits_blank [] z n = scan_blank [] z 0 n
digits_blank (c ∷ y) z n = scan_blank (c ∷ y) z 0 n

positive_ok : (r : Result ℕ) (k : ℤ) → ((n : ℕ) → r ≢ ok n) → positive r ≢ ok k
unfolding positive
positive_ok (ok n) k h = absurd (h n refl)
positive_ok (err e) k h = cc

negative_ok : (r : Result ℕ) (k : ℤ) → ((n : ℕ) → r ≢ ok n) → negative r ≢ ok k
unfolding negative
negative_ok (ok n) k h = absurd (h n refl)
negative_ok (err e) k h = cc

-- A text with a blank in it is no number.
pub atoi_blank : (y z : Str) (k : ℤ) → atoi (y ++ 32 ∷ z) ≢ ok k
unfolding atoi
atoi_blank [] z k = positive_ok _ k (digits_blank [] z)
atoi_blank (c ∷ y) z k = ground (
  arith,
  negative_ok (digits (y ++ 32 ∷ z)) k (digits_blank y z),
  positive_ok (digits (y ++ 32 ∷ z)) k (digits_blank y z),
  positive_ok (digits (c ∷ y ++ 32 ∷ z)) k (digits_blank (c ∷ y) z),
)
