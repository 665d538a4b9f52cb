-- ===== src/Configgen/Template/Escape.antt =====
-- What is relied on of the escaping of html/template: it writes the bytes 0, `"`, `&`, `'`, `+`, `<`
-- and `>` in another way and keeps all else.
use eapol_operator.Base.{List, [], ◌∷◌, Str, ◌≡◌, refl, ap, ◌∙◌, arith, All, Lacks, map}
use eapol_operator.Base.Decimal.{ℤ, itoa}
use eapol_operator.Base.Decimal.RoundTrip.{itoa-Lacks, itoa-Lacks_above}

-- None of these bytes.
abbrev pub IsPlain : Str → Type 0
IsPlain s = Lacks 0 s × Lacks 34 s × Lacks 38 s × Lacks 39 s × Lacks 43 s × Lacks 60 s × Lacks 62 s

pub record IsHtmlEscape (escape : Str → Str) : Type 0 where
  pub plain_kept : (s : Str) → IsPlain s → escape s ≡ s
  -- no line break is added
  pub one_line : (s : Str) → Lacks 10 s → Lacks 10 (escape s)

module _ (escape : Str → Str) (html : IsHtmlEscape escape) where
  pub digits_kept : (z : ℤ) → escape (itoa z) ≡ itoa z
  digits_kept z = html.plain_kept (itoa z) (
    itoa-Lacks 0 z (omega arith) (λ q. omega arith),
    itoa-Lacks 34 z (omega arith) (λ q. omega arith),
    itoa-Lacks 38 z (omega arith) (λ q. omega arith),
    itoa-Lacks 39 z (omega arith) (λ q. omega arith),
    itoa-Lacks 43 z (omega arith) (λ q. omega arith),
    itoa-Lacks_above 60 z (omega arith),
    itoa-Lacks_above 62 z (omega arith),
  )

  pub names_kept : (names : List Str) → All IsPlain names → map escape names ≡ names
  names_kept [] h = refl
  names_kept (n ∷ ns) h =
      ap (λ x. x ∷ map escape ns) (html.plain_kept n h.0) ∙ ap (◌∷◌ n) (names_kept ns h.1)

  pub names_one_line : (names : List Str) → All (Lacks 10) names → All (Lacks 10) (map escape names)
  names_one_line [] h = tt
  names_one_line (n ∷ ns) h = (html.one_line n h.0, names_one_line ns h.1)
