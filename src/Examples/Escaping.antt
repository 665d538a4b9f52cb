-- ===== src/Examples/Escaping.antt =====
-- An escaping that is as Configgen/Template/Escape says.
use eapol_operator.Base.{
  ℕ, [], ◌∷◌, ◌++◌, Str, bytes, ◌≡◌, ◌≢◌, refl, ap, ◌∙◌, arith, if◌then◌else◌, ◌==◌, nat_eq, Lacks,
}
use eapol_operator.Base.Text.Split.{Lacks-append}
use eapol_operator.Configgen.Template.Escape.{IsPlain, IsHtmlEscape}

-- The byte, or what is written for it.
abbrev entity : ℕ → Str
entity c =
    if c == 34
    then bytes "&#34;"
    else if c == 38
    then bytes "&amp;"
    else if c == 39
    then bytes "&#39;"
    else if c == 43
    then bytes "&#43;"
    else if c == 60
    then bytes "&lt;"
    else if c == 62
    then bytes "&gt;"
    else if c == 0
    then 239 ∷ 191 ∷ 189 ∷ []
    else c ∷ []

abbrev pub html_escape : Str → Str
html_escape [] = []
html_escape (c ∷ s) = entity c ++ html_escape s

entity_plain : (c : ℕ) → IsPlain (c ∷ []) → entity c ≡ c ∷ []
entity_plain c h = ground arith

entity_one_line : (c : ℕ) → c ≢ 10 → Lacks 10 (entity c)
entity_one_line c n = ground arith

plain_kept : (s : Str) → IsPlain s → html_escape s ≡ s
plain_kept [] h = refl
plain_kept (c ∷ s) (a, b, d, e, f, g, i) =
    ap (λ x. x ++ html_escape s)
      (entity_plain c ((a.0, tt), (b.0, tt), (d.0, tt), (e.0, tt), (f.0, tt), (g.0, tt), (i.0, tt)))
    ∙ ap (◌∷◌ c) (plain_kept s (a.1, b.1, d.1, e.1, f.1, g.1, i.1))

one_line : (s : Str) → Lacks 10 s → Lacks 10 (html_escape s)
one_line [] h = tt
one_line (c ∷ s) h =
    Lacks-append 10 (entity c) (html_escape s) (entity_one_line c h.0) (one_line s h.1)

pub html_escape-IsHtmlEscape : IsHtmlEscape html_escape
html_escape-IsHtmlEscape = record { plain_kept = plain_kept; one_line = one_line }
