-- ===== src/Configgen/Template/Reader.antt =====
-- What hostapd reads of a configuration: each line `key=value` that is not a comment.
use eapol_operator.Base.{
  List, [], ◌∷◌, ◌++◌, Str, ◌≡◌, refl, sym, ap, ◌∙◌, All, append_assoc, if◌then◌else◌, ◌==◌, nat_eq,
  Lacks,
}
use eapol_operator.Base.Text.{split}
use eapol_operator.Base.Text.Split.{split-append}
use eapol_operator.Configgen.Template.{lines_text}

-- A line before its first `=`, and behind it.
unfoldable pub cut : Str → Str × Str
unfolding nat_eq
cut [] = ([], [])
cut (x ∷ s) = let (k, v) = cut s in if x == b'=' then ([], s) else (x ∷ k, v)

-- Empty lines and lines that start with `#` are ignored.
unfoldable pub read_line : Str → List (Str × Str)
unfolding cut nat_eq
read_line [] = []
read_line (c ∷ s) = if c == b'#' then [] else cut (c ∷ s) ∷ []

unfoldable pub read_lines : List Str → List (Str × Str)
read_lines [] = []
read_lines (l ∷ ls) = read_line l ++ read_lines ls

pub settings : Str → List (Str × Str)
settings text = read_lines (split 10 text)

pub read-append : (xs ys : List Str) → read_lines (xs ++ ys) ≡ read_lines xs ++ read_lines ys
unfolding read_lines
read-append [] ys = refl
read-append (x ∷ xs) ys =
    ap (λ r. read_line x ++ r) (read-append xs ys)
    ∙ sym (append_assoc (read_line x) (read_lines xs) (read_lines ys))

split-lines_text : (ls : List Str) → All (Lacks 10) ls → split 10 (lines_text ls) ≡ ls ++ [] ∷ []
unfolding lines_text
split-lines_text [] h = unfold split in refl
split-lines_text (l ∷ ls) h =
    split-append 10 l (lines_text ls) h.0 ∙ ap (◌∷◌ l) (split-lines_text ls h.1)

pub append-empty_line : (rs : List (Str × Str)) → rs ++ [] ≡ rs
append-empty_line [] = refl
append-empty_line (r ∷ rs) = ap (◌∷◌ r) (append-empty_line rs)

pub settings-lines_text :
    (ls : List Str) → All (Lacks 10) ls → settings (lines_text ls) ≡ read_lines ls
unfolding settings
settings-lines_text ls h =
    rw (split-lines_text ls h)
      (read-append ls ([] ∷ []) ∙ unfold read_lines read_line in append-empty_line (read_lines ls))

pub empty_read : (ls : List Str) → read_lines ([] ∷ ls) ≡ read_lines ls
unfolding read_lines read_line
empty_read ls = refl

pub no_read : read_lines [] ≡ []
unfolding read_lines
no_read = refl
