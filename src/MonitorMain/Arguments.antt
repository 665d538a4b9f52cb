-- ===== src/MonitorMain/Arguments.antt =====
-- The texts that the monitor's arguments are made of, and what it reads from them.
use eapol_operator.Base.{
  List, [], ◌∷◌, ◌++◌, Str, some, Result, ok, err, ◌≡◌, ◌≢◌, refl, ◌∙◌, arith, map, All, Lacks,
}
use eapol_operator.Base.Text.{split, join, trim_space}
use eapol_operator.Base.Text.Split.{split-join, split-Lacks_word}
use eapol_operator.Base.Text.Trim.{IsSolid, HasSolid, trim_space-IsSolid, trim_space_keeps}
use eapol_operator.Base.Decimal.{ℤ, InRange, itoa}
use eapol_operator.Base.Decimal.RoundTrip.{
  atoi-itoa, itoa-Lacks, itoa-IsSolid, itoa-HasSolid, atoi_blank,
}
use eapol_operator.MonitorMain.{parse_strings_args, parse_int_args, parse_ports_from, with_port}

-- A word of a list: it has a first byte, and no comma and no white space.
abbrev pub IsWord : Str → Type 0
IsWord s = (s ≢ []) × Lacks 44 s × IsSolid s

words_lack : (ws : List Str) → All IsWord ws → All (Lacks 44) ws
words_lack [] h = tt
words_lack (w ∷ ws) h = (h.0.1, words_lack ws h.1)

trim_words : (ws : List Str) → All IsWord ws → map trim_space ws ≡ ws
trim_words [] h = refl
trim_words (w ∷ ws) h = rw (trim_space-IsSolid w h.0.2, trim_words ws h.1) refl

split_words :
    (w : Str) (ws : List Str)
    → All IsWord (w ∷ ws)
    → map trim_space (split 44 (join (44 ∷ []) (w ∷ ws))) ≡ w ∷ ws
split_words w ws h = rw (split-join 44 w ws (words_lack (w ∷ ws) h)) (trim_words (w ∷ ws) h)

some_text : (s : Str) → s ≢ [] → parse_strings_args (some s) ≡ map trim_space (split 44 s)
unfolding parse_strings_args
some_text [] h = absurd (h refl)
some_text (c ∷ s) h = refl

join-ne-nil : (w : Str) (ws : List Str) → w ≢ [] → join (44 ∷ []) (w ∷ ws) ≢ []
unfolding join
join-ne-nil [] ws h = absurd (h refl)
join-ne-nil (c ∷ w) [] h = cc
join-ne-nil (c ∷ w) (v ∷ ws) h = cc

-- Words that hold no comma and no white space, joined by commas, are read as they were.
pub parse_strings_args-join :
    (words : List Str) → All IsWord words → parse_strings_args (some (join (44 ∷ []) words)) ≡ words
parse_strings_args-join [] h = unfold join parse_strings_args in refl
parse_strings_args-join (w ∷ ws) h =
    some_text (join (44 ∷ []) (w ∷ ws)) (join-ne-nil w ws h.0.0) ∙ split_words w ws h

ports_read : (ports : List ℤ) → All InRange ports → parse_ports_from (map itoa ports) ≡ ok ports
unfolding parse_ports_from
ports_read [] h = refl
ports_read (p ∷ ps) h = ground (arith, atoi-itoa p h.0, ports_read ps h.1)

pub HasSolid-ne-nil : (s : Str) → HasSolid s → s ≢ []
HasSolid-ne-nil [] h = absurd h
HasSolid-ne-nil (c ∷ s) h = cc

itoa-words : (ports : List ℤ) → All IsWord (map itoa ports)
itoa-words [] = tt
itoa-words (p ∷ ps) = (
  (
    HasSolid-ne-nil (itoa p) (itoa-HasSolid p),
    itoa-Lacks 44 p (omega arith) (λ q. omega arith),
    itoa-IsSolid p,
  ),
  itoa-words ps,
)

-- Ports that are written and joined by commas, as `strings.Join` would, are read back.
pub parse_int_args-join :
    (ports : List ℤ)
    → All InRange ports
    → parse_int_args (some (join (44 ∷ []) (map itoa ports))) ≡ ok ports
unfolding parse_int_args
parse_int_args-join ports h =
    rw (parse_strings_args-join (map itoa ports) (itoa-words ports)) (ports_read ports h)

blank_read :
    (r : Result ℤ) (rest : Result (List ℤ)) (ports : List ℤ)
    → ((k : ℤ) → r ≢ ok k)
    → with_port r rest ≢ ok ports
unfolding with_port
blank_read (ok k) rest ports h = absurd (h k refl)
blank_read (err e) rest ports h = cc

-- One text without a comma that has a blank between two numbers is not read as ports.
pub parse_int_args_blank :
    (u v : Str) (ports : List ℤ)
    → HasSolid u
    → HasSolid v
    → Lacks 44 (u ++ 32 ∷ v)
    → parse_int_args (some (u ++ 32 ∷ v)) ≢ ok ports
unfolding parse_int_args parse_ports_from
parse_int_args_blank [] v ports h k l = absurd h
parse_int_args_blank (c ∷ u) v ports h k l =
    let (y, z, p) = trim_space_keeps (c ∷ u) v h k in
    rw (some_text (c ∷ u ++ 32 ∷ v) cc, split-Lacks_word 44 (c ∷ u ++ 32 ∷ v) l)
      (blank_read _ _ ports (rw p (atoi_blank y z)))
