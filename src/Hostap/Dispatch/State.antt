-- ===== src/Hostap/Dispatch/State.antt =====
-- The state of the interface, from the reply to STATUS.
use eapol_operator.Base.{
  List, [], ◌∷◌, ◌++◌, Str, bytes, some, ◌≡◌, refl, ◌≢◌, ◌∙◌, ap, arith, Lacks, All, nat_eq,
  bytes_eq,
}
use eapol_operator.Base.Dict
use eapol_operator.Base.Dict.{Dict}
use eapol_operator.Base.Text.{split, join}
use eapol_operator.Base.Text.Split.{split-append, split-Lacks_word, split-join}
use eapol_operator.Api.{
  IfState, uninitialized, disabled, country_update, acs, ht_scan, dfs, enabled, unknown, unset,
}
use eapol_operator.Hostap.Dispatch.{newline, note_part, collect_statuses, state_named, get_if_state}

-- The names that hostapd gives the states; `unknown` stands for every other name.
abbrev pub hostapd_name : IfState → Str
hostapd_name uninitialized = bytes "UNINITIALIZED"
hostapd_name disabled = bytes "DISABLED"
hostapd_name country_update = bytes "COUNTRY_UPDATE"
hostapd_name acs = bytes "ACS"
hostapd_name ht_scan = bytes "HT_SCAN"
hostapd_name dfs = bytes "DFS"
hostapd_name enabled = bytes "ENABLED"
hostapd_name unknown = bytes "UNKNOWN"
hostapd_name unset = []

-- What the monitor makes of a name: the empty text is none that it knows.
abbrev pub known : IfState → IfState
known unset = unknown
known s = s

named : (s : IfState) → state_named (hostapd_name s) ≡ known s
unfolding state_named
named uninitialized = refl
named disabled = refl
named country_update = refl
named acs = refl
named ht_scan = refl
named dfs = refl
named enabled = refl
named unknown = refl
named unset = refl

abbrev pub state_line : IfState → Str
state_line s = bytes "state" ++ b'=' ∷ hostapd_name s

name-Lacks : (s : IfState) → Lacks b'=' (hostapd_name s)
name-Lacks unset = tt
name-Lacks uninitialized = omega arith
name-Lacks _ = omega arith

split-state_line : (s : IfState) → split b'=' (state_line s) ≡ bytes "state" ∷ hostapd_name s ∷ []
split-state_line s =
    split-append b'=' (bytes "state") (hostapd_name s) (omega arith)
    ∙ ap (λ ws. bytes "state" ∷ ws) (split-Lacks_word b'=' (hostapd_name s) (name-Lacks s))

-- A line that says nothing of the state.
abbrev pub IsOther : Str → Type 0
IsOther line = (w : Str) (ws : List Str) → split b'=' line ≡ w ∷ ws → w ≢ bytes "state"

note_other :
    (parts : List Str) (m : Dict Str Str)
    → ((w : Str) (ws : List Str) → parts ≡ w ∷ ws → w ≢ bytes "state")
    → Dict.lookup (bytes "state") (note_part parts m) ≡ Dict.lookup (bytes "state") m
unfolding note_part
note_other [] m n = refl
note_other (w ∷ []) m n = ground (arith, Dict.lookup-insert (bytes "state") w [] m, n w [] refl)
note_other (w ∷ v ∷ []) m n =
    ground (arith, Dict.lookup-insert (bytes "state") w v m, n w (v ∷ []) refl)
note_other (w ∷ v ∷ _ ∷ _) m n = refl

collect_others :
    (lines : List Str) (m : Dict Str Str)
    → All IsOther lines
    → Dict.lookup (bytes "state") (collect_statuses lines m) ≡ Dict.lookup (bytes "state") m
unfolding collect_statuses
collect_others [] m a = refl
collect_others (line ∷ lines) m a =
    collect_others lines (note_part (split b'=' line) m) a.1 ∙ note_other (split b'=' line) m a.0

collect_state :
    (before after : List Str) (s : IfState) (m : Dict Str Str)
    → All IsOther after
    → Dict.lookup (bytes "state") (collect_statuses (before ++ state_line s ∷ after) m)
      ≡ some (hostapd_name s)
unfolding collect_statuses
collect_state [] after s m a =
    collect_others after (note_part (split b'=' (state_line s)) m) a
    ∙ rw (split-state_line s) (
        unfold note_part in
        ground (arith, Dict.lookup-insert (bytes "state") (bytes "state") (hostapd_name s) m))
collect_state (line ∷ before) after s m a =
    collect_state before after s (note_part (split b'=' line) m) a

-- A reply gives the state that its last line for it names, whatever the lines before say, if no
-- line after it has the key `state`.
pub get_if_state_lem :
    (before after : List Str) (s : IfState)
    → All (Lacks newline) (before ++ state_line s ∷ after)
    → All IsOther after
    → get_if_state (join (newline ∷ []) (before ++ state_line s ∷ after)) ≡ known s
unfolding get_if_state
get_if_state_lem [] after s lines a =
    rw (split-join newline (state_line s) after lines)
      (rw (collect_state [] after s [] a) (named s))
get_if_state_lem (line ∷ before) after s lines a =
    rw (split-join newline line (before ++ state_line s ∷ after) lines)
      (rw (collect_state (line ∷ before) after s [] a) (named s))
