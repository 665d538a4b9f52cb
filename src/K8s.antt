-- ===== src/K8s.antt =====
-- internal/k8s/k8s.go: `GetAuthNamespacedName`, which finds the resource of a pod in the file that
-- the kubelet writes the pod's labels to. The lines of the file are those of its `bufio.Scanner`.
pub mod Labels
pub mod Clients
pub mod Handover
use eapol_operator.Base.{
  ℕ, List, [], ◌∷◌, Str, Bool, true, false, ◌||◌, Option, none, some, Result, ok, err, Error,
  no_labels, if◌then◌else◌, ◌==◌, bytes_eq, length, nat_eq,
}
use eapol_operator.Base.Text.{split, trim_space, remove, remove_pair}
use eapol_operator.Configgen.{auth_namespace, auth_name}

pub record NamespacedName : Type 0 where
  pub namespace : Str
  pub name : Str

-- A call returns, or a slice out of range stops the program.
pub data Outcome : Type 0 where
  returned : Result NamespacedName → Outcome
  panicked : Outcome

-- `s` less its last byte.
init : ℕ → Str → Str
init c [] = []
init c (d ∷ s) = c ∷ init d s

-- `parts[1][1 : len(parts[1])-1]`, which panics on less than two bytes.
inner : Str → Option Str
unfolding init
inner [] = none
inner (c ∷ []) = none
inner (c ∷ d ∷ s) = some (init d s)

clean : Str → Str
unfolding remove remove_pair
clean s = remove 32 (remove 92 (remove_pair 92 110 s))

-- The assignments to `authNs` and `authName`.
set_label : Str → Str → Str × Str → Str × Str
set_label key value found =
    if key == auth_namespace
    then (value, found.1)
    else if key == auth_name
    then (found.0, value)
    else found

with_value : Str → Option Str → Str × Str → Option (Str × Str)
unfolding set_label
with_value key none found = none
with_value key (some value) found = some (set_label key value found)

-- One label; `none` is a panic.
on_parts : List Str → Str × Str → Option (Str × Str)
unfolding with_value clean inner
on_parts (key ∷ value ∷ []) found = with_value key (inner (clean value)) found
on_parts parts found = some found

-- Goes on, unless the program has stopped.
and_then : Option (Str × Str) → (Str × Str → Option (Str × Str)) → Option (Str × Str)
and_then none rest = none
and_then (some found) rest = rest found

on_labels : List Str → Str × Str → Option (Str × Str)
unfolding on_parts and_then
on_labels [] found = some found
on_labels (l ∷ rest) found = and_then (on_parts (split 61 l) found) (on_labels rest)

on_lines : List Str → Str × Str → Option (Str × Str)
unfolding on_labels
on_lines [] found = some found
on_lines (text ∷ rest) found =
    and_then (on_labels (split 10 (trim_space text)) found) (on_lines rest)

named : Option (Str × Str) → Outcome
named none = panicked
named (some (namespace, name)) =
    if (namespace == []) || (name == [])
    then returned (err no_labels)
    else returned (ok (record { namespace = namespace; name = name }))

-- From the lines of the file, or the error of `os.Open`.
unfoldable pub get_auth_namespaced_name : Result (List Str) → Outcome
unfolding on_lines named
get_auth_namespaced_name (err e) = returned (err e)
get_auth_namespaced_name (ok lines) = named (on_lines lines ([], []))
