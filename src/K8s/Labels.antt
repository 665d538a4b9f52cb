-- ===== src/K8s/Labels.antt =====
-- The labels of a pod as the kubelet writes them, and what the monitor finds in them.
use eapol_operator.Base.{
  ℕ, [], ◌∷◌, ◌++◌, Str, Bool, true, false, Option, none, some, ok, ◌≡◌, ◌≢◌, refl, sym, ap, ◌∙◌,
  arith, if◌then◌else◌, ◌==◌, bytes_eq, nat_eq, ==_eq, ==_ne, ==_refl, map, All, All-append, Lacks,
}
use eapol_operator.Base.Dict
use eapol_operator.Base.Dict.{Dict}
use eapol_operator.Base.Text.{split, trim_space, is_space, remove, remove_pair}
use eapol_operator.Base.Text.Split.{split-append, split-Lacks_word}
use eapol_operator.Base.Text.Trim.{IsSolid, trim_space-IsSolid}
use eapol_operator.Configgen.{auth_namespace, auth_name}
use eapol_operator.K8s.{
  returned, init, inner, clean, set_label, with_value, on_parts, on_labels, on_lines, and_then,
  named, get_auth_namespaced_name,
}

-- `key="value"`
abbrev pub label_line : Str × Str → Str
label_line (k, v) = k ++ (61 ∷ 34 ∷ (v ++ 34 ∷ []))

-- A byte that may stand in a label: no white space, no `=` and no backslash.
abbrev pub IsLabelByte : ℕ → Type 0
IsLabelByte c = (is_space c ≡ false) × (c ≢ 61) × (c ≢ 92)

abbrev pub IsLabel : Str × Str → Type 0
IsLabel (k, v) = All IsLabelByte k × All IsLabelByte v

not_space : (c d : ℕ) → is_space c ≡ true → is_space d ≡ false → d ≢ c
not_space c d p q r = cc

space-Lacks : (c : ℕ) (s : Str) → is_space c ≡ true → IsSolid s → Lacks c s
space-Lacks c [] p h = tt
space-Lacks c (x ∷ s) p h = (not_space c x p h.0, space-Lacks c s p h.1)

label-IsSolid : (s : Str) → All IsLabelByte s → IsSolid s
label-IsSolid [] h = tt
label-IsSolid (c ∷ s) h = (h.0.0, label-IsSolid s h.1)

label-Lacks : (s : Str) → All IsLabelByte s → Lacks 61 s × Lacks 92 s
label-Lacks [] h = (tt, tt)
label-Lacks (c ∷ s) h = ((h.0.1, (label-Lacks s h.1).0), (h.0.2, (label-Lacks s h.1).1))

remove-Lacks : (c : ℕ) (s : Str) → Lacks c s → remove c s ≡ s
unfolding remove
remove-Lacks c [] h = refl
remove-Lacks c (x ∷ s) h = ground (arith, remove-Lacks c s h.1)

remove_pair-Lacks : (a b : ℕ) (s : Str) → Lacks a s → remove_pair a b s ≡ s
unfolding remove_pair
remove_pair-Lacks a b [] h = refl
remove_pair-Lacks a b (x ∷ []) h = refl
remove_pair-Lacks a b (x ∷ y ∷ s) h = ground (arith, remove_pair-Lacks a b (y ∷ s) h.1)

init-append : (c d : ℕ) (s : Str) → init c (s ++ d ∷ []) ≡ c ∷ s
unfolding init
init-append c d [] = refl
init-append c d (x ∷ s) = ap (◌∷◌ c) (init-append x d s)

inner_quoted : (v : Str) → inner (34 ∷ v ++ 34 ∷ []) ≡ some v
unfolding inner init
inner_quoted [] = refl
inner_quoted (c ∷ v) = ap some (init-append c 34 v)

quote-IsLabelByte : IsLabelByte 34
quote-IsLabelByte = unfold is_space in (ground arith, (λ p. omega arith), (λ p. omega arith))

quoted : (v : Str) → All IsLabelByte v → All IsLabelByte (34 ∷ v ++ 34 ∷ [])
quoted v h = (quote-IsLabelByte, All-append IsLabelByte v (34 ∷ []) h (quote-IsLabelByte, tt))

clean-IsLabel : (s : Str) → All IsLabelByte s → clean s ≡ s
unfolding clean
clean-IsLabel s h =
    rw (remove_pair-Lacks 92 110 s (label-Lacks s h).1, remove-Lacks 92 s (label-Lacks s h).1)
      (remove-Lacks 32 s (space-Lacks 32 s (unfold is_space in refl) (label-IsSolid s h)))

split_label :
    (k v : Str) → All IsLabelByte k → All IsLabelByte v → split 61 (k ++ 61 ∷ v) ≡ k ∷ v ∷ []
split_label k v h i =
    split-append 61 k v (label-Lacks k h).0 ∙ ap (◌∷◌ k) (split-Lacks_word 61 v (label-Lacks v i).0)

line-IsSolid : (k v : Str) → All IsLabelByte k → All IsLabelByte v → IsSolid (k ++ 61 ∷ v)
line-IsSolid k v h i =
    All-append (λ c. is_space c ≡ false) k (61 ∷ v) (label-IsSolid k h)
      (unfold is_space in ground arith, label-IsSolid v i)

line_read :
    (k v : Str) (found : Str × Str)
    → All IsLabelByte k
    → All IsLabelByte v
    → on_labels (split 10 (trim_space (label_line (k, v)))) found ≡ some (set_label k v found)
unfolding on_labels on_parts with_value
line_read k v found h i =
    rw
      (
        trim_space-IsSolid (label_line (k, v)) (line-IsSolid k (34 ∷ v ++ 34 ∷ []) h (quoted v i)),
        split-Lacks_word 10 (label_line (k, v)) (
            space-Lacks 10 (label_line (k, v)) (unfold is_space in refl)
              (line-IsSolid k (34 ∷ v ++ 34 ∷ []) h (quoted v i))),
        split_label k (34 ∷ v ++ 34 ∷ []) h (quoted v i),
        clean-IsLabel _ (quoted v i),
        inner_quoted v,
      )
      refl

abbrev get_or : Str → Option Str → Str
get_or d none = d
get_or d (some v) = v

names_differ : auth_namespace ≢ auth_name
names_differ p = cc

same_key : (k a : Str) → a ≡ k → (k == a) ≡ true
same_key k a p = rw p (==_refl k)

true-ne-false : true ≢ false
true-ne-false p = cc

same_found :
    (k v d : Str) (labels : Dict Str Str)
    → Dict.lookup k labels ≡ none
    → get_or v (Dict.lookup k labels) ≡ get_or d (Dict.lookup k ((k, v) ∷ labels))
unfolding Dict.lookup
same_found k v d labels p = rw (p, ==_refl k) refl

value_found :
    (a k v d : Str) (labels : Dict Str Str) (b : Bool)
    → (k == a) ≡ b
    → Dict.lookup k labels ≡ none
    → get_or (if b then v else d) (Dict.lookup a labels)
      ≡ get_or d (Dict.lookup a ((k, v) ∷ labels))
unfolding Dict.lookup
value_found a k v d labels true q p =
    ap (λ x. get_or v (Dict.lookup x labels)) (sym (==_eq q))
    ∙ same_found k v d labels p
    ∙ ap (λ x. get_or d (Dict.lookup x ((k, v) ∷ labels))) (==_eq q)
value_found a k v d labels false q p =
    rw (==_ne (λ e. true-ne-false (sym (same_key k a e) ∙ q))) refl

abbrev pick : Bool → Str × Str → Str × Str → Str × Str
pick b x y = if b then x else y

first_set :
    (b c : Bool) (v ns name : Str)
    → (pick b (v, name) (pick c (ns, v) (ns, name))).0 ≡ (if b then v else ns)
first_set true c v ns name = refl
first_set false true v ns name = refl
first_set false false v ns name = refl

second_set :
    (b c : Bool) (v ns name : Str)
    → (b ≡ true → c ≢ true)
    → (pick b (v, name) (pick c (ns, v) (ns, name))).1 ≡ (if c then v else name)
second_set true true v ns name h = absurd (h refl refl)
second_set true false v ns name h = refl
second_set false true v ns name h = refl
second_set false false v ns name h = refl

not_both : (k : Str) → (k == auth_namespace) ≡ true → (k == auth_name) ≢ true
not_both k p q = names_differ (sym (==_eq p) ∙ ==_eq q)

ns_set :
    (k v ns name : Str) → (set_label k v (ns, name)).0 ≡ (if k == auth_namespace then v else ns)
unfolding set_label
ns_set k v ns name = first_set (k == auth_namespace) (k == auth_name) v ns name

name_set : (k v ns name : Str) → (set_label k v (ns, name)).1 ≡ (if k == auth_name then v else name)
unfolding set_label
name_set k v ns name = second_set (k == auth_namespace) (k == auth_name) v ns name (not_both k)

ns_found :
    (k v : Str) (labels : Dict Str Str) (ns name : Str)
    → Dict.lookup k labels ≡ none
    → get_or (set_label k v (ns, name)).0 (Dict.lookup auth_namespace labels)
      ≡ get_or ns (Dict.lookup auth_namespace ((k, v) ∷ labels))
ns_found k v labels ns name p =
    rw (ns_set k v ns name) (value_found auth_namespace k v ns labels _ refl p)

name_found :
    (k v : Str) (labels : Dict Str Str) (ns name : Str)
    → Dict.lookup k labels ≡ none
    → get_or (set_label k v (ns, name)).1 (Dict.lookup auth_name labels)
      ≡ get_or name (Dict.lookup auth_name ((k, v) ∷ labels))
name_found k v labels ns name p =
    rw (name_set k v ns name) (value_found auth_name k v name labels _ refl p)

lines_read :
    (labels : Dict Str Str) (ns name : Str)
    → All IsLabel labels
    → Dict.NodupKeys labels
    → on_lines (map label_line labels) (ns, name)
      ≡ some (
        get_or ns (Dict.lookup auth_namespace labels),
        get_or name (Dict.lookup auth_name labels),
      )
unfolding on_lines and_then
lines_read [] ns name h d = unfold Dict.lookup in refl
lines_read ((k, v) ∷ labels) ns name h d =
    ap (λ r. and_then r (on_lines (map label_line labels))) (line_read k v (ns, name) h.0.0 h.0.1)
    ∙ lines_read labels (set_label k v (ns, name)).0 (set_label k v (ns, name)).1 h.1 d.1
    ∙ rw (ns_found k v labels ns name d.0, name_found k v labels ns name d.0) refl

-- In the file that the kubelet writes, one line for each label and with distinct keys, the monitor
-- finds the namespace and the name of its resource, wherever the two lines stand and whatever
-- other labels the pod has, if no key and no value has white space, `=` or a backslash.
pub get_auth_namespaced_name_lem :
    (labels : Dict Str Str) (ns name : Str)
    → All IsLabel labels
    → Dict.NodupKeys labels
    → Dict.lookup auth_namespace labels ≡ some ns
    → Dict.lookup auth_name labels ≡ some name
    → ns ≢ []
    → name ≢ []
    → get_auth_namespaced_name (ok (map label_line labels))
      ≡ returned (ok (record { namespace = ns; name = name }))
unfolding get_auth_namespaced_name named
get_auth_namespaced_name_lem labels ns name h d p q i j =
    rw (lines_read labels [] [] h d, p, q) (ground arith)
