-- ===== src/K8s/Handover.antt =====
-- The labels that the operator gives to its pods, and the resource that the monitor finds by them.
use eapol_operator.Base.{
  ℕ, [], ◌∷◌, Str, bytes, ok, ◌≡◌, ◌≢◌, refl, arith, map, All, bytes_eq, nat_eq, Bool, true, not,
  ◌&&◌, ◌==◌,
}
use eapol_operator.Base.Dict
use eapol_operator.Base.Text.{is_space}
use eapol_operator.Api.{Authenticator}
use eapol_operator.Configgen.{daemonset, labels_of, app_id, auth_namespace, auth_name}
use eapol_operator.K8s.{returned, get_auth_namespaced_name}
use eapol_operator.K8s.Labels.{label_line, IsLabelByte, get_auth_namespaced_name_lem}

abbrev is_label : Str → Bool
is_label [] = true
is_label (c ∷ s) = (not (is_space c) && (not (c == 61) && not (c == 92))) && is_label s

label_byte : (c : ℕ) → (not (is_space c) && (not (c == 61) && not (c == 92))) ≡ true → IsLabelByte c
label_byte c h = (ground arith, (λ p. ground arith), (λ p. ground arith))

pub is_label-All : (s : Str) → is_label s ≡ true → All IsLabelByte s
is_label-All [] h = tt
is_label-All (c ∷ s) h = (label_byte c (ground arith), is_label-All s (ground arith))

-- The monitor in a pod of a resource finds the namespace and the name of this resource in the
-- file of the labels that the DaemonSet gives to the pod, if both are labels and not empty.
pub labels_handover :
    (a : Authenticator) (service_account : Str)
    → All IsLabelByte a.namespace
    → All IsLabelByte a.name
    → a.namespace ≢ []
    → a.name ≢ []
    → get_auth_namespaced_name (ok (map label_line (daemonset a service_account).pod_labels))
      ≡ returned (ok (record { namespace = a.namespace; name = a.name }))
unfolding daemonset labels_of bytes_eq nat_eq Dict.lookup is_space
labels_handover a service_account h i p q =
    get_auth_namespaced_name_lem (labels_of a) a.namespace a.name
      (
        (is_label-All (bytes "app") refl, is_label-All app_id refl),
        ((is_label-All auth_namespace refl, h), ((is_label-All auth_name refl, i), tt)),
      )
      (refl, (refl, (refl, tt))) refl refl p q
