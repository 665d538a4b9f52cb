-- ===== src/Controllers/Reconcile/Pods.antt =====
-- The objects that a first reconciliation makes, and the pods that run on them.
use eapol_operator.Base.{
  List, [], ◌∷◌, Str, bytes, true, some, ◌≡◌, refl, sym, ap, ◌∙◌, In, inl, inr, bytes_eq,
}
use eapol_operator.Base.Dict
use eapol_operator.Base.Dict.{Dict}
use eapol_operator.Api.{Authenticator}
use eapol_operator.Configgen.{
  DaemonSet, projected, VolumeProjection, from_config_map, config_file, daemonset,
  projected_config_volumes,
}
use eapol_operator.Configgen.Volumes.{found_at, projected_files}
use eapol_operator.Configgen.Template.{hostapd_conf}
use eapol_operator.Configgen.Template.Reader.{settings}
use eapol_operator.Configgen.Template.Escape.{IsHtmlEscape}
use eapol_operator.Configgen.Template.OneLine.{IsOneLine}
use eapol_operator.Configgen.Template.Settings.{settings_for, settings_lem}
use eapol_operator.Controllers.{
  Meta, Subject, Object, config_map, service_account, daemon_set, Kind, Kube, World,
}
use eapol_operator.Controllers.Documented.{IsReferring}
use eapol_operator.Controllers.Reconcile.{reconcile, fresh_meta}
use eapol_operator.Controllers.Reconcile.Fresh.{unwritten, creations, IsFresh, reconcile_fresh}

-- Among the objects are a DaemonSet, a ConfigMap and a ServiceAccount of one namespace that belong
-- together: the pods run as this ServiceAccount, and find at the place of hostapd's configuration
-- the text of this ConfigMap alone, of which hostapd reads the settings of the resource.
abbrev pub FitTogether : (Str → Str) → Authenticator → List Object → Type 0
FitTogether escape a objects =
    (dm : Meta) × (cm : Meta) × (sa : Meta) × (ds : DaemonSet) × (data_of : Dict Str Str)
    × (volumes : List VolumeProjection) × (text : Str) × In (daemon_set dm ds) objects
    × In (config_map cm data_of) objects
    × In (service_account sa) objects
    × (cm.namespace ≡ dm.namespace)
    × (sa.namespace ≡ dm.namespace)
    × (ds.service_account ≡ sa.name)
    × In (projected (bytes "config-volume") volumes) ds.volumes
    × (found_at config_file volumes ≡ from_config_map cm.name config_file config_file ∷ [])
    × (Dict.lookup config_file data_of ≡ some text)
    × (settings text ≡ settings_for escape a.spec)

module _ (kube : Kube) (referring : IsReferring kube) (ns name : Str) (escape : Str → Str)
    (html : IsHtmlEscape escape) where
  -- The resource is new in its namespace, html/template escapes as documented and makes of the template what it is written out
  -- to be, and nothing that the resource gives has a line break: then `Reconcile` has the server
  -- create a DaemonSet, a ConfigMap and a ServiceAccount that belong together.
  pub reconcile-FitTogether :
      (a : Authenticator) (w : World) (f : IsFresh kube ns name a) (s : Subject)
      (rest : List Subject)
      → w.memory.subjects ≡ s ∷ rest
      → ((k : Kind) → unwritten k ns w.calls ≡ true)
      → a.namespace ≡ ns
      → f.text ≡ hostapd_conf escape a.spec
      → IsOneLine a.spec
      → FitTogether escape a (creations (reconcile kube ns name w).1.calls)
  unfolding daemonset Dict.lookup bytes_eq
  reconcile-FitTogether a w f s rest q u here rendered one =
      let (_, _, made) = reconcile_fresh kube ns name a w f s rest q u in
      let made_of = kube.set_controller_reference a in
      rw made (
        made_of (fresh_meta a.namespace a.name),
        made_of (fresh_meta a.namespace a.name),
        made_of (record w.memory.service_account { namespace = ns; resource_version = [] }),
        daemonset a w.memory.service_account.name,
        (config_file, f.text) ∷ [],
        projected_config_volumes a,
        f.text,
        inl refl,
        inr (inr (inr (inr (inl refl)))),
        inr (inr (inr (inl refl))),
        refl,
        referring.namespace_kept a _ ∙ sym here ∙ sym (referring.namespace_kept a _),
        sym (referring.name_kept a _),
        inl refl,
        (projected_files a).0
            ∙ ap (λ n. from_config_map n config_file config_file ∷ [])
                (sym (referring.name_kept a _)),
        refl,
        ap settings rendered ∙ settings_lem escape html a.spec one,
      )
