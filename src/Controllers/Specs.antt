-- ===== src/Controllers/Specs.antt =====
-- The part of a DaemonSet that an update takes over.
use eapol_operator.Configgen.{DaemonSet}

-- `ds.Spec = newDs.Spec`
unfoldable pub with_spec : DaemonSet → DaemonSet → DaemonSet
with_spec old new = record new { name = old.name; namespace = old.namespace; labels = old.labels }
