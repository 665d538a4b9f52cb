-- ===== src/K8s/Clients.antt =====
-- internal/k8s/k8s.go: the clients of the monitor, as far as they can fail.
use eapol_operator.Base.{Result, ok, err}

-- What client-go and controller-runtime answer, call by call; what they give is not looked into.
pub record ClientGo : Type 0 where
  pub in_cluster_config : Result (Unit {0})
  pub add_to_scheme : Result (Unit {0})
  pub new_client : Result (Unit {0})
  pub new_for_config : Result (Unit {0})

abbrev and_then : Result (Unit {0}) → Result (Unit {0}) → Result (Unit {0})
and_then (ok _) r = r
and_then (err e) r = err e

module _ (c : ClientGo) where
  get_scheme : Result (Unit {0})
  get_scheme = c.add_to_scheme

  -- `GetClient`
  unfoldable pub get_client : Result (Unit {0})
  unfolding get_scheme
  get_client = and_then c.in_cluster_config (and_then get_scheme c.new_client)

  -- `getClient`
  get_clientset : Result (Unit {0})
  get_clientset = and_then c.in_cluster_config c.new_for_config

  unfoldable pub event_recorder : Result (Unit {0})
  unfolding get_clientset get_scheme
  event_recorder = and_then get_clientset get_scheme
