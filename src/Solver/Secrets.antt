-- ===== src/Solver/Secrets.antt =====
-- solver.go: the API key, from a Secret of the cluster.
use cert_manager_webhook_mij.Prelude.{Text, none, some}
use cert_manager_webhook_mij.Failure.{no_secret_key, Result, ok, err}
use cert_manager_webhook_mij.Kubernetes.{Dict, find}
use cert_manager_webhook_mij.Store.{SecretRef}

-- `getAPIKey`, with the data of the Secret that the client gets by namespace and name.
unfoldable pub get_api_key : (Text → Text → Result Dict) → SecretRef → Result Text
unfolding find
get_api_key get ref = elim (get ref.namespace ref.name) [
  | err e ↦ err e
  | ok secret ↦ elim (find ref.key secret) [ none ↦ err no_secret_key | some value ↦ ok value ]
]
