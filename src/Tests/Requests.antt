-- ===== src/Tests/Requests.antt =====
-- A challenge request, handled.
use cert_manager_webhook_mij.Prelude.{[], Text, codes, pos, some, ◌≡◌, ◌⊎◌}
use cert_manager_webhook_mij.Failure.{Failure, Result, ok, err}
use cert_manager_webhook_mij.Reconciler.{present}
use cert_manager_webhook_mij.Solver.{Config, ChallengeRequest, handle}
use cert_manager_webhook_mij.Solver.Handling.{IsRefused, Runs, handle-IsRequestOf}
use cert_manager_webhook_mij.Tests.Samples.{calm, reconciler}

abbrev unmarshal : Text → Result Config
unmarshal raw = ok (record { ttl = pos 0; secret_name = raw; secret_key = codes "api-key" })

abbrev challenge_request : ChallengeRequest
challenge_request = record {
  uid = [];
  dns_name = codes "example.com";
  key = codes "proof";
  resource_namespace = codes "certs";
  resolved_fqdn = codes "_acme-challenge.example.com.";
  resolved_zone = codes "example.com.";
  config = some (codes "mijn-host");
}

handle-IsRequestOf_example :
    (IsRefused unmarshal challenge_request.config
      × (e : Failure) × (handle unmarshal (present calm reconciler) challenge_request []
          ≡ (err e, [])))
    ⊎ Runs unmarshal
        (present calm reconciler)
        challenge_request
        []
        (handle unmarshal (present calm reconciler) challenge_request [])
handle-IsRequestOf_example =
    handle-IsRequestOf unmarshal (present calm reconciler) challenge_request []
