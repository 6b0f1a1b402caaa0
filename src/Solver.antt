-- ===== src/Solver.antt =====
-- config.go and solver.go: from a challenge request to the operation of the reconciler. The JSON
-- decoder is an argument. The context of a request carries a timeout of 50 s, which cancels the calls that
-- are made with it: that is in the answers of the `Outside`.
pub mod Handling
pub mod Startup
pub mod Wiring
pub mod Covering
pub mod Secrets
pub mod Trigger
use cert_manager_webhook_mij.Prelude.{
  ℕ, List, [], ◌∷◌, Text, ℤ, pos, Option, none, some, is_empty, if◌then◌else◌, zero, suc, negsuc,
}
use cert_manager_webhook_mij.Failure.{
  no_config, no_secret_name, no_secret_key_name, Result, ok, err,
}
use cert_manager_webhook_mij.Store.{SecretRef}
use cert_manager_webhook_mij.World.{Outside, Action, raise}
use cert_manager_webhook_mij.Write.{Reconciler}
use cert_manager_webhook_mij.Reconciler.{Request, present, clean_up}

-- `Config`, with its `SecretRef` in two fields.
pub record Config : Type 0 where
  pub ttl : ℤ
  pub secret_name : Text
  pub secret_key : Text

abbrev pub default_ttl : ℤ
default_ttl = pos 300

abbrev pub or_default : ℤ → ℤ
or_default (pos zero) = default_ttl
or_default (pos (suc n)) = pos (suc n)
or_default (negsuc n) = negsuc n

-- `loadConfig` behind the decoder.
unfoldable pub check_config : Result Config → Result Config
check_config (err e) = err e
check_config (ok cfg) =
    if is_empty cfg.secret_name
    then err no_secret_name
    else if is_empty cfg.secret_key
    then err no_secret_key_name
    else ok (record cfg { ttl = or_default cfg.ttl })

-- `loadConfig`
unfoldable pub load_config : (Text → Result Config) → Option Text → Result Config
unfolding check_config
load_config unmarshal none = err no_config
load_config unmarshal (some []) = err no_config
load_config unmarshal (some (c ∷ raw)) = check_config (unmarshal (c ∷ raw))

-- `v1alpha1.ChallengeRequest`, as far as the program reads it.
pub record ChallengeRequest : Type 0 where
  pub uid : Text
  pub dns_name : Text
  pub key : Text
  pub resource_namespace : Text
  pub resolved_fqdn : Text
  pub resolved_zone : Text
  pub config : Option Text

-- The request that `handle` makes of a challenge.
abbrev pub request_of : ChallengeRequest → Config → Request
request_of ch cfg = record {
  zone = ch.resolved_zone;
  name = ch.resolved_fqdn;
  value = ch.key;
  ttl = cfg.ttl;
  challenge_uid = ch.uid;
  dns_name = ch.dns_name;
  api_key_secret_ref = record {
    namespace = ch.resource_namespace;
    name = cfg.secret_name;
    key = cfg.secret_key;
  };
}

-- `handle`
unfoldable pub handle :
    (Text → Result Config) → (Request → Action (Unit {0})) → ChallengeRequest → Action (Unit {0})
unfolding load_config
handle unmarshal op ch = elim (load_config unmarshal ch.config) [
  | ok cfg ↦ op (request_of ch cfg)
  | err e ↦ raise e
]

-- `Present` and `CleanUp` of `mijnHostSolver`
unfoldable pub solver_present :
    Outside → Reconciler → (Text → Result Config) → ChallengeRequest → Action (Unit {0})
unfolding handle
solver_present w r unmarshal ch = handle unmarshal (present w r) ch

unfoldable pub solver_clean_up :
    Outside → Reconciler → (Text → Result Config) → ChallengeRequest → Action (Unit {0})
unfolding handle
solver_clean_up w r unmarshal ch = handle unmarshal (clean_up w r) ch
