-- ===== src/Solver/Handling.antt =====
-- solver.go: what a challenge request comes to.
use cert_manager_webhook_mij.Prelude.{
  ℕ, zero, suc, [], ◌∷◌, Text, ℤ, pos, negsuc, Option, none, some, ◌≡◌, ◌≢◌, ◌⊎◌, inl, inr, refl,
  arith,
}
use cert_manager_webhook_mij.Failure.{Failure, no_config, Result, ok, err}
use cert_manager_webhook_mij.World.{Action, Log, raise, ◌>>=◌}
use cert_manager_webhook_mij.Reconciler.{Request}
use cert_manager_webhook_mij.Solver.{
  Config, or_default, check_config, load_config, ChallengeRequest, request_of, handle,
}

or_default_kept : (i : ℤ) → i ≢ pos 0 → or_default i ≡ i
or_default_kept (pos zero) h = absurd (h refl)
or_default_kept (pos (suc n)) h = refl
or_default_kept (negsuc n) h = refl

-- What a request is that belongs to a challenge whose configuration was read as `cfg`: its zone, name,
-- value, UID, DNS name and namespace are those of the challenge, its secret is that of the
-- configuration, with a name and a key, and its TTL is that of the configuration, or 300 for none.
pub record IsRequestOf (ch : ChallengeRequest) (cfg : Config) (req : Request) : Type 0 where
  pub own_zone : req.zone ≡ ch.resolved_zone
  pub own_name : req.name ≡ ch.resolved_fqdn
  pub own_value : req.value ≡ ch.key
  pub own_uid : req.challenge_uid ≡ ch.uid
  pub own_dns_name : req.dns_name ≡ ch.dns_name
  pub own_namespace : req.api_key_secret_ref.namespace ≡ ch.resource_namespace
  pub secret_name : req.api_key_secret_ref.name ≡ cfg.secret_name
  pub secret_key : req.api_key_secret_ref.key ≡ cfg.secret_key
  pub some_name : cfg.secret_name ≢ []
  pub some_key : cfg.secret_key ≢ []
  pub default_ttl : cfg.ttl ≡ pos 0 → req.ttl ≡ pos 300
  pub own_ttl : cfg.ttl ≢ pos 0 → req.ttl ≡ cfg.ttl

-- The request of a configuration that was checked.
checked_request :
    (ch : ChallengeRequest) (r : Result Config) (cfg : Config)
    → check_config r ≡ ok cfg
    → (found : Config) × (r ≡ ok found) × IsRequestOf ch found (request_of ch cfg)
unfolding check_config
checked_request ch (err e) cfg h = ground (arith, h)
checked_request ch (ok found) cfg h = (
  found,
  refl,
  record {
    own_zone = refl;
    own_name = refl;
    own_value = refl;
    own_uid = refl;
    own_dns_name = refl;
    own_namespace = refl;
    secret_name = ground (arith, h);
    secret_key = ground (arith, h);
    some_name = λ e. ground (arith, h, e);
    some_key = λ e. ground (arith, h, e);
    default_ttl = λ e. ground (arith, h, e);
    own_ttl = λ e. ground (arith, h, e, or_default_kept found.ttl e);
  },
)

-- The configuration was read, and the operation runs on its request.
abbrev pub Runs :
    (Text → Result Config)
    → (Request → Action (Unit {0}))
    → ChallengeRequest
    → Log
    → Result (Unit {0}) × Log
    → Type 0
Runs unmarshal op ch l out =
    (raw : Text) × (cfg : Config) × (req : Request) × (ch.config ≡ some raw)
    × (raw ≢ [])
    × (unmarshal raw ≡ ok cfg)
    × IsRequestOf ch cfg req
    × (out ≡ op req l)

-- A configuration that cannot be worked with: it is missing or empty, it is not decoded, or its secret
-- has no name or no key.
abbrev pub IsUnusable : Result Config → Type 0
IsUnusable (err e) = Unit
IsUnusable (ok cfg) = (cfg.secret_name ≡ []) ⊎ (cfg.secret_key ≡ [])

abbrev pub IsRefused : (Text → Result Config) → Option Text → Type 0
IsRefused unmarshal none = Unit
IsRefused unmarshal (some raw) = (raw ≡ []) ⊎ IsUnusable (unmarshal raw)

check_config-IsUnusable : (r : Result Config) (e : Failure) → check_config r ≡ err e → IsUnusable r
unfolding check_config
check_config-IsUnusable (err f) e h = tt
check_config-IsUnusable (ok cfg) e h = ground (arith, h)

-- A challenge request fails before any call goes out, and its configuration is missing, empty, not
-- decoded or without a name or a key of the secret; or it runs the operation. The operation then runs
-- on the zone, name, value, UID, DNS name and namespace of the challenge and on the secret of the
-- configuration, which has a name and a key, with the TTL of the configuration, or 300 for none.
pub handle-IsRequestOf :
    (unmarshal : Text → Result Config) (op : Request → Action (Unit {0})) (ch : ChallengeRequest)
    (l : Log)
    → (IsRefused unmarshal ch.config × (e : Failure) × (handle unmarshal op ch l ≡ (err e, l)))
      ⊎ Runs unmarshal op ch l (handle unmarshal op ch l)
unfolding handle ◌>>=◌
handle-IsRequestOf unmarshal op ch l = config_cases ch.config refl
  where
    answer : Result Config → Result (Unit {0}) × Log
    answer r =
        (elim r as (λ x. Action (Unit {0})) [ ok cfg ↦ op (request_of ch cfg) | err e ↦ raise e ]) l

    checked_cases :
        (c : ℕ) (raw : Text) (r : Result Config)
        → ch.config ≡ some (c ∷ raw)
        → check_config (unmarshal (c ∷ raw)) ≡ r
        → (IsRefused unmarshal (some (c ∷ raw)) × (e : Failure) × (answer r ≡ (err e, l)))
          ⊎ Runs unmarshal op ch l (answer r)
    checked_cases c raw (err e) given h =
        inl (inr (check_config-IsUnusable (unmarshal (c ∷ raw)) e h), e, refl)
    checked_cases c raw (ok cfg) given h =
        let (found, decoded, belongs) = checked_request ch (unmarshal (c ∷ raw)) cfg h in
        inr (
          c ∷ raw,
          found,
          request_of ch cfg,
          given,
          (λ e. ground (arith, e)),
          decoded,
          belongs,
          refl,
        )

    config_cases :
        (config : Option Text)
        → ch.config ≡ config
        → (IsRefused unmarshal config
            × (e : Failure) × (answer (load_config unmarshal config) ≡ (err e, l)))
          ⊎ Runs unmarshal op ch l (answer (load_config unmarshal config))
    config_cases none given = unfold load_config in inl (tt, no_config, refl)
    config_cases (some []) given = unfold load_config in inl (inl refl, no_config, refl)
    config_cases (some (c ∷ raw)) given =
        unfold load_config in checked_cases c raw (check_config (unmarshal (c ∷ raw))) given refl
