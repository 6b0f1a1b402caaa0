-- ===== src/Failure.antt =====
-- Errors. The texts that wrap an error for its reader are left out: `fmt.Errorf("…: %w", err)` is
-- `err` here, and a sentinel of the program is a constructor.
use cert_manager_webhook_mij.Prelude.{ℕ, ℤ, ◌≡◌, refl, arith}

pub data Failure : Type 0 where
  -- `ErrLockTimeout`
  lock_timeout : Failure
  -- `ErrSerialUnavailable`
  serial_unavailable : Failure
  -- `ErrZoneChanging`
  zone_changing : Failure
  -- "zone has no API key reference stored"
  no_key_reference : Failure
  -- "no NS records"
  no_nameservers : Failure
  -- "secret has no key"
  no_secret_key : Failure
  -- "no solver config provided", "apiKeySecretRef.name is required", "apiKeySecretRef.key is required"
  no_config no_secret_name no_secret_key_name : Failure
  -- The settings: no namespace, a text that is no Boolean, an unknown serial check.
  no_namespace bad_bool unknown_serial_check : Failure
  -- What `encoding/json` refuses.
  bad_json : Failure
  -- `ctx.Err()` of a context that is done.
  context_done : Failure
  -- mijn.host: an answer that is not JSON, with its HTTP status, and the status in an answer.
  non_json : ℕ → Failure
  api_status : ℤ → Failure
  -- The Kubernetes API: NotFound, AlreadyExists, Conflict.
  not_found already_exists conflict : Failure
  -- "error validating recommended options"
  invalid_options : Failure
  -- `errors.Join` of the errors of a sweep.
  sweep_errors : ℕ → Failure
  -- Any other error of code that the program calls.
  outside : ℕ → Failure

pub data Result {ℓ} (A : Type ℓ) : Type ℓ where
  ok : A → Result A
  err : Failure → Result A

infixl 10 ◌>>=◌
abbrev pub ◌>>=◌ {ℓ κ} : {A : Type ℓ} {B : Type κ} → Result A → (A → Result B) → Result B
ok a >>= f = f a
err e >>= f = err e

-- What a chain without an error went through.
pub bind_ok {ℓ κ} :
    {A : Type ℓ} {B : Type κ} (m : Result A) (f : A → Result B) (b : B)
    → (m >>= f) ≡ ok b
    → (a : A) × (m ≡ ok a) × (f a ≡ ok b)
bind_ok (ok a) f b h = (a, refl, h)
bind_ok (err e) f b h = ground (arith, h)

pub ok_injective {ℓ} : {A : Type ℓ} (a b : A) → ok a ≡ ok b → a ≡ b
ok_injective a b h = cc
