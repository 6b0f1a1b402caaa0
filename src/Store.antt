-- ===== src/Store.antt =====
-- zone/store.go
pub mod ConfigMaps
pub mod Saving
pub mod Finding
pub mod Landing
pub mod Writers
use cert_manager_webhook_mij.Prelude.{ℕ, ℤ, Bool, List, Text, codes}

-- `managedByLabel`, `managedByValue`, `zoneLabel`, `zoneAnnotation`, `stateKey`
abbrev pub managed_by_label : Text
managed_by_label = codes "app.kubernetes.io/managed-by"

abbrev pub managed_by_value : Text
managed_by_value = codes "mijn-host-webhook"

abbrev pub zone_label : Text
zone_label = codes "mijn-host.vanefferenonline.nl/zone"

abbrev pub zone_annotation : Text
zone_annotation = codes "mijn-host.vanefferenonline.nl/zone-name"

abbrev pub state_key : Text
state_key = codes "state"

-- `SecretRef`
pub record SecretRef : Type 0 where
  pub namespace : Text
  pub name : Text
  pub key : Text

-- `Record`. `added_at` counts nanoseconds from the zero value of `time.Time`.
pub record Record : Type 0 where
  pub name : Text
  pub value : Text
  pub ttl : ℤ
  pub added_at : ℕ
  pub challenge_uid : Text
  pub dns_name : Text

-- `State`
pub record State : Type 0 where
  pub zone : Text
  pub api_key_secret_ref : SecretRef
  pub records : List Record

-- `Handle`
pub record Handle : Type 0 where
  pub state : State
  pub resource_version : Text
  pub exists : Bool
