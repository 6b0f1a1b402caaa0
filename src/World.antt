-- ===== src/World.antt =====
-- What the reconciler sees of the outside: the calls that it makes, in a log with the newest first,
-- and answers that may depend in any way on all that was called before. Locker, Store, SerialReader
-- and DNSAPI are the interfaces of zone/reconciler.go, zone/lock.go, zone/store.go, zone/serial.go.
pub mod Triples
pub use cert_manager_webhook_mij.Logged.{pure, raise, call, tell, try, defer, continue, ◌>>◌}
unfoldable pub use cert_manager_webhook_mij.Logged.{◌>>=◌}
use cert_manager_webhook_mij.Logged.{Logged}
use cert_manager_webhook_mij.Prelude.{ℕ, List, ◌∷◌, Text}
use cert_manager_webhook_mij.Failure.{Failure, Result, ok, err}
use cert_manager_webhook_mij.Mijnhost.{DnsRecord}
use cert_manager_webhook_mij.Store.{SecretRef, Handle}

pub data Event : Type 0 where
  acquired : (zone : Text) → Result (Unit {0}) → Event
  released : (zone : Text) → Event
  loaded : (zone : Text) → Result Handle → Event
  saved : Handle → Result (Unit {0}) → Event
  listed : Result (List Text) → Event
  key_read : SecretRef → Result Text → Event
  serial_read : (zone : Text) → Result ℕ → Event
  got : (api_key zone : Text) → Result (List DnsRecord) → Event
  put : (api_key zone : Text) → List DnsRecord → Result (Unit {0}) → Event
  clocked : ℕ → Event

abbrev pub Log : Type 0
Log = List Event

-- The answers. `date` is `Format("2006-01-02")` of package time, in UTC.
pub record Outside : Type 0 where
  pub acquire : Log → Text → Result (Unit {0})
  pub load : Log → Text → Result Handle
  pub save : Log → Handle → Result (Unit {0})
  pub list_zones : Log → Result (List Text)
  pub api_key : Log → SecretRef → Result Text
  pub serial : Log → Text → Result ℕ
  pub get_records : Log → Text → Text → Result (List DnsRecord)
  pub put_records : Log → Text → Text → List DnsRecord → Result (Unit {0})
  pub now : Log → ℕ
  pub date : ℕ → Text

-- What a call of the program does: it adds to the log.
abbrev pub Action {ℓ} : Type ℓ → Type ℓ
Action A = Logged Event A
