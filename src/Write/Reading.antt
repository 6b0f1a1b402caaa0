-- ===== src/Write/Reading.antt =====
-- What a log of calls says at a moment: what was read and saved last, which serials were seen, and
-- who holds a lock. The newest call stands first.
use cert_manager_webhook_mij.Prelude.{
  ℕ, ◌≤◌, length, ◌≡◌, ◌≢◌, Bool, true, false, not, ◌||◌, List, [], ◌∷◌, Text, text_eq, Option,
  none, some, if◌then◌else◌,
}
use cert_manager_webhook_mij.Failure.{ok, err}
use cert_manager_webhook_mij.Mijnhost.{DnsRecord}
use cert_manager_webhook_mij.Payload.{Key, is_empty, changed, compute_payload, placeholder}
use cert_manager_webhook_mij.Payload.View.{foreign}
use cert_manager_webhook_mij.Store.{State}
use cert_manager_webhook_mij.Records.{desired_records}
use cert_manager_webhook_mij.Write.{Reconciler}
use cert_manager_webhook_mij.World.{acquired, released, saved, serial_read, got, put, Log}

-- The records of the last read, unless it failed.
abbrev pub last_read : Log → Option (List DnsRecord)
last_read [] = none
last_read (got _ _ (ok rs) ∷ l) = some rs
last_read (got _ _ (err _) ∷ l) = none
last_read (_ ∷ l) = last_read l

-- The newest call is a read that showed no record but challenges.
abbrev pub bare_read : Log → Bool
bare_read (got _ _ (ok rs) ∷ l) = is_empty (foreign rs)
bare_read _ = false

-- The last read showed a record that is no challenge, or comes right behind another read that
-- showed none either.
abbrev pub confirmed : Log → Bool
confirmed [] = false
confirmed (got _ _ (ok rs) ∷ l) = not (is_empty (foreign rs)) || bare_read l
confirmed (got _ _ (err _) ∷ l) = false
confirmed (_ ∷ l) = confirmed l

-- The answer of the newest call, reads of the zone skipped, if it is a serial.
abbrev pub newest_serial : Log → Option ℕ
newest_serial (serial_read _ (ok s) ∷ l) = some s
newest_serial (got _ _ _ ∷ l) = newest_serial l
newest_serial _ = none

-- The serial just before the last read of the zone, and the last one behind it.
abbrev pub serial_before : Log → Option ℕ
serial_before [] = none
serial_before (got _ _ _ ∷ l) = newest_serial l
serial_before (_ ∷ l) = serial_before l

abbrev pub serial_after : Log → Option ℕ
serial_after [] = none
serial_after (got _ _ _ ∷ l) = none
serial_after (serial_read _ (ok s) ∷ l) = some s
serial_after (serial_read _ (err _) ∷ l) = none
serial_after (_ ∷ l) = serial_after l

-- The state that was saved last, unless that failed.
abbrev pub last_saved : Log → Option State
last_saved [] = none
last_saved (saved h (ok _) ∷ l) = some h.state
last_saved (saved h (err _) ∷ l) = none
last_saved (_ ∷ l) = last_saved l

-- The zone's lock was acquired and has not been released.
abbrev pub holds_lock : Text → Log → Bool
holds_lock z [] = false
holds_lock z (acquired y (ok _) ∷ l) = if text_eq y z then true else holds_lock z l
holds_lock z (released y ∷ l) = if text_eq y z then false else holds_lock z l
holds_lock z (_ ∷ l) = holds_lock z l

-- The serials round the last read do not contradict each other. Where they are required, both
-- are there.
abbrev pub SameSerial : Bool → Option ℕ → Option ℕ → Type 0
SameSerial required (some s) (some t) = s ≡ t
SameSerial required _ _ = required ≡ false

-- When a PUT of these records may be made for the zone.
pub record MayPut (r : Reconciler) (zone : Text) (records : List DnsRecord) (l : Log) : Type 0 where
  pub state : State
  pub current : List DnsRecord
  pub remove : List Key
  pub one_key : length remove ≤ 1
  pub locked : holds_lock zone l ≡ true
  pub saved_first : last_saved l ≡ some state
  pub read_first : last_read l ≡ some current
  pub trusted : confirmed l ≡ true
  pub unmoved : SameSerial r.serial_required (serial_before l) (serial_after l)
  pub needed :
      changed (compute_payload current (desired_records state) remove r.own_acme_records).1 ≡ true
  pub not_empty : records ≢ []
  pub computed :
      (compute_payload current (desired_records state) remove r.own_acme_records).0 ≢ []
      → records ≡ (compute_payload current (desired_records state) remove r.own_acme_records).0
  pub filled :
      (compute_payload current (desired_records state) remove r.own_acme_records).0 ≡ []
      → (date : Text) × (records ≡ placeholder zone date ∷ [])

-- Every PUT of the log was allowed when it was made.
abbrev pub SafePuts : Reconciler → Log → Type 0
SafePuts r [] = Unit
SafePuts r (put _ zone records _ ∷ l) = MayPut r zone records l × SafePuts r l
SafePuts r (_ ∷ l) = SafePuts r l
