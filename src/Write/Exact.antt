-- ===== src/Write/Exact.antt =====
-- What an allowed PUT puts into the zone.
use cert_manager_webhook_mij.Prelude.{
  length, ◌≤◌, ◌≡◌, Bool, ◌||◌, ◌⊎◌, List, [], ◌∷◌, Text, none, if◌then◌else◌,
}
use cert_manager_webhook_mij.Mijnhost.{DnsRecord}
use cert_manager_webhook_mij.Payload.{Key, compute_payload, placeholder}
use cert_manager_webhook_mij.Payload.View.{find_challenge, foreign, or_else}
use cert_manager_webhook_mij.Payload.Laws.{listed}
use cert_manager_webhook_mij.Store.{State}
use cert_manager_webhook_mij.Records.{desired_records}
use cert_manager_webhook_mij.Write.{Reconciler}

module _ (r : Reconciler) (current : List DnsRecord) (remove : List Key) (st : State) where
  abbrev computed : List DnsRecord
  computed = (compute_payload current (desired_records st) remove r.own_acme_records).0

-- The records that a PUT brings to a zone which was read as `current`, in the state `st`.
pub record IsExact (own_all : Bool) (remove : List Key) (current : List DnsRecord) (st : State)
    (records : List DnsRecord) : Type 0 where
  pub one_key : length remove ≤ 1
  pub challenges :
      (k : Key)
      → find_challenge k records
        ≡ or_else
            (find_challenge k (desired_records st))
            (if own_all || listed k remove then none else find_challenge k current)
  pub others :
      (foreign records ≡ foreign current)
      ⊎ ((foreign current ≡ [])
          × ((zone : Text) × (date : Text) × (records ≡ placeholder zone date ∷ [])))
