-- ===== src/Records.antt =====
-- zone/reconciler.go: what the operations do to the records of a zone's state.
pub mod Desired
use cert_manager_webhook_mij.Prelude.{
  ℕ, Bool, true, false, not, ◌&&◌, List, [], ◌∷◌, map, Text, codes, text_eq, ltb, ◌==◌,
  if◌then◌else◌, ℤ,
}
use cert_manager_webhook_mij.Mijnhost.{DnsRecord}
use cert_manager_webhook_mij.Store.{Record, State}

abbrev pub dns_record : Record → DnsRecord
dns_record rec = record { type = codes "TXT"; name = rec.name; value = rec.value; ttl = rec.ttl }

-- `desiredRecords`
unfoldable pub desired_records : State → List DnsRecord
desired_records st = map dns_record st.records

-- `!rec.AddedAt.IsZero() && rec.AddedAt.Before(cutoff)`. A cutoff before the zero time is before
-- every `added_at`, as is 0.
unfoldable pub is_expired : ℕ → Record → Bool
is_expired cutoff rec = not (rec.added_at == 0) && ltb rec.added_at cutoff

-- The loop of `dropExpired`: what is kept, and what is expired.
unfoldable pub split_expired : ℕ → List Record → List Record × List DnsRecord
unfolding is_expired
split_expired cutoff [] = ([], [])
split_expired cutoff (rec ∷ recs) =
    let (kept, expired) = split_expired cutoff recs in
    if is_expired cutoff rec then (kept, dns_record rec ∷ expired) else (rec ∷ kept, expired)

abbrev pub is_record : Text → Text → Record → Bool
is_record name value rec = text_eq rec.name name && text_eq rec.value value

-- The loop of `Present`: the first record of that name and value gets the TTL, if there is one.
unfoldable pub retime : Text → Text → ℤ → List Record → List Record × Bool
retime name value ttl [] = ([], false)
retime name value ttl (rec ∷ recs) =
    let (rest, found) = retime name value ttl recs in
    if is_record name value rec
    then (record rec { ttl = ttl } ∷ recs, true)
    else (rec ∷ rest, found)

-- The loop of `CleanUp`.
unfoldable pub without : Text → Text → List Record → List Record
without name value [] = []
without name value (rec ∷ recs) =
    let rest = without name value recs in if is_record name value rec then rest else rec ∷ rest
