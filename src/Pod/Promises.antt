-- ===== src/Pod/Promises.antt =====
-- zone/reconciler.go: what `Present` and `CleanUp` promise of the stored records of a zone.
use cert_manager_webhook_mij.Prelude.{
  ℕ, Bool, List, Text, text_eq, ◌&&◌, if◌then◌else◌, keep, none, some, ◌≡◌,
}
use cert_manager_webhook_mij.Names.{absolute_name}
use cert_manager_webhook_mij.Store.{Record}
use cert_manager_webhook_mij.Records.Desired.{is_fresh, find_record, renewed}
use cert_manager_webhook_mij.Reconciler.{Request}

-- The record that a request asks for at a time.
abbrev pub asked_at : Request → ℕ → Record
asked_at req now = record {
  name = absolute_name req.name req.zone;
  value = req.value;
  ttl = req.ttl;
  added_at = now;
  challenge_uid = req.challenge_uid;
  dns_name = req.dns_name;
}

abbrev pub is_asked : Request → Text → Text → Bool
is_asked req n v = text_eq (absolute_name req.name req.zone) n && text_eq req.value v

-- What `Present` promises, record by record: what was too old at the time `checked` is forgotten, the
-- record that is asked for is there with its TTL, new ones with the time `asked`, and all others are as
-- they were.
pub record IsPresented (age : ℕ) (req : Request) (checked asked : ℕ) (old new : List Record)
    : Type 0 where
  pub records :
      (n v : Text)
      → find_record n v new ≡ (
          if is_asked req n v
          then some
              (renewed (find_record n v (keep (is_fresh checked age) old)) (asked_at req asked))
          else find_record n v (keep (is_fresh checked age) old))

-- What `CleanUp` promises: the same, with no record of the name and the value.
pub record IsCleaned (age : ℕ) (req : Request) (checked asked : ℕ) (old new : List Record)
    : Type 0 where
  pub records :
      (n v : Text)
      → find_record n v new
        ≡ (if is_asked req n v then none else find_record n v (keep (is_fresh checked age) old))
