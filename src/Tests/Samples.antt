-- ===== src/Tests/Samples.antt =====
-- Data that the tests share: a zone, its records, and an outside that answers.
use cert_manager_webhook_mij.Prelude.{true, false, List, [], ◌∷◌, Text, codes, pos}
use cert_manager_webhook_mij.Failure.{ok}
use cert_manager_webhook_mij.Mijnhost.{DnsRecord}
use cert_manager_webhook_mij.Payload.{Key}
use cert_manager_webhook_mij.Store.{SecretRef, Record, State}
use cert_manager_webhook_mij.World.{Outside}
use cert_manager_webhook_mij.Write.{Reconciler}
use cert_manager_webhook_mij.Reconciler.{Request}

abbrev pub zone : Text
zone = codes "b.nl."

abbrev pub txt : Text → Text → DnsRecord
txt name value = record { type = codes "TXT"; name = name; value = value; ttl = pos 300 }

abbrev pub challenge : Text → DnsRecord
challenge value = txt (codes "_acme-challenge.b.nl.") value

abbrev pub address : DnsRecord
address = record { type = codes "A"; name = codes "b.nl."; value = codes "1.2.3.4"; ttl = pos 300 }

-- A record that is wanted under a name without the challenge prefix.
abbrev pub delegated : DnsRecord
delegated = txt (codes "dns.b.nl.") (codes "x")

abbrev pub stale : List DnsRecord
stale = address ∷ challenge (codes "old") ∷ []

abbrev pub wished : List DnsRecord
wished = challenge (codes "new") ∷ []

abbrev pub new_key : Key
new_key = record { name = codes "_acme-challenge.b.nl."; value = codes "new" }

abbrev pub secret : SecretRef
secret = record { namespace = codes "ns"; name = codes "api"; key = codes "key" }

abbrev pub request : Request
request = record {
  zone = zone;
  name = codes "_acme-challenge.b.nl.";
  value = codes "new";
  ttl = pos 300;
  challenge_uid = [];
  dns_name = codes "b.nl";
  api_key_secret_ref = secret;
}

abbrev pub old_record : Record
old_record = record {
  name = codes "_acme-challenge.a.b.nl.";
  value = codes "v";
  ttl = pos 60;
  added_at = 5;
  challenge_uid = [];
  dns_name = [];
}

abbrev pub state : State
state = record { zone = codes "b.nl"; api_key_secret_ref = secret; records = old_record ∷ [] }

-- Nobody else writes, and all calls succeed.
abbrev pub calm : Outside
calm = record {
  acquire = λ _ _. ok tt;
  load = λ _ _. ok (record { state = state; resource_version = codes "1"; exists = true });
  save = λ _ _. ok tt;
  list_zones = λ _. ok (zone ∷ []);
  api_key = λ _ _. ok (codes "secret");
  serial = λ _ _. ok 7;
  get_records = λ _ _ _. ok stale;
  put_records = λ _ _ _ _. ok tt;
  now = λ _. 10;
  date = λ _. codes "2026-01-01";
}

abbrev pub reconciler : Reconciler
reconciler = record {
  own_acme_records = true;
  max_record_age = 100;
  has_serial = true;
  serial_required = false;
  max_write_attempts = 5;
}
