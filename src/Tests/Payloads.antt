-- ===== src/Tests/Payloads.antt =====
-- Payloads.
use mathlib.Core.Quot
use cert_manager_webhook_mij.Prelude.{
  List, ◌≡◌, refl, ◌≢◌, ◌↔◌, true, false, ◌||◌, [], ◌∷◌, ◌++◌, none, codes, text_eq, has_prefix,
  if◌then◌else◌,
}
use cert_manager_webhook_mij.Payload.{
  Key, key_eq, is_challenge_record, compute_payload, changed, dedupe,
}
use cert_manager_webhook_mij.Payload.View.{
  find_challenge, has_challenge, or_else, foreign, AllChallenges, UniqueChallenges,
}
use cert_manager_webhook_mij.Payload.Laws.{find_challenge-compute_payload, listed}
use cert_manager_webhook_mij.Payload.Foreign.{foreign-compute_payload, foreign_never_settles}
use cert_manager_webhook_mij.Payload.Settled.{
  after, diff, changed-compute_payload, settled_after_put, compute_payload-UniqueChallenges,
}
use cert_manager_webhook_mij.Mijnhost.{DnsRecord}
use cert_manager_webhook_mij.Payload.Zones.{upload, uploads_absorb}
use cert_manager_webhook_mij.Tests.Samples.{address, challenge, delegated, stale, wished, new_key}

leftover_replaced :
    (compute_payload stale wished [] true).0 ≡ address ∷ challenge (codes "new") ∷ []
unfolding compute_payload is_challenge_record key_eq text_eq has_prefix
leftover_replaced = refl

leftover_kept :
    (compute_payload stale wished [] false).0
    ≡ address ∷ challenge (codes "old") ∷ challenge (codes "new") ∷ []
unfolding compute_payload is_challenge_record key_eq text_eq has_prefix
leftover_kept = refl

wished_challenges : AllChallenges wished
unfolding is_challenge_record text_eq has_prefix
wished_challenges = (refl, tt)

find_challenge-compute_payload_example :
    find_challenge new_key (compute_payload stale wished [] true).0
    ≡ or_else
        (find_challenge new_key wished)
        (if true || listed new_key [] then none else find_challenge new_key stale)
find_challenge-compute_payload_example =
    find_challenge-compute_payload stale wished [] true wished_challenges new_key

foreign-compute_payload_example :
    foreign (compute_payload stale (delegated ∷ wished) [] true).0
    ≡ foreign stale ++ foreign (dedupe (delegated ∷ wished))
unfolding text_eq
foreign-compute_payload_example =
    foreign-compute_payload stale (delegated ∷ wished) [] true (refl, (refl, tt))

delegated_is_foreign : foreign (delegated ∷ []) ≢ []
unfolding is_challenge_record text_eq has_prefix
delegated_is_foreign e = cc e

-- Even a zone that already holds the delegated record is written again.
foreign_never_settles_example :
    changed (compute_payload (delegated ∷ []) (delegated ∷ []) [] true).1 ≡ true
unfolding text_eq
foreign_never_settles_example =
    foreign_never_settles (delegated ∷ []) (delegated ∷ []) [] true (refl, tt) delegated_is_foreign

changed-compute_payload_example :
    (changed (diff stale wished [] true) ≡ false)
    ↔ ((k : Key) → has_challenge k (after stale wished [] true) ≡ has_challenge k stale)
changed-compute_payload_example = changed-compute_payload stale wished [] true wished_challenges

settled_after_put_example :
    changed (compute_payload (after stale wished [] true) wished [] true).1 ≡ false
settled_after_put_example = settled_after_put stale wished [] true wished_challenges

compute_payload-UniqueChallenges_example :
    UniqueChallenges (compute_payload (stale ++ stale) wished [] false).0
compute_payload-UniqueChallenges_example =
    compute_payload-UniqueChallenges (stale ++ stale) wished [] false wished_challenges

renewed_challenges : AllChallenges (challenge (codes "renewed") ∷ [])
unfolding is_challenge_record text_eq has_prefix
renewed_challenges = (refl, tt)

-- An upload from a stale zone, and the next one.
uploads_absorb_example :
    ((api : List DnsRecord)
      → upload wished wished_challenges [] false (Quot.mk api)
        ≡ Quot.mk (compute_payload api wished [] false).0)
    × (upload wished wished_challenges [] false
          (upload wished wished_challenges [] false (Quot.mk stale))
        ≡ upload wished wished_challenges [] false (Quot.mk stale))
    × (upload
          (challenge (codes "renewed") ∷ [])
          renewed_challenges
          []
          true
          (upload wished wished_challenges [] false (Quot.mk stale))
        ≡ upload (challenge (codes "renewed") ∷ []) renewed_challenges [] true (Quot.mk stale))
uploads_absorb_example =
    uploads_absorb wished (challenge (codes "renewed") ∷ []) wished_challenges renewed_challenges []
      [] false (Quot.mk stale)
