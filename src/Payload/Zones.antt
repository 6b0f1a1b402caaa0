-- ===== src/Payload/Zones.antt =====
-- zone/payload.go: uploads on zones of which only the challenge record under each key and the other
-- records count, and not the order of the challenge records or their duplicates.
use mathlib.Core.Quot
use mathlib.Core.Quot.{Quot, Quot-set}
use cert_manager_webhook_mij.Prelude.{
  ◌≡◌, refl, sym, ◌∙◌, ap, Bool, true, List, [], ◌∷◌, ◌++◌, arith,
}
use cert_manager_webhook_mij.Mijnhost.{DnsRecord}
use cert_manager_webhook_mij.Payload.{Key, is_challenge_record, dedupe, compute_payload}
use cert_manager_webhook_mij.Payload.View.{
  find_challenge, foreign, AllChallenges, dedupe-AllChallenges,
}
use cert_manager_webhook_mij.Payload.Laws.{find_challenge-compute_payload}
use cert_manager_webhook_mij.Payload.Foreign.{AllTxt, foreign-compute_payload}

pub record SameZone (api api' : List DnsRecord) : Type 0 where
  pub challenges : (k : Key) → find_challenge k api ≡ find_challenge k api'
  pub others : foreign api ≡ foreign api'

abbrev pub Zone : Type 0
Zone = Quot SameZone

AllChallenges-AllTxt : (rs : List DnsRecord) → AllChallenges rs → AllTxt rs
unfolding is_challenge_record
AllChallenges-AllTxt [] h = tt
AllChallenges-AllTxt (r ∷ rs) (hr, h) = (ground (arith, hr), AllChallenges-AllTxt rs h)

foreign_of_challenges : (rs : List DnsRecord) → AllChallenges rs → foreign rs ≡ []
foreign_of_challenges [] h = refl
foreign_of_challenges (r ∷ rs) (hr, h) = ground (arith, hr, foreign_of_challenges rs h)

append_nil : (rs : List DnsRecord) → rs ++ [] ≡ rs
append_nil [] = refl
append_nil (r ∷ rs) = ap (λ t. r ∷ t) (append_nil rs)

module _ (desired : List DnsRecord) (h : AllChallenges desired) (remove : List Key) where
  -- An upload of challenges leaves the other records alone.
  foreign_kept :
      (api : List DnsRecord) (own_all : Bool)
      → foreign (compute_payload api desired remove own_all).0 ≡ foreign api
  foreign_kept api own_all =
      foreign-compute_payload api desired remove own_all (AllChallenges-AllTxt desired h)
      ∙ (ap (λ t. foreign api ++ t)
            (foreign_of_challenges (dedupe desired) (dedupe-AllChallenges desired h))
          ∙ append_nil (foreign api))

  pub compute_payload-SameZone :
      (own_all : Bool) (api api' : List DnsRecord)
      → SameZone api api'
      → SameZone
          (compute_payload api desired remove own_all).0
          (compute_payload api' desired remove own_all).0
  compute_payload-SameZone own_all api api' same = record {
    challenges = λ k.
        rw
          (
            find_challenge-compute_payload api desired remove own_all h k,
            find_challenge-compute_payload api' desired remove own_all h k,
            same.challenges k,
          )
          refl;
    others = foreign_kept api own_all ∙ (same.others ∙ sym (foreign_kept api' own_all));
  }

  -- A PUT of the payload for a zone.
  abbrev pub upload : Bool → Zone → Zone
  upload own_all =
      Quot.lift Quot-set (λ api. Quot.mk (compute_payload api desired remove own_all).0)
        (λ api api' same. Quot.sound (compute_payload-SameZone own_all api api' same))

  upload_again : (own_all : Bool) (z : Zone) → upload own_all (upload own_all z) ≡ upload own_all z
  upload_again own_all =
      Quot.ind (λ z. Quot-set _ _)
        (λ api. Quot.sound (record {
          challenges = λ k. ground (
            arith,
            find_challenge-compute_payload (compute_payload api desired remove own_all).0 desired
                remove own_all h k,
            find_challenge-compute_payload api desired remove own_all h k,
          );
          others = foreign_kept (compute_payload api desired remove own_all).0 own_all;
        }))

-- An upload has one result on zones that show the same challenge record under each key and the same
-- other records, however these are ordered; to make it again changes nothing; and with `ownAll` it
-- erases what any upload before it made of the challenge records, also one from a stale read. What is
-- desired are challenges.
pub uploads_absorb :
    (desired desired' : List DnsRecord) (h : AllChallenges desired) (h' : AllChallenges desired')
    (remove remove' : List Key) (own_all : Bool) (z : Zone)
    → ((api : List DnsRecord)
        → upload desired h remove own_all (Quot.mk api)
          ≡ Quot.mk (compute_payload api desired remove own_all).0)
      × (upload desired h remove own_all (upload desired h remove own_all z)
          ≡ upload desired h remove own_all z)
      × (upload desired' h' remove' true (upload desired h remove own_all z)
          ≡ upload desired' h' remove' true z)
uploads_absorb desired desired' h h' remove remove' own_all z = (
  (λ api. refl),
  upload_again desired h remove own_all z,
  Quot.ind
      {β = λ z.
        upload desired' h' remove' true (upload desired h remove own_all z)
        ≡ upload desired' h' remove' true z}
      (λ z. Quot-set _ _)
      (λ api. Quot.sound (record {
        challenges = λ k. ground (
          arith,
          find_challenge-compute_payload (compute_payload api desired remove own_all).0 desired'
              remove' true h' k,
          find_challenge-compute_payload api desired' remove' true h' k,
        );
        others =
            foreign_kept desired' h' remove' (compute_payload api desired remove own_all).0 true
            ∙ (foreign_kept desired h remove api own_all
                ∙ sym (foreign_kept desired' h' remove' api true));
      }))
      z,
)
