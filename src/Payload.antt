-- ===== src/Payload.antt =====
-- zone/payload.go: what a PUT must hold, from what mijn.host returned and what is wanted.
pub mod View
pub mod Loops
pub mod Laws
pub mod Foreign
pub mod Settled
pub mod Zones
pub mod Describing
pub use cert_manager_webhook_mij.Prelude.{is_empty}
use cert_manager_webhook_mij.Prelude.{
  ℕ, ◌+◌, ◌≡◌, refl, ◌↔◌, Bool, true, false, not, ◌&&◌, ◌||◌, arith, List, [], ◌∷◌, ◌++◌, Text,
  codes, text_eq, text_eq_iff, has_prefix, if◌then◌else◌, ℤ, pos,
}
use cert_manager_webhook_mij.Mijnhost.{DnsRecord}
use cert_manager_webhook_mij.Names.{absolute_name, placeholder_label}

-- `ChallengePrefix`
abbrev pub challenge_prefix : Text
challenge_prefix = codes "_acme-challenge."

-- `Key`
pub record Key : Type 0 where
  pub name : Text
  pub value : Text

abbrev pub key : DnsRecord → Key
key r = record { name = r.name; value = r.value }

-- Go's `==` on two keys.
unfoldable pub key_eq : Key → Key → Bool
key_eq a b = text_eq a.name b.name && text_eq a.value b.value

pub key_eq_iff : (a b : Key) → (key_eq a b ≡ true) ↔ (a ≡ b)
unfolding key_eq
key_eq_iff a b = ground (arith, text_eq_iff a.name b.name, text_eq_iff a.value b.value)

pub key_eq_refl : (a : Key) → key_eq a a ≡ true
key_eq_refl a = (key_eq_iff a a).1 refl

-- `m[k] = v` on a Go map, which reads as its zero value where nothing was written.
abbrev pub write {ℓ} : {V : Type ℓ} → (Key → V) → Key → V → Key → V
write m k v j = if key_eq k j then v else m j

-- `IsChallengeRecord`
unfoldable pub is_challenge_record : DnsRecord → Bool
is_challenge_record r = text_eq r.type (codes "TXT") && has_prefix r.name challenge_prefix

-- `Diff`
pub record Diff : Type 0 where
  pub add : List DnsRecord
  pub remove : List DnsRecord
  pub kept : ℕ

-- `Diff.Changed`
unfoldable pub changed : Diff → Bool
changed d = not (is_empty d.add) || not (is_empty d.remove)

-- The loop of `dedupe`, with its map `seen`.
unfoldable pub dedupe_from : (Key → Bool) → List DnsRecord → List DnsRecord
dedupe_from seen [] = []
dedupe_from seen (r ∷ rs) =
    let again = dedupe_from seen rs in
    let first = r ∷ dedupe_from (write seen (key r) true) rs in
    if seen (key r) then again else first

-- `dedupe`
unfoldable pub dedupe : List DnsRecord → List DnsRecord
unfolding dedupe_from
dedupe records = dedupe_from (λ _. false) records

-- The zero value of `DNSRecord`, which a map of records gives for a missing key.
abbrev pub zero_record : DnsRecord
zero_record = record { type = []; name = []; value = []; ttl = pos 0 }

-- The loop that fills `wanted`.
unfoldable pub fill_wanted : (Key → DnsRecord) → List DnsRecord → Key → DnsRecord
fill_wanted m [] = m
fill_wanted m (r ∷ rs) = fill_wanted (write m (key r) r) rs

-- The loop that fills `dropping`.
unfoldable pub fill_dropping : (Key → Bool) → List Key → Key → Bool
fill_dropping m [] = m
fill_dropping m (k ∷ ks) = fill_dropping (write m k true) ks

-- The variables that the two loops of `ComputePayload` change.
pub record Build : Type 0 where
  pub payload : List DnsRecord
  pub diff : Diff
  pub present : Key → Bool

abbrev pub is_wanted : (Key → DnsRecord) → Key → Bool
is_wanted wanted k = not (is_empty (wanted k).name)

-- The `switch` over a challenge record that the zone shows for the first time.
unfoldable pub settle : (Key → DnsRecord) → (Key → Bool) → Bool → Build → DnsRecord → Build
settle wanted dropping own_all b r =
    let k = key r in
    if is_wanted wanted k
    then record b {
      payload = b.payload ++ wanted k ∷ [];
      diff = record (b.diff) { kept = b.diff.kept + 1 };
    }
    else if own_all || dropping k
    then record b { diff = record (b.diff) { remove = b.diff.remove ++ r ∷ [] } }
    else record b {
      payload = b.payload ++ r ∷ [];
      diff = record (b.diff) { kept = b.diff.kept + 1 };
    }

-- The body of the loop over `api`.
unfoldable pub visit_api : (Key → DnsRecord) → (Key → Bool) → Bool → Build → DnsRecord → Build
unfolding settle
visit_api wanted dropping own_all b r =
    if not (is_challenge_record r)
    then record b { payload = b.payload ++ r ∷ [] }
    else if b.present (key r)
    then b
    else settle wanted dropping own_all (record b { present = write b.present (key r) true }) r

unfoldable pub api_loop : (Key → DnsRecord) → (Key → Bool) → Bool → Build → List DnsRecord → Build
unfolding visit_api
api_loop wanted dropping own_all b [] = b
api_loop wanted dropping own_all b (r ∷ rs) =
    api_loop wanted dropping own_all (visit_api wanted dropping own_all b r) rs

-- The body of the loop over `desired`.
unfoldable pub visit_desired : Build → DnsRecord → Build
visit_desired b r = if b.present (key r) then b else record b {
  payload = b.payload ++ r ∷ [];
  diff = record (b.diff) { add = b.diff.add ++ r ∷ [] };
}

unfoldable pub desired_loop : Build → List DnsRecord → Build
unfolding visit_desired
desired_loop b [] = b
desired_loop b (r ∷ rs) = desired_loop (visit_desired b r) rs

abbrev pub empty_build : Build
empty_build = record {
  payload = [];
  diff = record { add = []; remove = []; kept = 0 };
  present = λ _. false;
}

-- `ComputePayload`
unfoldable pub compute_payload :
    List DnsRecord → List DnsRecord → List Key → Bool → List DnsRecord × Diff
unfolding dedupe fill_wanted fill_dropping api_loop desired_loop
compute_payload api all_desired remove own_all =
    let desired = dedupe all_desired in
    let wanted = fill_wanted (λ _. zero_record) desired in
    let dropping = fill_dropping (λ _. false) remove in
    let b = desired_loop (api_loop wanted dropping own_all empty_build api) desired in
    (b.payload, b.diff)

-- `PlaceholderTTL`
abbrev pub placeholder_ttl : ℤ
placeholder_ttl = pos 86400

-- `Placeholder`, with the date as `Format` writes it.
unfoldable pub placeholder : Text → Text → DnsRecord
placeholder zone date = record {
  type = codes "TXT";
  name = absolute_name placeholder_label zone;
  value = date;
  ttl = placeholder_ttl;
}
