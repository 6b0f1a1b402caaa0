-- ===== src/Payload/View.antt =====
-- What the payload theorems read off a list of records: the challenge record of a key, and the
-- records that are no challenge.
use cert_manager_webhook_mij.Prelude.{
  ◌≡◌, refl, Bool, true, false, not, ◌&&◌, arith, List, [], ◌∷◌, ◌++◌, Option, none, some, keep,
  if◌then◌else◌,
}
use cert_manager_webhook_mij.Mijnhost.{DnsRecord}
use cert_manager_webhook_mij.Payload.{
  Key, key, key_eq, key_eq_iff, write, is_challenge_record, dedupe_from, dedupe,
}

abbrev pub or_else {ℓ} : {A : Type ℓ} → Option A → Option A → Option A
or_else none o = o
or_else (some a) o = some a

abbrev pub is_some {ℓ} : {A : Type ℓ} → Option A → Bool
is_some none = false
is_some (some a) = true

-- The first challenge record with the key.
abbrev pub find_challenge : Key → List DnsRecord → Option DnsRecord
find_challenge k [] = none
find_challenge k (r ∷ rs) =
    if is_challenge_record r && key_eq (key r) k then some r else find_challenge k rs

abbrev pub has_challenge : Key → List DnsRecord → Bool
has_challenge k rs = is_some (find_challenge k rs)

abbrev pub is_foreign : DnsRecord → Bool
is_foreign r = not (is_challenge_record r)

-- The records that are no challenge, in their order.
abbrev pub foreign : List DnsRecord → List DnsRecord
foreign = keep is_foreign

-- No two challenge records share a key.
abbrev pub UniqueChallenges : List DnsRecord → Type 0
UniqueChallenges [] = Unit
UniqueChallenges (r ∷ rs) =
    (is_challenge_record r ≡ true → find_challenge (key r) rs ≡ none) × UniqueChallenges rs

abbrev pub AllChallenges : List DnsRecord → Type 0
AllChallenges [] = Unit
AllChallenges (r ∷ rs) = (is_challenge_record r ≡ true) × AllChallenges rs

pub find_challenge-append :
    (k : Key) (xs ys : List DnsRecord)
    → find_challenge k (xs ++ ys) ≡ or_else (find_challenge k xs) (find_challenge k ys)
find_challenge-append k [] ys = refl
find_challenge-append k (x ∷ xs) ys = ground (arith, find_challenge-append k xs ys)

pub find_challenge_sound :
    (k : Key) (rs : List DnsRecord) (r : DnsRecord)
    → find_challenge k rs ≡ some r
    → (is_challenge_record r ≡ true) × (key r ≡ k)
find_challenge_sound k [] r h = cc
find_challenge_sound k (x ∷ xs) r h =
    ground (arith, find_challenge_sound k xs r, key_eq_iff (key x) k)

-- What `dedupe` keeps, key by key.
find_challenge-dedupe_from :
    (seen : Key → Bool) (rs : List DnsRecord) (k : Key)
    → AllChallenges rs
    → find_challenge k (dedupe_from seen rs) ≡ (if seen k then none else find_challenge k rs)
unfolding dedupe_from
find_challenge-dedupe_from seen [] k h = ground arith
find_challenge-dedupe_from seen (r ∷ rs) k (hr, h) = ground (
  arith,
  key_eq_iff (key r) k,
  find_challenge-dedupe_from seen rs k h,
  find_challenge-dedupe_from (write seen (key r) true) rs k h,
)

pub find_challenge-dedupe :
    (rs : List DnsRecord) (k : Key)
    → AllChallenges rs
    → find_challenge k (dedupe rs) ≡ find_challenge k rs
unfolding dedupe
find_challenge-dedupe rs k h = find_challenge-dedupe_from (λ _. false) rs k h

dedupe_from-AllChallenges :
    (seen : Key → Bool) (rs : List DnsRecord)
    → AllChallenges rs
    → AllChallenges (dedupe_from seen rs)
unfolding dedupe_from
dedupe_from-AllChallenges seen [] h = tt
dedupe_from-AllChallenges seen (r ∷ rs) (hr, h) = ground (
  arith,
  dedupe_from-AllChallenges seen rs h,
  dedupe_from-AllChallenges (write seen (key r) true) rs h,
)

pub dedupe-AllChallenges : (rs : List DnsRecord) → AllChallenges rs → AllChallenges (dedupe rs)
unfolding dedupe
dedupe-AllChallenges rs h = dedupe_from-AllChallenges (λ _. false) rs h

dedupe_from-UniqueChallenges :
    (seen : Key → Bool) (rs : List DnsRecord)
    → AllChallenges rs
    → UniqueChallenges (dedupe_from seen rs)
unfolding dedupe_from
dedupe_from-UniqueChallenges seen [] h = tt
dedupe_from-UniqueChallenges seen (r ∷ rs) (hr, h) = ground (
  arith,
  key_eq_iff (key r) (key r),
  dedupe_from-UniqueChallenges seen rs h,
  dedupe_from-UniqueChallenges (write seen (key r) true) rs h,
  find_challenge-dedupe_from (write seen (key r) true) rs (key r) h,
)

pub dedupe-UniqueChallenges :
    (rs : List DnsRecord) → AllChallenges rs → UniqueChallenges (dedupe rs)
unfolding dedupe
dedupe-UniqueChallenges rs h = dedupe_from-UniqueChallenges (λ _. false) rs h
