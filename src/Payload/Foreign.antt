-- ===== src/Payload/Foreign.antt =====
-- What `ComputePayload` does with records that are no challenge.
use mathlib.Core.Path.{ap₂}
use cert_manager_webhook_mij.Prelude.{
  ◌≡◌, refl, ◌≢◌, Bool, true, false, arith, List, [], ◌∷◌, ◌++◌, codes, text_eq, All, keep-append,
  ◌∙◌, sym, ap, has_prefix, Bool-cases, inl, inr,
}
use cert_manager_webhook_mij.Mijnhost.{DnsRecord}
use cert_manager_webhook_mij.Payload.{
  Key, key, key_eq_iff, write, is_challenge_record, is_wanted, zero_record, dedupe_from, dedupe,
  fill_wanted, compute_payload, changed, Diff, challenge_prefix,
}
use cert_manager_webhook_mij.Payload.View.{has_challenge, foreign}
use cert_manager_webhook_mij.Payload.Loops.{missing, survivors}
use cert_manager_webhook_mij.Payload.Laws.{seen, seen_lem, parts}

-- Records of type TXT, as `desiredRecords` makes them.
abbrev pub AllTxt : List DnsRecord → Type 0
AllTxt = All (λ r. text_eq r.type (codes "TXT") ≡ true)

dedupe_from-AllTxt : (s : Key → Bool) (rs : List DnsRecord) → AllTxt rs → AllTxt (dedupe_from s rs)
unfolding dedupe_from
dedupe_from-AllTxt s [] h = tt
dedupe_from-AllTxt s (r ∷ rs) (hr, h) =
    ground (arith, dedupe_from-AllTxt s rs h, dedupe_from-AllTxt (write s (key r) true) rs h)

record IsTxt (m : Key → DnsRecord) : Type 0 where
  txt : (k : Key) → is_wanted m k ≡ true → text_eq (m k).type (codes "TXT") ≡ true
  own_key : (k : Key) → is_wanted m k ≡ true → key (m k) ≡ k

fill_wanted-IsTxt :
    (ds : List DnsRecord) (m : Key → DnsRecord) → AllTxt ds → IsTxt m → IsTxt (fill_wanted m ds)
unfolding fill_wanted
fill_wanted-IsTxt [] m h t = t
fill_wanted-IsTxt (r ∷ rs) m (hr, h) t = fill_wanted-IsTxt rs (write m (key r) r) h (record {
  txt = λ k. ground (arith, t.txt k);
  own_key = λ k. ground (arith, t.own_key k, key_eq_iff (key r) k);
})

-- A wanted record under the key of a challenge is a challenge.
wanted_is_challenge :
    (m : Key → DnsRecord) (r : DnsRecord)
    → IsTxt m
    → is_challenge_record r ≡ true
    → is_wanted m (key r) ≡ true
    → is_challenge_record (m (key r)) ≡ true
unfolding is_challenge_record
wanted_is_challenge m r t h w = ground (arith, t.txt (key r) w, t.own_key (key r) w)

module _ (m : Key → DnsRecord) (drop : Key → Bool) (own_all : Bool) (t : IsTxt m) where
  foreign-survivors :
      (present : Key → Bool) (api : List DnsRecord)
      → foreign (survivors m drop own_all present api) ≡ foreign api
  unfolding survivors
  foreign-survivors present [] = refl
  foreign-survivors present (r ∷ rs) = ground (
    arith,
    wanted_is_challenge m r t,
    foreign-survivors present rs,
    foreign-survivors (write present (key r) true) rs,
  )

-- A TXT record that is no challenge shares its key with no challenge.
foreign_has_no_challenge :
    (r : DnsRecord) (api : List DnsRecord)
    → text_eq r.type (codes "TXT") ≡ true
    → is_challenge_record r ≡ false
    → has_challenge (key r) api ≡ false
foreign_has_no_challenge r [] h n = refl
foreign_has_no_challenge r (a ∷ api) h n =
    ground (arith, foreign_has_no_challenge r api h n, key_eq_iff (key a) (key r), same_kind a)
  where
    same_kind :
        (a : DnsRecord)
        → is_challenge_record a ≡ true
        → key a ≡ key r
        → is_challenge_record r ≡ true
    same_kind a ha e = unfold is_challenge_record in ground arith

foreign-missing :
    (present : Key → Bool) (api ds : List DnsRecord)
    → ((k : Key) → present k ≡ has_challenge k api)
    → AllTxt ds
    → foreign (missing present ds) ≡ foreign ds
foreign-missing present api [] e h = refl
foreign-missing present api (r ∷ rs) e (hr, h) =
    ground (arith, e (key r), foreign_has_no_challenge r api hr, foreign-missing present api rs e h)

dedupe-AllTxt : (rs : List DnsRecord) → AllTxt rs → AllTxt (dedupe rs)
unfolding dedupe
dedupe-AllTxt rs h = dedupe_from-AllTxt (λ _. false) rs h

wanted-IsTxt :
    (desired : List DnsRecord)
    → AllTxt desired
    → IsTxt (fill_wanted (λ _. zero_record) (dedupe desired))
wanted-IsTxt desired h =
    fill_wanted-IsTxt (dedupe desired) (λ _. zero_record) (dedupe-AllTxt desired h)
      (record { txt = λ k w. cc; own_key = λ k w. cc })

-- Records of the zone that are no challenge reach the payload unchanged, in their order and as
-- often as they were read. Behind them comes every wanted record that is itself no challenge,
-- whether or not the zone already has it.
pub foreign-compute_payload :
    (api desired : List DnsRecord) (remove : List Key) (own_all : Bool)
    → AllTxt desired
    → foreign (compute_payload api desired remove own_all).0
      ≡ foreign api ++ foreign (dedupe desired)
foreign-compute_payload api desired remove own_all h =
    rw ((parts api desired remove own_all).payload, keep-append)
      (ap₂ ◌++◌ (foreign-survivors _ _ own_all (wanted-IsTxt desired h) (λ _. false) api) (
        foreign-missing (seen api desired remove own_all) api (dedupe desired)
          (seen_lem api desired remove own_all) (dedupe-AllTxt desired h)))

foreign-dedupe_from-ne-nil :
    (s : Key → Bool) (rs : List DnsRecord)
    → ((k : Key) → s k ≡ true → has_prefix k.name challenge_prefix ≡ true)
    → AllTxt rs
    → foreign rs ≢ []
    → foreign (dedupe_from s rs) ≢ []
unfolding dedupe_from is_challenge_record
foreign-dedupe_from-ne-nil s [] hs h n = n
foreign-dedupe_from-ne-nil s (r ∷ rs) hs (hr, h) n = elim (Bool-cases (s (key r))) [
  | inl old ↦ rw old (foreign-dedupe_from-ne-nil s rs hs h (ground (arith, hs (key r) old)))
  | inr new ↦ elim (Bool-cases (is_challenge_record r)) [
    | inl chal ↦
        rw (new, hr)
          (ground (
            arith,
            chal,
            foreign-dedupe_from-ne-nil (write s (key r) true) rs
                (λ k q. ground (arith, hs k, key_eq_iff (key r) k)) h,
          ))
    | inr other ↦ rw new (ground (arith, other))
  ]
]

foreign-dedupe-ne-nil :
    (rs : List DnsRecord) → AllTxt rs → foreign rs ≢ [] → foreign (dedupe rs) ≢ []
unfolding dedupe
foreign-dedupe-ne-nil rs h n = foreign-dedupe_from-ne-nil (λ _. false) rs (λ k q. cc) h n

changed_of_add : (d : Diff) → d.add ≢ [] → changed d ≡ true
unfolding changed
changed_of_add d n = ground arith

-- A wanted record that is no challenge is uploaded again on every call, whatever the zone holds:
-- `Changed` never becomes false.
pub foreign_never_settles :
    (api desired : List DnsRecord) (remove : List Key) (own_all : Bool)
    → AllTxt desired
    → foreign desired ≢ []
    → changed (compute_payload api desired remove own_all).1 ≡ true
foreign_never_settles api desired remove own_all h n = changed_of_add _ (
    rw ((parts api desired remove own_all).add) (λ e. foreign-dedupe-ne-nil desired h n (
      sym (
        foreign-missing (seen api desired remove own_all) api (dedupe desired)
          (seen_lem api desired remove own_all) (dedupe-AllTxt desired h))
      ∙ ap foreign e)))
