-- ===== src/Payload/Laws.antt =====
-- `ComputePayload`, key by key: which challenge record the payload holds under each key.
use cert_manager_webhook_mij.Prelude.{
  ◌≡◌, refl, Bool, true, false, not, ◌||◌, arith, List, [], ◌∷◌, ◌++◌, Option, none, some,
  if◌then◌else◌, has_prefix, inl, inr, Option-cases,
}
use cert_manager_webhook_mij.Mijnhost.{DnsRecord}
use cert_manager_webhook_mij.Payload.{
  Key, key, key_eq, key_eq_iff, write, is_challenge_record, is_wanted, is_empty, zero_record,
  empty_build, dedupe, fill_wanted, fill_dropping, compute_payload, api_loop,
}
use cert_manager_webhook_mij.Payload.View.{
  or_else, find_challenge, has_challenge, find_challenge-append, find_challenge_sound,
  find_challenge-dedupe, UniqueChallenges, AllChallenges, dedupe-AllChallenges,
  dedupe-UniqueChallenges,
}
use cert_manager_webhook_mij.Payload.Loops.{
  missing, settled, survivors, casualties, LoopResult, api_loop_lem, desired_loop_lem,
}

challenge_has_name : (r : DnsRecord) → is_challenge_record r ≡ true → not (is_empty r.name) ≡ true
unfolding is_challenge_record has_prefix
challenge_has_name r h = ground arith

or_zero : Option DnsRecord → DnsRecord → DnsRecord
or_zero none z = z
or_zero (some r) z = r

-- The map `wanted` holds the desired records, by key.
fill_wanted_lem :
    (ds : List DnsRecord) (m : Key → DnsRecord) (k : Key)
    → AllChallenges ds
    → UniqueChallenges ds
    → fill_wanted m ds k ≡ or_zero (find_challenge k ds) (m k)
unfolding fill_wanted or_zero
fill_wanted_lem [] m k h u = refl
fill_wanted_lem (r ∷ rs) m k (hr, h) (ur, u) =
    ground (arith, fill_wanted_lem rs (write m (key r) r) k h u, key_eq_iff (key r) k, ur hr)

-- The records that `wanted` gives are challenge records under their own key.
pub record IsKeyed (wanted : Key → DnsRecord) : Type 0 where
  pub challenge : (k : Key) → is_wanted wanted k ≡ true → is_challenge_record (wanted k) ≡ true
  pub own_key : (k : Key) → is_wanted wanted k ≡ true → key (wanted k) ≡ k

module _ (wanted : Key → DnsRecord) (dropping : Key → Bool) (own_all : Bool) where
  abbrev pub decided : Option DnsRecord → Option DnsRecord
  decided none = none
  decided (some r) = settled wanted dropping own_all r

  pub find_challenge-survivors :
      IsKeyed wanted
      → (present : Key → Bool) (api : List DnsRecord) (k : Key)
      → find_challenge k (survivors wanted dropping own_all present api)
        ≡ (if present k then none else decided (find_challenge k api))
  unfolding survivors
  find_challenge-survivors keyed present [] k = ground arith
  find_challenge-survivors keyed present (r ∷ rs) k = ground (
    arith,
    key_eq_iff (key r) k,
    key_eq_iff (key (wanted (key r))) k,
    keyed.challenge (key r),
    keyed.own_key (key r),
    find_challenge-survivors keyed present rs k,
    find_challenge-survivors keyed (write present (key r) true) rs k,
  )

pub find_challenge-missing :
    (present : Key → Bool) (ds : List DnsRecord) (k : Key)
    → find_challenge k (missing present ds) ≡ (if present k then none else find_challenge k ds)
find_challenge-missing present [] k = ground arith
find_challenge-missing present (r ∷ rs) k =
    ground (arith, key_eq_iff (key r) k, find_challenge-missing present rs k)

abbrev pub listed : Key → List Key → Bool
listed k [] = false
listed k (j ∷ ks) = key_eq j k || listed k ks

pub fill_dropping_lem :
    (ks : List Key) (m : Key → Bool) (k : Key) → fill_dropping m ks k ≡ (listed k ks || m k)
unfolding fill_dropping
fill_dropping_lem [] m k = refl
fill_dropping_lem (j ∷ ks) m k = ground (arith, fill_dropping_lem ks (write m j true) k)

-- The maps of one call of `ComputePayload`, and what its loops make of them.
module _ (api all_desired : List DnsRecord) (remove : List Key) (own_all : Bool) where
  abbrev pub wanted : Key → DnsRecord
  wanted = fill_wanted (λ _. zero_record) (dedupe all_desired)

  abbrev pub dropping : Key → Bool
  dropping = fill_dropping (λ _. false) remove

  abbrev pub seen : Key → Bool
  seen = (api_loop wanted dropping own_all empty_build api).present

  pub seen_lem : (k : Key) → seen k ≡ has_challenge k api
  seen_lem k = (api_loop_lem wanted dropping own_all api empty_build).present k

  pub record Parts : Type 0 where
    pub payload :
        (compute_payload api all_desired remove own_all).0
        ≡ survivors wanted dropping own_all (λ _. false) api ++ missing seen (dedupe all_desired)
    pub add :
        (compute_payload api all_desired remove own_all).1.add ≡ missing seen (dedupe all_desired)
    pub removed :
        (compute_payload api all_desired remove own_all).1.remove
        ≡ casualties wanted dropping own_all (λ _. false) api

  pub parts : Parts
  unfolding compute_payload
  parts =
      let first : LoopResult wanted dropping own_all empty_build api _ =
        api_loop_lem wanted dropping own_all api empty_build in
      let second =
        desired_loop_lem (dedupe all_desired) (api_loop wanted dropping own_all empty_build api) in
      record {
        payload = cc (second.payload, first.payload);
        add = cc (second.add, first.add);
        removed = cc (second.remove, first.remove);
      }

  module _ (h : AllChallenges all_desired) where
    wanted_lem : (k : Key) → wanted k ≡ or_zero (find_challenge k all_desired) zero_record
    wanted_lem k = ground (
      arith,
      fill_wanted_lem (dedupe all_desired) (λ _. zero_record) k (dedupe-AllChallenges all_desired h)
          (dedupe-UniqueChallenges all_desired h),
      find_challenge-dedupe all_desired k h,
    )

    pub is_wanted_lem : (k : Key) → is_wanted wanted k ≡ has_challenge k all_desired
    unfolding or_zero
    is_wanted_lem k = rw (wanted_lem k) (elim (Option-cases (find_challenge k all_desired)) [
      | inl e ↦ rw e
      | inr (r, e) ↦ rw e (challenge_has_name r (find_challenge_sound k all_desired r e).0)
    ])

    pub keyed : IsKeyed wanted
    unfolding or_zero
    keyed = record {
      challenge = λ k w. elim (Option-cases (find_challenge k all_desired)) [
        | inl e ↦ ground (arith, is_wanted_lem k)
        | inr (r, e) ↦ ground (arith, wanted_lem k, find_challenge_sound k all_desired r e)
      ];
      own_key = λ k w. elim (Option-cases (find_challenge k all_desired)) [
        | inl e ↦ ground (arith, is_wanted_lem k)
        | inr (r, e) ↦ ground (arith, wanted_lem k, find_challenge_sound k all_desired r e)
      ];
    }

  -- Under each key of a challenge the payload holds the desired record, if one is desired. If
  -- none is, it holds what the zone holds, unless the webhook owns all challenge records or the key
  -- is to be removed: then it holds nothing.
  pub find_challenge-compute_payload :
      AllChallenges all_desired
      → (k : Key)
      → find_challenge k (compute_payload api all_desired remove own_all).0
        ≡ or_else
            (find_challenge k all_desired)
            (if own_all || listed k remove then none else find_challenge k api)
  unfolding or_zero
  find_challenge-compute_payload h k =
      let old = find_challenge-survivors wanted dropping own_all (keyed h) (λ _. false) api k in
      let new = find_challenge-missing seen (dedupe all_desired) k in
      rw
        (
          parts.payload,
          find_challenge-append,
          old,
          new,
          seen_lem k,
          find_challenge-dedupe all_desired k h,
        )
        (elim (Option-cases (find_challenge k api)) [
          | inl e ↦ rw e (ground arith)
          | inr (r, e) ↦ rw e (
              ground (
                arith,
                find_challenge_sound k api r e,
                is_wanted_lem h k,
                wanted_lem h k,
                fill_dropping_lem remove (λ _. false) k,
              ))
        ])
