-- ===== src/Payload/Settled.antt =====
-- When `ComputePayload` asks for a PUT, and that one PUT is enough.
use cert_manager_webhook_mij.Prelude.{
  ◌≡◌, refl, ◌↔◌, Bool, true, false, not, ◌||◌, ◌&&◌, arith, List, [], ◌∷◌, ◌++◌, Option, none,
  some, ap, Option-cases, inl, inr,
}
use cert_manager_webhook_mij.Mijnhost.{DnsRecord}
use cert_manager_webhook_mij.Payload.{
  Key, key, key_eq_iff, write, dedupe, Diff, compute_payload, changed,
}
use cert_manager_webhook_mij.Payload.View.{
  is_some, find_challenge, has_challenge, find_challenge_sound, find_challenge-append,
  find_challenge-dedupe, AllChallenges, UniqueChallenges, dedupe-AllChallenges,
  dedupe-UniqueChallenges,
}
use cert_manager_webhook_mij.Payload.Loops.{missing, settled, survivors, casualties}
use cert_manager_webhook_mij.Payload.Laws.{
  IsKeyed, listed, dropping, seen, seen_lem, parts, keyed, is_wanted_lem, find_challenge-survivors,
  find_challenge-missing, fill_dropping_lem, find_challenge-compute_payload,
}

missing-AllChallenges :
    (present : Key → Bool) (ds : List DnsRecord)
    → AllChallenges ds
    → AllChallenges (missing present ds)
missing-AllChallenges present [] h = tt
missing-AllChallenges present (r ∷ rs) (hr, h) = ground (arith, missing-AllChallenges present rs h)

eq-nil_of_none :
    (rs : List DnsRecord) → AllChallenges rs → ((k : Key) → has_challenge k rs ≡ false) → rs ≡ []
eq-nil_of_none [] h n = refl
eq-nil_of_none (r ∷ rs) (hr, h) n = ground (arith, n (key r), key_eq_iff (key r) (key r))

module _ (m : Key → DnsRecord) (drop : Key → Bool) (own_all : Bool) where
  casualties-AllChallenges :
      (present : Key → Bool) (api : List DnsRecord)
      → AllChallenges (casualties m drop own_all present api)
  unfolding casualties
  casualties-AllChallenges present [] = tt
  casualties-AllChallenges present (r ∷ rs) = ground (
    arith,
    casualties-AllChallenges present rs,
    casualties-AllChallenges (write present (key r) true) rs,
  )

  -- A key of the zone is listed as removed exactly when nothing takes its place.
  abbrev lost : Key → Option DnsRecord → Bool
  lost k none = false
  lost k (some r) = not (is_some (settled m drop own_all r))

  has_challenge-casualties :
      (present : Key → Bool) (api : List DnsRecord) (k : Key)
      → has_challenge k (casualties m drop own_all present api)
        ≡ (not (present k) && lost k (find_challenge k api))
  unfolding casualties
  has_challenge-casualties present [] k = ground arith
  has_challenge-casualties present (r ∷ rs) k = ground (
    arith,
    key_eq_iff (key r) k,
    has_challenge-casualties present rs k,
    has_challenge-casualties (write present (key r) true) rs k,
  )

changed_iff : (d : Diff) → (changed d ≡ false) ↔ ((d.add ≡ []) × (d.remove ≡ []))
unfolding changed
changed_iff d = ground arith

module _ (api desired : List DnsRecord) (remove : List Key) (own_all : Bool) where
  abbrev pub after : List DnsRecord
  after = (compute_payload api desired remove own_all).0

  abbrev pub diff : Diff
  diff = (compute_payload api desired remove own_all).1

  module _ (h : AllChallenges desired) where
    has_challenge-add :
        (k : Key)
        → has_challenge k diff.add ≡ (not (has_challenge k api) && has_challenge k desired)
    has_challenge-add k =
        rw
          (
            (parts api desired remove own_all).add,
            find_challenge-missing (seen api desired remove own_all) (dedupe desired) k,
            seen_lem,
            find_challenge-dedupe desired k h,
          )
          (ground arith)

    has_challenge-remove :
        (k : Key)
        → has_challenge k diff.remove
          ≡ (has_challenge k api && (not (has_challenge k desired) && (own_all || listed k remove)))
    has_challenge-remove k =
        rw ((parts api desired remove own_all).removed, has_challenge-casualties)
          (elim (Option-cases (find_challenge k api)) [
            | inl e ↦ rw e
            | inr (r, e) ↦ rw e (
                ground (
                  arith,
                  find_challenge_sound k api r e,
                  is_wanted_lem api desired remove own_all h k,
                  fill_dropping_lem remove (λ _. false) k,
                ))
          ])

    has_challenge-after :
        (k : Key)
        → has_challenge k after
          ≡ (has_challenge k desired || (has_challenge k api && not (own_all || listed k remove)))
    has_challenge-after k =
        rw (find_challenge-compute_payload api desired remove own_all h k) (ground arith)

    add-AllChallenges : AllChallenges diff.add
    add-AllChallenges = rw ((parts api desired remove own_all).add) (
        missing-AllChallenges (seen api desired remove own_all) (dedupe desired)
          (dedupe-AllChallenges desired h))

    remove-AllChallenges : AllChallenges diff.remove
    remove-AllChallenges =
        rw ((parts api desired remove own_all).removed)
          (casualties-AllChallenges _ _ own_all (λ _. false) api)

    same_keys_of_no_diff :
        changed diff ≡ false → (k : Key) → has_challenge k after ≡ has_challenge k api
    same_keys_of_no_diff unchanged k =
        let (no_add, no_remove) = (changed_iff diff).0 unchanged in
        ground (
          arith,
          ap (has_challenge k) no_add,
          ap (has_challenge k) no_remove,
          has_challenge-add k,
          has_challenge-remove k,
          has_challenge-after k,
        )

    no_diff_of_same_keys :
        ((k : Key) → has_challenge k after ≡ has_challenge k api) → changed diff ≡ false
    no_diff_of_same_keys same = (changed_iff diff).1 (
      eq-nil_of_none diff.add add-AllChallenges
          (λ k. ground (arith, same k, has_challenge-add k, has_challenge-after k)),
      eq-nil_of_none diff.remove remove-AllChallenges
          (λ k. ground (arith, same k, has_challenge-remove k, has_challenge-after k)),
    )

  -- The `Diff` names what the PUT changes: `add` holds the keys that the zone gains, and `remove`
  -- those that it loses.
  diff-compute_payload :
      AllChallenges desired
      → (k : Key)
      → (has_challenge k diff.add ≡ (not (has_challenge k api) && has_challenge k after))
        × (has_challenge k diff.remove ≡ (has_challenge k api && not (has_challenge k after)))
  diff-compute_payload h k = (
    ground (arith, has_challenge-add h k, has_challenge-after h k),
    ground (arith, has_challenge-remove h k, has_challenge-after h k),
  )

  -- Where the desired records are challenges, no PUT is asked for exactly when the payload has the
  -- zone's challenge keys.
  pub changed-compute_payload :
      AllChallenges desired
      → (changed diff ≡ false) ↔ ((k : Key) → has_challenge k after ≡ has_challenge k api)
  changed-compute_payload h = (same_keys_of_no_diff h, no_diff_of_same_keys h)

-- Where the desired records are challenges, a zone that shows the payload of the last PUT needs no
-- further PUT.
pub settled_after_put :
    (api desired : List DnsRecord) (remove : List Key) (own_all : Bool)
    → AllChallenges desired
    → changed (compute_payload (after api desired remove own_all) desired remove own_all).1 ≡ false
settled_after_put api desired remove own_all h =
    no_diff_of_same_keys (after api desired remove own_all) desired remove own_all h λ k. ground (
      arith,
      has_challenge-after api desired remove own_all h k,
      has_challenge-after (after api desired remove own_all) desired remove own_all h k,
    )

-- Two parts without a key in common.
UniqueChallenges-append :
    (xs ys : List DnsRecord)
    → UniqueChallenges xs
    → UniqueChallenges ys
    → ((k : Key) → has_challenge k xs ≡ true → has_challenge k ys ≡ false)
    → UniqueChallenges (xs ++ ys)
UniqueChallenges-append [] ys ux uy d = uy
UniqueChallenges-append (x ∷ xs) ys (ux, uxs) uy d = (
  λ hx.
      ground
        (arith, ux hx, d (key x), key_eq_iff (key x) (key x), find_challenge-append (key x) xs ys),
  UniqueChallenges-append xs ys uxs uy (λ k q. ground (arith, d k)),
)

survivors-UniqueChallenges :
    (m : Key → DnsRecord) (drop : Key → Bool) (own_all : Bool)
    → IsKeyed m
    → (present : Key → Bool) (api : List DnsRecord)
    → UniqueChallenges (survivors m drop own_all present api)
unfolding survivors
survivors-UniqueChallenges m drop own_all km present [] = tt
survivors-UniqueChallenges m drop own_all km present (r ∷ rs) =
    let next : Key → Bool = write present (key r) true in
    ground (
      arith,
      survivors-UniqueChallenges m drop own_all km present rs,
      survivors-UniqueChallenges m drop own_all km next rs,
      find_challenge-survivors m drop own_all km next rs (key r),
      key_eq_iff (key r) (key r),
      km.own_key (key r),
    )

missing-UniqueChallenges :
    (present : Key → Bool) (ds : List DnsRecord)
    → UniqueChallenges ds
    → UniqueChallenges (missing present ds)
missing-UniqueChallenges present [] u = tt
missing-UniqueChallenges present (r ∷ rs) (ur, u) =
    ground (arith, missing-UniqueChallenges present rs u, find_challenge-missing present rs (key r))

-- Where the desired records are challenges, the payload holds one challenge record at most under each
-- key, also where the zone or the desired list repeats one.
pub compute_payload-UniqueChallenges :
    (api desired : List DnsRecord) (remove : List Key) (own_all : Bool)
    → AllChallenges desired
    → UniqueChallenges (compute_payload api desired remove own_all).0
compute_payload-UniqueChallenges api desired remove own_all h =
    rw ((parts api desired remove own_all).payload) (
      UniqueChallenges-append _ _
        (survivors-UniqueChallenges _ _ own_all (keyed api desired remove own_all h) (λ _. false)
          api)
        (missing-UniqueChallenges (seen api desired remove own_all) _
          (dedupe-UniqueChallenges desired h))
        (λ k q. ground (
          arith,
          find_challenge-survivors _ (dropping api desired remove own_all) own_all
              (keyed api desired remove own_all h) (λ _. false) api k,
          find_challenge-missing (seen api desired remove own_all) (dedupe desired) k,
          seen_lem api desired remove own_all k,
        )))
