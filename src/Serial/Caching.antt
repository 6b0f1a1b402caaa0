-- ===== src/Serial/Caching.antt =====
-- zone/serial.go: the cache of nameservers.
use cert_manager_webhook_mij.Prelude.{
  ℕ, ◌-◌, List, [], ◌∷◌, Text, ltb, if◌then◌else◌, none, some, Option-cases, Bool-cases, ◌≡◌, ◌≢◌,
  inl, inr, arith,
}
use cert_manager_webhook_mij.Failure.{Result, ok, err}
use cert_manager_webhook_mij.Serial.{NsCache, assign, or_nil, ns_cache_ttl, look_up, nameservers}

-- Every entry of the cache has nameservers, and every time belongs to an entry.
pub record IsFilled (c : NsCache) : Type 0 where
  pub some_server :
      (zone : Text) (servers : List Text) → c.servers zone ≡ some servers → servers ≢ []
  pub timed : (zone : Text) (t : ℕ) → c.at zone ≡ some t → c.servers zone ≢ none

IsFilled-assign :
    (c : NsCache) (zone : Text) (ns : Text) (rest : List Text) (t : ℕ)
    → IsFilled c
    → IsFilled (record { servers = assign c.servers zone (ns ∷ rest); at = assign c.at zone t })
IsFilled-assign c zone ns rest t h = record {
  some_server = λ z servers e. ground (arith, h.some_server z servers, e);
  timed = λ z t' e. ground (arith, h.timed z t', e);
}

look_up-IsFilled :
    (later : ℕ) (answer : Result (List Text)) (zone : Text) (c : NsCache)
    → IsFilled c
    → IsFilled (look_up later answer zone c).1
      × ((servers : List Text) → (look_up later answer zone c).0 ≡ ok servers → servers ≢ [])
unfolding look_up
look_up-IsFilled later (err e) zone c h = elim (Option-cases (c.servers zone)) [
  | inl missing ↦ rw (look_up, missing) (h, λ servers found. ground (arith, found))
  | inr (cached, e') ↦
      rw (look_up, e')
        (h, λ servers found blank. ground (arith, h.some_server zone cached e', found, blank))
]
look_up-IsFilled later (ok []) zone c h = (h, λ servers e. ground (arith, e))
look_up-IsFilled later (ok (ns ∷ rest)) zone c h =
    (IsFilled-assign c zone ns rest later h, λ servers e blank. ground (arith, e, blank))

nameservers_within :
    (now later at : ℕ) (answer : Result (List Text)) (zone : Text) (c : NsCache)
    → IsFilled c
    → c.at zone ≡ some at
    → let r =
        if ltb (now - at) ns_cache_ttl
        then (ok (or_nil (c.servers zone)), c)
        else look_up later answer zone c in
      IsFilled r.1 × ((servers : List Text) → r.0 ≡ ok servers → servers ≢ [])
nameservers_within now later at answer zone c h e =
    elim (Bool-cases (ltb (now - at) ns_cache_ttl)) [
      | inr late ↦ rw late (look_up-IsFilled later answer zone c h)
      | inl young ↦ rw young (elim (Option-cases (c.servers zone)) [
        | inl missing ↦ ground (arith, h.timed zone at e missing)
        | inr (cached, e') ↦
            rw e'
              (h, λ servers found blank. ground (arith, h.some_server zone cached e', found, blank))
      ])
    ]

-- The cache keeps an entry with nameservers for every time that it holds, and `nameservers` never
-- answers with an empty list: from the cache, from the lookup, or from the cache because the lookup
-- failed. The cache was so before.
pub nameservers-IsFilled :
    (now later : ℕ) (answer : Result (List Text)) (zone : Text) (c : NsCache)
    → IsFilled c
    → IsFilled (nameservers now later answer zone c).1
      × ((servers : List Text)
          → (nameservers now later answer zone c).0 ≡ ok servers
          → servers ≢ [])
unfolding nameservers
nameservers-IsFilled now later answer zone c h = elim (Option-cases (c.at zone)) [
  | inl missing ↦ rw (nameservers, missing) (look_up-IsFilled later answer zone c h)
  | inr (at, e) ↦ rw (nameservers, e) (nameservers_within now later at answer zone c h e)
]
