-- ===== src/Serial.antt =====
-- zone/serial.go: the SOA serial of a zone, from its nameservers, which are cached. The DNS messages
-- and the system resolver are other code: their answers are arguments.
pub mod Highest
pub mod Caching
pub mod Queries
use cert_manager_webhook_mij.Prelude.{
  ℕ, ◌+◌, ◌-◌, ◌*◌, Bool, true, false, List, [], ◌∷◌, Text, text_eq, trim_suffix, is_empty, ltb,
  ◌==◌, if◌then◌else◌, Option, none, some,
}
use cert_manager_webhook_mij.Failure.{serial_unavailable, no_nameservers, Failure, Result, ok, err}

-- A record of an answer: `*dns.SOA`, or one of another type.
pub data Answer : Type 0 where
  soa : ℕ → Answer
  other : Answer

-- `nsCache` and `nsCacheAt`
pub record NsCache : Type 0 where
  pub servers : Text → Option (List Text)
  pub at : Text → Option ℕ

-- `m[k] = v`
abbrev pub assign {ℓ} : {A : Type ℓ} → (Text → Option A) → Text → A → Text → Option A
assign m k v k' = if text_eq k k' then some v else m k'

-- `nsCacheTTL`, one hour in nanoseconds
abbrev pub ns_cache_ttl : ℕ
ns_cache_ttl = 3600 * 1_000_000_000

abbrev pub or_nil : Option (List Text) → List Text
or_nil none = []
or_nil (some servers) = servers

-- `nameservers` behind the check of the cache, with the answer of `lookupNS`.
unfoldable pub look_up :
    (later : ℕ) → Result (List Text) → Text → NsCache → Result (List Text) × NsCache
unfolding text_eq
look_up later (err e) zone c = elim (c.servers zone) [
  | some cached ↦ (ok cached, c)
  | none ↦ (err e, c)
]
look_up later (ok found) zone c =
    if is_empty found
    then (err no_nameservers, c)
    else (ok found, record { servers = assign c.servers zone found; at = assign c.at zone later })

-- `nameservers`. `now` and `later` are the times of its check and of its write.
unfoldable pub nameservers :
    (now later : ℕ) → Result (List Text) → Text → NsCache → Result (List Text) × NsCache
unfolding look_up
nameservers now later answer zone c = elim (c.at zone) [
  | none ↦ look_up later answer zone c
  | some at ↦
      if ltb (now - at) ns_cache_ttl
      then (ok (or_nil (c.servers zone)), c)
      else look_up later answer zone c
]

-- The variables that the loop of `Serial` changes.
pub record Poll : Type 0 where
  pub best : ℕ
  pub answered : ℕ

-- A serial that was read.
abbrev pub note_serial : Poll → ℕ → Poll
note_serial p serial = record {
  best = if ltb p.best serial then serial else p.best;
  answered = p.answered + 1;
}

-- The loop over the records of one answer.
unfoldable pub read_answers : Poll → List Answer → Poll
read_answers p [] = p
read_answers p (soa serial ∷ rest) = read_answers (note_serial p serial) rest
read_answers p (other ∷ rest) = read_answers p rest

-- The loop over the nameservers. An exchange that fails is passed over.
unfoldable pub poll_servers : (Text → Result (List Answer)) → Poll → List Text → Poll
unfolding read_answers
poll_servers exchange p [] = p
poll_servers exchange p (ns ∷ rest) = elim (exchange ns) [
  | ok answers ↦ poll_servers exchange (read_answers p answers) rest
  | err e ↦ poll_servers exchange p rest
]

-- `Serial` behind the nameservers.
unfoldable pub best_serial : (Text → Result (List Answer)) → List Text → Result ℕ
unfolding poll_servers
best_serial exchange servers =
    let p = poll_servers exchange (record { best = 0; answered = 0 }) servers in
    if p.answered == 0 then err serial_unavailable else ok p.best

unfoldable pub serial_answer : (Text → Result (List Answer)) → Result (List Text) → Result ℕ
unfolding best_serial
serial_answer exchange (err e) = err serial_unavailable
serial_answer exchange (ok servers) = best_serial exchange servers

-- `Serial`. `lookup_ns` and `exchange` are asked for the zone without its last dot.
unfoldable pub serial :
    (now later : ℕ)
    → (Text → Result (List Text))
    → (Text → Text → Result (List Answer))
    → Text
    → NsCache
    → Result ℕ × NsCache
unfolding nameservers serial_answer
serial now later lookup_ns exchange raw_zone c =
    let zone = trim_suffix raw_zone b'.' in
    let (servers, c') = nameservers now later (lookup_ns zone) zone c in
    (serial_answer (exchange zone) servers, c')
