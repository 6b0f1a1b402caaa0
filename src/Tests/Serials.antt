-- ===== src/Tests/Serials.antt =====
-- Runs of the serial reader.
use cert_manager_webhook_mij.Prelude.{
  ℕ, ◌+◌, List, [], ◌∷◌, Text, codes, none, ◌≡◌, ◌≢◌, ◌⊎◌, arith,
}
use cert_manager_webhook_mij.Failure.{serial_unavailable, context_done, Result, ok, err}
use cert_manager_webhook_mij.Serial.{Answer, soa, other, NsCache, nameservers, best_serial}
use cert_manager_webhook_mij.Serial.Highest.{all_serials, IsHighest, best_serial-IsHighest}
use cert_manager_webhook_mij.Serial.Caching.{IsFilled, nameservers-IsFilled}

abbrev exchange : Text → Result (List Answer)
exchange [] = err context_done
exchange (c ∷ _) = ok (other ∷ soa (2024 + c) ∷ [])

abbrev servers : List Text
servers = codes "b" ∷ [] ∷ codes "c" ∷ codes "a" ∷ []

best_serial-IsHighest_example :
    ((all_serials exchange servers ≡ []) × (best_serial exchange servers ≡ err serial_unavailable))
    ⊎ ((n : ℕ) × ((best_serial exchange servers ≡ ok n)
          × IsHighest n (all_serials exchange servers)))
best_serial-IsHighest_example = best_serial-IsHighest exchange servers

abbrev empty_cache : NsCache
empty_cache = record { servers = λ _. none; at = λ _. none }

empty_cache-IsFilled : IsFilled empty_cache
empty_cache-IsFilled = record {
  some_server = λ zone found e. ground (arith, e);
  timed = λ zone t e. ground (arith, e);
}

nameservers-IsFilled_example :
    IsFilled (nameservers 5 6 (ok servers) (codes "example.com") empty_cache).1
    × ((found : List Text)
        → (nameservers 5 6 (ok servers) (codes "example.com") empty_cache).0 ≡ ok found
        → found ≢ [])
nameservers-IsFilled_example =
    nameservers-IsFilled 5 6 (ok servers) (codes "example.com") empty_cache empty_cache-IsFilled
