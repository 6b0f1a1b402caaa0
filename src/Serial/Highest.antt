-- ===== src/Serial/Highest.antt =====
-- zone/serial.go: which serial `Serial` reports.
use cert_manager_webhook_mij.Prelude.{
  ℕ, ◌+◌, ◌≤◌, Bool, true, false, ◌||◌, List, [], ◌∷◌, ◌++◌, length, Text, All, ◌==◌, if◌then◌else◌,
  ◌≡◌, ◌⊎◌, inl, inr, refl, sym, ap, ◌∙◌, arith,
}
use cert_manager_webhook_mij.Failure.{serial_unavailable, Result, ok, err}
use cert_manager_webhook_mij.Serial.{
  Answer, soa, other, Poll, note_serial, read_answers, poll_servers, best_serial,
}

-- The serials in one answer, and in the answers of all nameservers.
abbrev pub serials : List Answer → List ℕ
serials [] = []
serials (soa s ∷ rest) = s ∷ serials rest
serials (other ∷ rest) = serials rest

abbrev pub answered_with : Result (List Answer) → List ℕ
answered_with (ok answers) = serials answers
answered_with (err _) = []

abbrev pub all_serials : (Text → Result (List Answer)) → List Text → List ℕ
all_serials exchange [] = []
all_serials exchange (ns ∷ rest) = answered_with (exchange ns) ++ all_serials exchange rest

abbrev pub occurs : ℕ → List ℕ → Bool
occurs n [] = false
occurs n (m ∷ ms) = n == m || occurs n ms

-- The highest number of a list.
pub record IsHighest (n : ℕ) (ns : List ℕ) : Type 0 where
  pub bound : All (λ m. m ≤ n) ns
  pub among : occurs n ns ≡ true

-- The poll over a list of serials.
tally : Poll → List ℕ → Poll
tally p [] = p
tally p (m ∷ ms) = tally (note_serial p m) ms

tally-append : (p : Poll) (ms ns : List ℕ) → tally p (ms ++ ns) ≡ tally (tally p ms) ns
unfolding tally
tally-append p [] ns = refl
tally-append p (m ∷ ms) ns = tally-append (note_serial p m) ms ns

read_answers_lem :
    (p : Poll) (answers : List Answer) → read_answers p answers ≡ tally p (serials answers)
unfolding read_answers tally
read_answers_lem p [] = refl
read_answers_lem p (soa s ∷ rest) = read_answers_lem (note_serial p s) rest
read_answers_lem p (other ∷ rest) = read_answers_lem p rest

poll_servers_lem :
    (exchange : Text → Result (List Answer)) (p : Poll) (servers : List Text)
    → poll_servers exchange p servers ≡ tally p (all_serials exchange servers)
unfolding poll_servers tally
poll_servers_lem exchange p [] = refl
poll_servers_lem exchange p (ns ∷ rest) =
    answer_lem (exchange ns) (poll_servers_lem exchange p rest)
      (λ answers. poll_servers_lem exchange (read_answers p answers) rest)
  where
    answer_lem :
        (r : Result (List Answer))
        → poll_servers exchange p rest ≡ tally p (all_serials exchange rest)
        → ((answers : List Answer)
            → poll_servers exchange (read_answers p answers) rest
              ≡ tally (read_answers p answers) (all_serials exchange rest))
        → elim r [
          | ok answers ↦ poll_servers exchange (read_answers p answers) rest
          | err e ↦ poll_servers exchange p rest
        ]
          ≡ tally p (answered_with r ++ all_serials exchange rest)
    answer_lem (ok answers) failed answered =
        answered answers
        ∙ (ap (λ q. tally q (all_serials exchange rest)) (read_answers_lem p answers)
            ∙ sym (tally-append p (serials answers) (all_serials exchange rest)))
    answer_lem (err e) failed answered = failed

best_grows : (p : Poll) (ms : List ℕ) → p.best ≤ (tally p ms).best
unfolding tally
best_grows p [] = omega arith
best_grows p (m ∷ ms) = ground (arith, best_grows (note_serial p m) ms)

bound_of_tally : (p : Poll) (ms : List ℕ) → All (λ m. m ≤ (tally p ms).best) ms
unfolding tally
bound_of_tally p [] = tt
bound_of_tally p (m ∷ ms) =
    (ground (arith, best_grows (note_serial p m) ms), bound_of_tally (note_serial p m) ms)

among_tally :
    (p : Poll) (ms : List ℕ) → ((tally p ms).best ≡ p.best) ⊎ (occurs (tally p ms).best ms ≡ true)
unfolding tally
among_tally p [] = inl refl
among_tally p (m ∷ ms) = ground (arith, among_tally (note_serial p m) ms)

answered_lem : (p : Poll) (ms : List ℕ) → (tally p ms).answered ≡ p.answered + length ms
unfolding tally
answered_lem p [] = omega arith
answered_lem p (m ∷ ms) = ground (arith, answered_lem (note_serial p m) ms)

abbrev start : Poll
start = record { best = 0; answered = 0 }

IsHighest-of_tally : (m : ℕ) (ms : List ℕ) → IsHighest (tally start (m ∷ ms)).best (m ∷ ms)
IsHighest-of_tally m ms =
    let bound = bound_of_tally start (m ∷ ms) in
    record {
      bound = bound;
      among = elim (among_tally start (m ∷ ms)) [ inl e ↦ ground (arith, e, bound.0) | inr h ↦ h ];
    }

serial_of_tally :
    (ms : List ℕ) (p : Poll)
    → p ≡ tally start ms
    → let r = if p.answered == 0 then err serial_unavailable else ok p.best in
      ((ms ≡ []) × (r ≡ err serial_unavailable)) ⊎ ((n : ℕ) × ((r ≡ ok n) × IsHighest n ms))
unfolding tally
serial_of_tally [] p e = inl (refl, rw e refl)
serial_of_tally (m ∷ ms) p e =
    inr (p.best, (ground (arith, e, answered_lem start (m ∷ ms)), rw e (IsHighest-of_tally m ms)))

-- `Serial` reports the highest of the SOA serials in the answers of all nameservers, whatever other
-- records stand there and whichever nameservers fail; where there is none, it fails with
-- `ErrSerialUnavailable`.
pub best_serial-IsHighest :
    (exchange : Text → Result (List Answer)) (servers : List Text)
    → ((all_serials exchange servers ≡ [])
        × (best_serial exchange servers ≡ err serial_unavailable))
      ⊎ ((n : ℕ) × ((best_serial exchange servers ≡ ok n)
            × IsHighest n (all_serials exchange servers)))
unfolding best_serial
best_serial-IsHighest exchange servers =
    serial_of_tally (all_serials exchange servers) (poll_servers exchange start servers)
      (poll_servers_lem exchange start servers)
