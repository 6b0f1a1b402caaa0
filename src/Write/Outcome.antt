-- ===== src/Write/Outcome.antt =====
-- How the write loop ends: what success means, how many PUTs it makes, and that it succeeds on a
-- zone that nobody else changes.
use cert_manager_webhook_mij.Prelude.{
  ℕ, zero, suc, ◌+◌, ◌≤◌, ◌≡◌, refl, Bool, true, false, not, ◌&&◌, ◌⊎◌, inl, inr, arith, List, [],
  ◌∷◌, Text, Option, some, ◌==◌,
}
use cert_manager_webhook_mij.Failure.{ok}
use cert_manager_webhook_mij.Mijnhost.{DnsRecord}
use cert_manager_webhook_mij.Store.{State}
use cert_manager_webhook_mij.Payload.{Key, is_empty, changed, compute_payload}
use cert_manager_webhook_mij.World.{Log, Outside, put, clocked, pure, ◌>>◌}
use cert_manager_webhook_mij.World.Triples.{
  Triple, Triple-pure, Triple-raise, Triple-call, Triple-tell, Triple-if, Triple-map, Triple-bind,
  Triple-try,
}
use cert_manager_webhook_mij.Write.{
  Reconciler, has_own_records, Attempt, start_over, finished, read_serial, read_zone, fill_empty,
  check_serial, write_attempt, write_loop, put_records,
}
use cert_manager_webhook_mij.Write.Reading.{last_read, last_saved}

-- The PUTs of a log.
abbrev pub puts : Log → ℕ
puts [] = 0
puts (put _ _ _ _ ∷ l) = suc (puts l)
puts (_ ∷ l) = puts l

-- The newest call is a PUT that mijn.host took.
abbrev pub acknowledged : Log → Bool
acknowledged (put _ _ _ (ok _) ∷ l) = true
acknowledged _ = false

-- The zone was in sync when it was last read, or the PUT was taken.
abbrev pub IsSettled : Reconciler → List DnsRecord → List Key → Log → Type 0
IsSettled r desired remove l =
    ((current : List DnsRecord) × (last_read l ≡ some current)
      × (changed (compute_payload current desired remove r.own_acme_records).1 ≡ false))
    ⊎ (acknowledged l ≡ true)

module _ (w : Outside) (r : Reconciler) (zone : Text) (desired : List DnsRecord) (remove : List Key)
    (state : Option State) where
  -- `n` PUTs so far, and one more at most when the loop ends.
  abbrev Ended : ℕ → Attempt → Log → Type 0
  Ended n start_over l = (puts l ≡ n) × (last_saved l ≡ state)
  Ended n finished l = (puts l ≤ n + 1) × (last_saved l ≡ state) × IsSettled r desired remove l

  abbrev OneMore : ℕ → Log → Type 0
  OneMore n l = puts l ≤ n + 1

  abbrev Same : ℕ → Log → Type 0
  Same n l = (puts l ≡ n) × (last_saved l ≡ state)

  Same-read_serial : (n : ℕ) → Triple (Same n) (read_serial w r zone) (λ _. Same n) (OneMore n)
  unfolding read_serial
  Same-read_serial n =
      Triple-if r.has_serial _ _
        (λ _.
          Triple-bind (λ _. Same n) _ _
            (Triple-try {E = Same n} {Q = λ _. Same n} _ (Triple-call _ _ (λ l s h. h) (λ l e h. h))
              (λ s l h. h) (λ e l h. h))
            (λ a. Triple-pure _ (λ l h. h)))
        (λ _. Triple-pure _ (λ l h. h))

  abbrev SameRead : ℕ → List DnsRecord → Log → Type 0
  SameRead n current l = (puts l ≡ n) × (last_saved l ≡ state) × (last_read l ≡ some current)

  SameRead-read_zone :
      (api_key : Text) (n : ℕ)
      → Triple (Same n) (read_zone w r api_key zone) (SameRead n) (OneMore n)
  unfolding read_zone
  SameRead-read_zone api_key n =
      Triple-bind (SameRead n) _ _
        (Triple-call _ _ (λ l rs h. (h.0, h.1, refl)) (λ l e h. omega arith))
        (λ rs.
          Triple-if (has_own_records rs) _ _ (λ _. Triple-pure rs (λ l h. h))
            (λ _. Triple-call _ _ (λ l rs' h. (h.0, h.1, refl)) (λ l e h. omega arith)))

  Same-fill_empty :
      (n : ℕ) (computed : List DnsRecord)
      → Triple (Same n) (fill_empty w r zone computed) (λ _. Same n) (OneMore n)
  unfolding fill_empty
  Same-fill_empty n computed =
      Triple-if (is_empty computed) _ _
        (λ _.
          Triple-bind (λ _. Same n) _ _ (Triple-tell w.now clocked (λ l t h. h))
            (λ now. Triple-pure _ (λ l h. h)))
        (λ _. Triple-pure computed (λ l h. h))

  Same-check_serial :
      (n before : ℕ) (checkable : Bool)
      → Triple (Same n) (check_serial w r zone before checkable) (λ _. Same n) (OneMore n)
  unfolding check_serial
  Same-check_serial n before false = Triple-pure finished (λ l h. h)
  Same-check_serial n before true =
      Triple-bind (λ _. Same n) _ _ (Same-read_serial n)
        (λ (now, readable).
          Triple-if (readable && not (now == before)) _ _ (λ _. Triple-pure start_over (λ l h. h))
            (λ _.
              Triple-if (not readable && r.serial_required) _ _
                (λ _. Triple-raise _ (λ l h. omega arith)) (λ _. Triple-pure finished (λ l h. h))))

  module _ (api_key : Text) (n : ℕ) where
    Ended-send :
        (full : List DnsRecord) (verdict : Attempt)
        → Triple
            (Same n)
            (elim verdict [
              | start_over ↦ pure start_over
              | finished ↦ (do put_records w r api_key zone full; pure finished)
            ])
            (Ended n)
            (OneMore n)
    Ended-send full start_over = Triple-pure start_over (λ l h. h)
    Ended-send full finished =
        Triple-bind (λ _ l. (puts l ≤ n + 1) × (last_saved l ≡ state) × (acknowledged l ≡ true)) _ _
          (Triple-call _ _ (λ l u h. (omega arith, h.1, refl)) (λ l e h. omega arith))
          (λ _. Triple-pure finished (λ l h. (h.0, h.1, inr h.2)))

    Ended-write_attempt :
        Triple (Same n) (write_attempt w r api_key zone desired remove) (Ended n) (OneMore n)
    unfolding write_attempt
    Ended-write_attempt =
        Triple-bind (λ _. Same n) _ _ (Same-read_serial n)
          λ (before, checkable).
            Triple-if (r.serial_required && not checkable) _ _
              (λ _. Triple-raise _ (λ l h. omega arith))
              (λ _. Triple-bind (SameRead n) _ _ (SameRead-read_zone api_key n) (λ current.
                Triple-if
                  (not (changed (compute_payload current desired remove r.own_acme_records).1)) _ _
                  (λ in_sync.
                    Triple-pure finished
                      (λ l h. (omega arith, h.1, inl (current, h.2, ground arith))))
                  (λ _.
                    Triple-map _
                      (Triple-bind (λ _. Same n) _ _ (Same-fill_empty n _)
                        (λ full.
                          Triple-bind (λ _. Same n) _ _ (Same-check_serial n before checkable)
                            (Ended-send full)))
                      (λ l h. (h.0, h.1)) (λ v l h. h) (λ l h. h))))

    -- However the loop ends, it has made one PUT at most. If it returns without an error, the zone
    -- was in sync when it was last read, or mijn.host took the PUT and nothing was called since.
    pub write_loop_ends :
        (m : ℕ)
        → Triple
            (λ l. (puts l ≡ n) × (last_saved l ≡ state))
            (write_loop w r m api_key zone desired remove)
            (λ _ l. (puts l ≤ n + 1) × (last_saved l ≡ state) × IsSettled r desired remove l)
            (λ l. puts l ≤ n + 1)
    unfolding write_loop
    write_loop_ends zero = Triple-raise _ (λ l h. omega arith)
    write_loop_ends (suc m) =
        Triple-bind (Ended n) _ _ Ended-write_attempt λ verdict. next verdict (write_loop_ends m)
      where
        next :
            (verdict : Attempt)
            → Triple
                (Same n)
                (write_loop w r m api_key zone desired remove)
                (λ _. Ended n finished)
                (OneMore n)
            → Triple
                (Ended n verdict)
                (elim verdict [
                  | start_over ↦ write_loop w r m api_key zone desired remove
                  | finished ↦ pure tt
                ])
                (λ _. Ended n finished)
                (OneMore n)
        next start_over ih = ih
        next finished ih = Triple-pure tt (λ l h. h)
