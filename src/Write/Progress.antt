-- ===== src/Write/Progress.antt =====
-- The write loop succeeds in its first pass if nobody else changes the zone and the outside answers.
use cert_manager_webhook_mij.Prelude.{
  ℕ, zero, suc, ◌≤◌, ◌≡◌, refl, Bool, true, false, not, ◌&&◌, arith, List, Text, ◌==◌,
}
use cert_manager_webhook_mij.Failure.{ok}
use cert_manager_webhook_mij.Mijnhost.{DnsRecord}
use cert_manager_webhook_mij.Payload.{Key, is_empty, changed, compute_payload}
use cert_manager_webhook_mij.World.{Log, Outside, clocked, pure, ◌>>◌}
use cert_manager_webhook_mij.World.Triples.{
  Triple, Triple-pure, Triple-raise, Triple-call_eq, Triple-tell, Triple-if, Triple-bind,
  Triple-try,
}
use cert_manager_webhook_mij.Write.{
  Reconciler, has_own_records, Attempt, start_over, finished, read_serial, read_zone, fill_empty,
  check_serial, write_attempt, write_loop, put_records,
}

abbrev pub Any : Log → Type 0
Any l = Unit

abbrev pub Never : Log → Type 0
Never l = ⊥

-- What the outside does while nobody else writes: the serial of a zone stays, the zone can be read,
-- and a PUT is taken.
pub record IsQuiet (w : Outside) (serial : Text → ℕ) (current : Text → List DnsRecord)
    : Type 0 where
  pub steady : (l : Log) (zone : Text) → w.serial l zone ≡ ok (serial zone)
  pub readable : (l : Log) (api_key zone : Text) → w.get_records l api_key zone ≡ ok (current zone)
  pub taken :
      (l : Log) (api_key zone : Text) (rs : List DnsRecord)
      → w.put_records l api_key zone rs ≡ ok tt

module _ (w : Outside) (r : Reconciler) (serial : Text → ℕ) (current : Text → List DnsRecord)
    (quiet : IsQuiet w serial current) (zone : Text) where
  -- The serial is there if one can be asked for.
  abbrev Steady : ℕ × Bool → Type 0
  Steady answer = (answer.1 ≡ r.has_serial) × (answer.1 ≡ true → answer.0 ≡ serial zone)

  Steady-read_serial : Triple Any (read_serial w r zone) (λ a _. Steady a) Never
  unfolding read_serial
  Steady-read_serial =
      Triple-if r.has_serial _ _
        (λ on.
          Triple-bind (λ a _. a ≡ ok (serial zone)) _ _
            (Triple-try {E = Never} {Q = λ s _. s ≡ serial zone} _
              (Triple-call_eq _ _ (λ l s _ e. ground (arith, e, quiet.steady l zone))
                (λ l x _ e. ground (arith, e, quiet.steady l zone)))
              (λ s l h. cc) (λ e l h. absurd h))
            (λ a. Triple-pure _ (λ l h. ground arith)))
        (λ off. Triple-pure _ (λ l h. ground arith))

  Any-read_zone : (api_key : Text) → Triple Any (read_zone w r api_key zone) (λ _. Any) Never
  unfolding read_zone
  Any-read_zone api_key =
      Triple-bind (λ _. Any) _ _
        (Triple-call_eq _ _ (λ l rs h e. tt)
          (λ l x h e. ground (arith, quiet.readable l api_key zone)))
        (λ rs.
          Triple-if (has_own_records rs) _ _ (λ _. Triple-pure rs (λ l h. h))
            (λ _.
              Triple-call_eq _ _ (λ l rs' h e. tt)
                (λ l x h e. ground (arith, quiet.readable l api_key zone))))

  Any-fill_empty :
      (computed : List DnsRecord) → Triple Any (fill_empty w r zone computed) (λ _. Any) Never
  unfolding fill_empty
  Any-fill_empty computed =
      Triple-if (is_empty computed) _ _
        (λ _.
          Triple-bind (λ _. Any) _ _ (Triple-tell w.now clocked (λ l t h. h))
            (λ now. Triple-pure _ (λ l h. h)))
        (λ _. Triple-pure computed (λ l h. h))

  finished-check_serial :
      (before : ℕ) (checkable : Bool)
      → Steady (before, checkable)
      → (r.serial_required && not checkable) ≡ false
      → Triple Any (check_serial w r zone before checkable) (λ v _. v ≡ finished) Never
  unfolding check_serial
  finished-check_serial before false st ask = Triple-pure finished (λ l h. refl)
  finished-check_serial before true st ask =
      Triple-bind (λ a _. Steady a) _ _ Steady-read_serial
        (λ (now, readable).
          Triple-if (readable && not (now == before)) _ _
            (λ moved. Triple-pure start_over (λ l h. ground arith))
            (λ _.
              Triple-if (not readable && r.serial_required) _ _
                (λ lost. Triple-raise _ (λ l h. ground arith))
                (λ _. Triple-pure finished (λ l h. refl))))

  module _ (api_key : Text) (desired : List DnsRecord) (remove : List Key) where
    finished-send :
        (full : List DnsRecord) (verdict : Attempt)
        → Triple
            (λ _. verdict ≡ finished)
            (elim verdict [
              | start_over ↦ pure start_over
              | finished ↦ (do put_records w r api_key zone full; pure finished)
            ])
            (λ v _. v ≡ finished)
            Never
    finished-send full start_over = Triple-pure start_over (λ l h. h)
    finished-send full finished =
        Triple-bind (λ _. Any) _ _
          (Triple-call_eq _ _ (λ l u h e. tt)
            (λ l x h e. ground (arith, quiet.taken l api_key zone full)))
          (λ _. Triple-pure finished (λ l h. refl))

    finished-write_attempt :
        (r.serial_required && not r.has_serial) ≡ false
        → Triple Any (write_attempt w r api_key zone desired remove) (λ v _. v ≡ finished) Never
    unfolding write_attempt
    finished-write_attempt ask =
        Triple-bind (λ a _. Steady a) _ _ Steady-read_serial
          λ (before, checkable). record {
            at = λ l st.
                (Triple-if {P = Any} (r.serial_required && not checkable) _ _
                    (λ missing. Triple-raise _ (λ l' h. ground arith))
                    (λ asked.
                      Triple-bind (λ _. Any) _ _ (Any-read_zone api_key)
                        (λ read.
                          Triple-if
                            (not
                              (changed (compute_payload read desired remove r.own_acme_records).1))
                            _ _ (λ _. Triple-pure finished (λ l' h. refl))
                            (λ _.
                              Triple-bind (λ _. Any) _ _ (Any-fill_empty _)
                                (λ full.
                                  Triple-bind (λ v _. v ≡ finished) _ _
                                    (finished-check_serial before checkable st asked)
                                    (finished-send full)))))).at
                  l tt;
          }

    returned :
        (m : ℕ) (verdict : Attempt)
        → Triple
            (λ _. verdict ≡ finished)
            (elim verdict [
              | start_over ↦ write_loop w r m api_key zone desired remove
              | finished ↦ pure tt
            ])
            (λ _. Any)
            Never
    returned m start_over = record { at = λ l h. absurd (cc h) }
    returned m finished = Triple-pure tt (λ l h. tt)

    Any-write_loop :
        (r.serial_required && not r.has_serial) ≡ false
        → (m : ℕ) → Triple Any (write_loop w r (suc m) api_key zone desired remove) (λ _. Any) Never
    unfolding write_loop
    Any-write_loop ask m =
        Triple-bind (λ v _. v ≡ finished) _ _ (finished-write_attempt ask) (returned m)

    -- One attempt is enough.
    pub write_loop_succeeds :
        (r.serial_required && not r.has_serial) ≡ false
        → (n : ℕ) → 1 ≤ n
        → Triple Any (write_loop w r n api_key zone desired remove) (λ _. Any) Never
    write_loop_succeeds ask zero h = absurd (omega (arith, h))
    write_loop_succeeds ask (suc m) h = Any-write_loop ask m
