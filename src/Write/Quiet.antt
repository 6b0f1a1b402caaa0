-- ===== src/Write/Quiet.antt =====
-- zone/reconciler.go: what the write loop keeps, of anything that its own calls keep.
use cert_manager_webhook_mij.Prelude.{Bool, ℕ, zero, suc, ◌&&◌, not, ◌==◌, List, ◌∷◌, Text}
use cert_manager_webhook_mij.Failure.{Result, ok, err}
use cert_manager_webhook_mij.Mijnhost.{DnsRecord}
use cert_manager_webhook_mij.Payload.{Key, is_empty, changed, compute_payload}
use cert_manager_webhook_mij.World.{
  Log, Outside, serial_read, got, put, clocked, Action, pure, ◌>>◌,
}
use cert_manager_webhook_mij.World.Triples.{
  Triple, Triple-pure, Triple-raise, Triple-call, Triple-tell, Triple-if, Triple-bind, Triple-try,
}
use cert_manager_webhook_mij.Write.{
  Reconciler, has_own_records, Attempt, start_over, finished, get_records, put_records, read_serial,
  read_zone, fill_empty, check_serial, write_attempt, write_loop,
}

-- `P` is kept by the calls of the write loop.
pub record IsQuiet (P : Log → Type 0) : Type 0 where
  pub serial_kept : (z : Text) (a : Result ℕ) (l : Log) → P l → P (serial_read z a ∷ l)
  pub got_kept : (k z : Text) (a : Result (List DnsRecord)) (l : Log) → P l → P (got k z a ∷ l)
  pub put_kept :
      (k z : Text) (rs : List DnsRecord) (a : Result (Unit {0})) (l : Log)
      → P l
      → P (put k z rs a ∷ l)
  pub clocked_kept : (t : ℕ) (l : Log) → P l → P (clocked t ∷ l)

module _ (w : Outside) (r : Reconciler) (P : Log → Type 0) (quiet : IsQuiet P) where
  abbrev pub Keeps {ℓ} : {A : Type ℓ} → Action A → Type ℓ
  Keeps m = Triple P m (λ _. P) P

  serial_kept : (zone : Text) → Keeps (read_serial w r zone)
  unfolding read_serial
  serial_kept zone =
      Triple-if r.has_serial _ _
        (λ _.
          Triple-bind (λ _. P) _ _
            (Triple-try {E = P} {Q = λ _. P} _
              (Triple-call _ _ (λ l s h. quiet.serial_kept zone (ok s) l h)
                (λ l e h. quiet.serial_kept zone (err e) l h))
              (λ _ l h. h) (λ _ l h. h))
            (λ a. Triple-pure _ (λ l h. h)))
        (λ _. Triple-pure _ (λ l h. h))

  records_kept : (api_key zone : Text) → Keeps (read_zone w r api_key zone)
  unfolding read_zone
  records_kept api_key zone =
      Triple-bind (λ _. P) _ _ once
        (λ current.
          Triple-if (has_own_records current) _ _ (λ _. Triple-pure _ (λ l h. h)) (λ _. once))
    where
      once : Triple P (get_records w r api_key zone) (λ _. P) P
      once =
          Triple-call _ _ (λ l a h. quiet.got_kept api_key zone (ok a) l h)
            (λ l e h. quiet.got_kept api_key zone (err e) l h)

  filled_kept : (zone : Text) (payload : List DnsRecord) → Keeps (fill_empty w r zone payload)
  unfolding fill_empty
  filled_kept zone payload =
      Triple-if (is_empty payload) _ _
        (λ _.
          Triple-bind (λ _. P) _ _ (Triple-tell _ _ (λ l t h. quiet.clocked_kept t l h))
            (λ now. Triple-pure _ (λ l h. h)))
        (λ _. Triple-pure _ (λ l h. h))

  checked_kept : (zone : Text) (before : ℕ) (b : Bool) → Keeps (check_serial w r zone before b)
  unfolding check_serial
  checked_kept zone before b =
      Triple-if b _ _
        (λ _.
          Triple-bind (λ _. P) _ _ (serial_kept zone)
            (λ (now, readable).
              Triple-if (readable && not (now == before)) _ _ (λ _. Triple-pure _ (λ l h. h))
                (λ _.
                  Triple-if (not readable && r.serial_required) _ _ (λ _. Triple-raise _ (λ l h. h))
                    (λ _. Triple-pure _ (λ l h. h)))))
        (λ _. Triple-pure _ (λ l h. h))

  sent_kept :
      (api_key zone : Text) (full : List DnsRecord) (verdict : Attempt)
      → Keeps (elim verdict as (λ _. Action Attempt) [
        | start_over ↦ pure start_over
        | finished ↦ (do put_records w r api_key zone full; pure finished)
      ])
  sent_kept api_key zone full start_over = Triple-pure _ (λ l h. h)
  sent_kept api_key zone full finished =
      Triple-bind (λ _. P) _ _
        (Triple-call _ _ (λ l u h. quiet.put_kept api_key zone full (ok u) l h)
          (λ l e h. quiet.put_kept api_key zone full (err e) l h))
        (λ _. Triple-pure _ (λ l h. h))

  attempt_kept :
      (api_key zone : Text) (desired : List DnsRecord) (remove : List Key)
      → Keeps (write_attempt w r api_key zone desired remove)
  unfolding write_attempt
  attempt_kept api_key zone desired remove =
      Triple-bind (λ _. P) _ _ (serial_kept zone)
        (λ (before, checkable).
          Triple-if (r.serial_required && not checkable) _ _ (λ _. Triple-raise _ (λ l h. h))
            (λ _.
              Triple-bind (λ _. P) _ _ (records_kept api_key zone)
                (λ current.
                  let payload = compute_payload current desired remove r.own_acme_records in
                  Triple-if (not (changed payload.1)) _ _ (λ _. Triple-pure _ (λ l h. h))
                    (λ _.
                      Triple-bind (λ _. P) _ _ (filled_kept zone payload.0)
                        (λ full.
                          Triple-bind (λ _. P) _ _ (checked_kept zone before checkable)
                            (λ verdict. sent_kept api_key zone full verdict))))))

  pub loop_kept :
      (n : ℕ) (api_key zone : Text) (desired : List DnsRecord) (remove : List Key)
      → Keeps (write_loop w r n api_key zone desired remove)
  unfolding write_loop
  loop_kept zero api_key zone desired remove = Triple-raise _ (λ l h. h)
  loop_kept (suc n) api_key zone desired remove =
      Triple-bind (λ _. P) _ _ (attempt_kept api_key zone desired remove)
        (λ verdict. next verdict (loop_kept n api_key zone desired remove))
    where
      next :
          (verdict : Attempt)
          → Triple P (write_loop w r n api_key zone desired remove) (λ _. P) P
          → Triple P
              (elim verdict as (λ _. Action (Unit {0})) [
                | start_over ↦ write_loop w r n api_key zone desired remove
                | finished ↦ pure tt
              ])
              (λ _. P)
              P
      next start_over again = again
      next finished again = Triple-pure tt (λ l h. h)
