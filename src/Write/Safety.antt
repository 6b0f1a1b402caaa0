-- ===== src/Write/Safety.antt =====
-- Every PUT that the write loop makes is allowed by what it has read and saved before.
use cert_manager_webhook_mij.Prelude.{
  ℕ, zero, suc, ◌≤◌, length, ◌≡◌, Bool, true, false, not, ◌&&◌, arith, List, ◌∷◌, Text,
}
use cert_manager_webhook_mij.Failure.{Result, ok, err}
use cert_manager_webhook_mij.Mijnhost.{DnsRecord}
use cert_manager_webhook_mij.Payload.{Key, changed, compute_payload}
use cert_manager_webhook_mij.Store.{State}
use cert_manager_webhook_mij.Records.{desired_records}
use cert_manager_webhook_mij.World.{Log, Outside, put, pure, ◌>>=◌, ◌>>◌}
use cert_manager_webhook_mij.World.Triples.{
  Triple, Triple-pure, Triple-raise, Triple-call, Triple-if, Triple-bind,
}
use cert_manager_webhook_mij.Write.{
  Reconciler, Attempt, start_over, finished, fill_empty, check_serial, write_attempt, write_loop,
  put_records,
}
use cert_manager_webhook_mij.Write.Reading.{MayPut}
use cert_manager_webhook_mij.Write.Keeping.{Kept, Kept-put}
use cert_manager_webhook_mij.Write.Confirming.{
  Asked, Asked-read_serial, Filled, Filled-fill_empty, Ready, Seen, Seen-read_zone,
}
use cert_manager_webhook_mij.Write.Clearing.{Cleared, Verdict, Verdict-check_serial}

module _ (w : Outside) (r : Reconciler) (zone : Text) (st : State) where
  MayPut-Cleared :
      (current : List DnsRecord) (remove : List Key) (records : List DnsRecord) (l : Log)
      → length remove ≤ 1
      → changed (compute_payload current (desired_records st) remove r.own_acme_records).1 ≡ true
      → Filled w r zone st
          (compute_payload current (desired_records st) remove r.own_acme_records).0
          records
      → Cleared w r zone st current l
      → MayPut r zone records l
  MayPut-Cleared current remove records l one_key needed full h = record {
    state = st;
    current = current;
    remove = remove;
    one_key = one_key;
    locked = h.ready.kept.locked;
    saved_first = h.ready.saved_first;
    read_first = h.read_first;
    trusted = h.trusted;
    unmoved = h.unmoved;
    needed = needed;
    not_empty = full.not_empty;
    computed = full.same;
    filled = full.filled;
  }

  Ready-put :
      {l : Log} (api_key : Text) (records : List DnsRecord) (a : Result (Unit {0}))
      → MayPut r zone records l
      → Ready w r zone st l
      → Ready w r zone st (put api_key zone records a ∷ l)
  Ready-put api_key records a may h = record {
    kept = Kept-put api_key records a may h.kept;
    saved_first = h.saved_first;
  }

  module _ (api_key : Text) (remove : List Key) (one_key : length remove ≤ 1) where
    -- The part of a pass behind the read.
    Ready-submit :
        (before : ℕ) (checkable : Bool) (current : List DnsRecord)
        → (r.serial_required && not checkable) ≡ false
        → changed (compute_payload current (desired_records st) remove r.own_acme_records).1 ≡ true
        → Triple
            (Seen w r zone st (before, checkable) current)
            (do
              full ←
                  fill_empty w r zone
                    (compute_payload current (desired_records st) remove r.own_acme_records).0
              verdict ← check_serial w r zone before checkable
              elim verdict [
                | start_over ↦ pure start_over
                | finished ↦ (do put_records w r api_key zone full; pure finished)
              ])
            (λ _. (Ready w r zone st))
            (Kept r zone)
    Ready-submit before checkable current ask needed =
        Triple-bind
          (λ full l.
            (Seen w r zone st) (before, checkable) current l
            × (Filled w r zone st)
                (compute_payload current (desired_records st) remove r.own_acme_records).0 full)
          _ _ (Filled-fill_empty w r zone st (before, checkable) current _)
          (λ full. record {
            at = λ l (seen, fits).
                (Triple-bind (Verdict w r zone st current) _ _
                    (Verdict-check_serial w r zone st before checkable current ask)
                    (λ verdict. send full fits verdict)).at
                  l seen;
          })
      where
        send :
            (full : List DnsRecord)
            → Filled w r zone st
                (compute_payload current (desired_records st) remove r.own_acme_records).0
                full
            → (verdict : Attempt)
            → Triple
                (Verdict w r zone st current verdict)
                (elim verdict [
                  | start_over ↦ pure start_over
                  | finished ↦ (do put_records w r api_key zone full; pure finished)
                ])
                (λ _. (Ready w r zone st))
                (Kept r zone)
        send full fits start_over = Triple-pure start_over (λ l h. h)
        send full fits finished =
            Triple-bind (λ _. (Ready w r zone st)) _ _
              (Triple-call _ _
                (λ l a h.
                  Ready-put api_key full (ok a)
                    (MayPut-Cleared current remove full l one_key needed fits h) h.ready)
                (λ l e h.
                  Kept-put api_key full (err e)
                    (MayPut-Cleared current remove full l one_key needed fits h) h.ready.kept))
              (λ _. Triple-pure finished (λ l h. h))

    Ready-write_attempt :
        Triple
          (Ready w r zone st)
          (write_attempt w r api_key zone (desired_records st) remove)
          (λ _. (Ready w r zone st))
          (Kept r zone)
    unfolding write_attempt
    Ready-write_attempt =
        Triple-bind (Asked w r zone st) _ _ (Asked-read_serial w r zone st) λ (before, checkable).
          Triple-if (r.serial_required && not checkable) _ _
            (λ _. Triple-raise _ (λ l h. h.ready.kept))
            (λ ask.
              Triple-bind (Seen w r zone st (before, checkable)) _ _
                (Seen-read_zone w r zone st api_key (before, checkable))
                (λ current.
                  Triple-if _ _ _ (λ _. Triple-pure finished (λ l h. h.ready))
                    (λ needed. Ready-submit before checkable current ask (ground arith))))

    -- From a log whose PUTs were all allowed, with the lock held and the state saved, every PUT of
    -- the write loop is allowed, however many passes it makes and however it ends.
    pub Ready-write_loop :
        (n : ℕ)
        → Triple
            (Ready w r zone st)
            (write_loop w r n api_key zone (desired_records st) remove)
            (λ _. (Ready w r zone st))
            (Kept r zone)
    unfolding write_loop
    Ready-write_loop zero = Triple-raise _ (λ l h. h.kept)
    Ready-write_loop (suc n) =
        Triple-bind (λ _. (Ready w r zone st)) _ _ Ready-write_attempt
          λ verdict. next verdict (Ready-write_loop n)
      where
        next :
            (verdict : Attempt)
            → Triple
                (Ready w r zone st)
                (write_loop w r n api_key zone (desired_records st) remove)
                (λ _. (Ready w r zone st))
                (Kept r zone)
            → Triple
                (Ready w r zone st)
                (elim verdict [
                  | start_over ↦ write_loop w r n api_key zone (desired_records st) remove
                  | finished ↦ pure tt
                ])
                (λ _. (Ready w r zone st))
                (Kept r zone)
        next start_over ih = ih
        next finished ih = Triple-pure tt (λ l h. h)
