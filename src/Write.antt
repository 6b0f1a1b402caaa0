-- ===== src/Write.antt =====
-- zone/reconciler.go: the reconciler's options, its reads, and its write loop.
pub mod Quiet
pub mod Reading
pub mod Keeping
pub mod Confirming
pub mod Clearing
pub mod Safety
pub mod Exact
pub mod Outcome
pub mod Progress
use cert_manager_webhook_mij.Prelude.{
  ℕ, zero, suc, ◌*◌, Bool, true, false, not, ◌&&◌, List, [], ◌∷◌, ◌++◌, Text, ◌==◌, if◌then◌else◌,
  ℤ, positive_or,
}
use cert_manager_webhook_mij.Failure.{serial_unavailable, zone_changing, Result, ok, err}
use cert_manager_webhook_mij.Mijnhost.{DnsRecord}
use cert_manager_webhook_mij.Payload.{
  Key, is_challenge_record, is_empty, Diff, changed, compute_payload, placeholder,
}
use cert_manager_webhook_mij.World.{
  serial_read, got, put, clocked, Outside, Action, pure, raise, call, tell, try, ◌>>=◌, ◌>>◌,
}

-- `Options`, with durations in nanoseconds. `has_serial` is `Serial != nil`.
pub record Options : Type 0 where
  pub own_acme_records : Bool
  pub max_record_age : ℤ
  pub has_serial : Bool
  pub serial_required : Bool
  pub max_write_attempts : ℤ

-- `Reconciler`: the options after `NewReconciler`, where both numbers are positive.
pub record Reconciler : Type 0 where
  pub own_acme_records : Bool
  pub max_record_age : ℕ
  pub has_serial : Bool
  pub serial_required : Bool
  pub max_write_attempts : ℕ

-- `NewReconciler`
unfoldable pub new_reconciler : Options → Reconciler
new_reconciler opts = record {
  own_acme_records = opts.own_acme_records;
  max_record_age = positive_or (24 * 3600 * 1_000_000_000) opts.max_record_age;
  has_serial = opts.has_serial;
  serial_required = opts.serial_required;
  max_write_attempts = positive_or 5 opts.max_write_attempts;
}

-- `hasOwnRecords`
unfoldable pub has_own_records : List DnsRecord → Bool
has_own_records [] = false
has_own_records (r ∷ rs) =
    let rest = has_own_records rs in if not (is_challenge_record r) then true else rest

-- The last word of one pass of the write loop.
pub data Attempt : Type 0 where
  start_over finished : Attempt

module _ (w : Outside) (r : Reconciler) where
  abbrev pub read_now : Action ℕ
  read_now = tell w.now clocked

  abbrev pub get_records : Text → Text → Action (List DnsRecord)
  get_records api_key zone = call (λ l. w.get_records l api_key zone) (got api_key zone)

  abbrev pub put_records : Text → Text → List DnsRecord → Action (Unit {0})
  put_records api_key zone records =
      call (λ l. w.put_records l api_key zone records) (put api_key zone records)

  -- `readSerial`: the serial, and whether there is one.
  unfoldable pub read_serial : Text → Action (ℕ × Bool)
  read_serial zone =
      if r.has_serial
      then (do
        answer ← try (call (λ l. w.serial l zone) (serial_read zone))
        pure (elim answer [ ok serial ↦ (serial, true) | err e ↦ (0, false) ]))
      else pure (0, false)

  -- `ReadZone`
  unfoldable pub read_zone : Text → Text → Action (List DnsRecord)
  unfolding has_own_records
  read_zone api_key zone = do
    current ← get_records api_key zone
    if has_own_records current then pure current else get_records api_key zone

  -- The payload that is sent: never empty.
  unfoldable pub fill_empty : Text → List DnsRecord → Action (List DnsRecord)
  fill_empty zone payload =
      if is_empty payload
      then (do now ← read_now; pure (payload ++ placeholder zone (w.date now) ∷ []))
      else pure payload

  -- The check before the write: whether the PUT may go out, or the pass starts over.
  unfoldable pub check_serial : Text → ℕ → Bool → Action Attempt
  unfolding read_serial
  check_serial zone before checkable =
      if checkable
      then (do
        (now, readable) ← read_serial zone
        if readable && not (now == before)
            then pure start_over
            else if not readable && r.serial_required
            then raise serial_unavailable
            else pure finished)
      else pure finished

  -- One pass of the loop of `reconcile`.
  unfoldable pub write_attempt : Text → Text → List DnsRecord → List Key → Action Attempt
  unfolding read_serial read_zone fill_empty check_serial
  write_attempt api_key zone desired remove = do
    (before, checkable) ← read_serial zone
    if r.serial_required && not checkable then raise serial_unavailable else do
      current ← read_zone api_key zone
      let (payload, diff) = compute_payload current desired remove r.own_acme_records
      if not (changed diff) then pure finished else do
        full ← fill_empty zone payload
        verdict ← check_serial zone before checkable
        elim verdict [
          | start_over ↦ pure start_over
          | finished ↦ (do put_records api_key zone full; pure finished)
        ]

  -- The loop of `reconcile`, with the passes that are left.
  unfoldable pub write_loop : ℕ → Text → Text → List DnsRecord → List Key → Action (Unit {0})
  unfolding write_attempt
  write_loop zero api_key zone desired remove = raise zone_changing
  write_loop (suc n) api_key zone desired remove =
      let again = write_loop n api_key zone desired remove in
      write_attempt api_key zone desired remove >>= λ verdict. elim verdict [
        | start_over ↦ again
        | finished ↦ pure tt
      ]
