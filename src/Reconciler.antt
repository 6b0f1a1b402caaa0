-- ===== src/Reconciler.antt =====
-- zone/reconciler.go: the operations, each a locked read-modify-write cycle of a zone.
pub mod Safety
pub mod Operations
pub mod Outcome
pub mod Sweeping
pub mod Progress
use cert_manager_webhook_mij.Prelude.{
  ℕ, ◌+◌, ◌-◌, Bool, List, [], ◌∷◌, ◌++◌, Text, trim_suffix, ◌==◌, if◌then◌else◌, ℤ, Option, none,
  some,
}
use cert_manager_webhook_mij.Failure.{no_key_reference, sweep_errors, Result, ok, err}
use cert_manager_webhook_mij.Names.{absolute_name}
use cert_manager_webhook_mij.Payload.{Key, is_empty}
use cert_manager_webhook_mij.Store.{SecretRef, Record, State, Handle}
use cert_manager_webhook_mij.World.{
  acquired, released, loaded, saved, listed, key_read, Outside, Action, pure, raise, call, try,
  defer, ◌>>=◌, ◌>>◌,
}
use cert_manager_webhook_mij.Records.{desired_records, split_expired, retime, without}
use cert_manager_webhook_mij.Write.{Reconciler, read_now, write_loop}

-- `Request`
pub record Request : Type 0 where
  pub zone : Text
  pub name : Text
  pub value : Text
  pub ttl : ℤ
  pub challenge_uid : Text
  pub dns_name : Text
  pub api_key_secret_ref : SecretRef

-- What `Present`, `CleanUp` and `Sweep` do to the records, and the keys that they give up.
abbrev pub Mutation : Type 0
Mutation = List Record → Action (List Record × List Key)

abbrev pub with_ref : Option SecretRef → SecretRef → SecretRef
with_ref none old = old
with_ref (some ref) old = ref

module _ (w : Outside) (r : Reconciler) where
  -- `dropExpired`, on the records of the state.
  unfoldable pub drop_expired : List Record → Action (List Record)
  unfolding split_expired
  drop_expired records = do
    now ← read_now w r
    pure (split_expired (now - r.max_record_age) records).0

  unfoldable pub present_mutation : Request → Mutation
  unfolding retime absolute_name
  present_mutation req records =
      let name = absolute_name req.name req.zone in
      let (retimed, found) = retime name req.value req.ttl records in
      if found then pure (retimed, []) else (do
        now ← read_now w r
        pure (
          records
              ++ record {
                name = name;
                value = req.value;
                ttl = req.ttl;
                added_at = now;
                challenge_uid = req.challenge_uid;
                dns_name = req.dns_name;
              }
                ∷ [],
          [],
        ))

  unfoldable pub clean_up_mutation : Request → Mutation
  unfolding without absolute_name
  clean_up_mutation req records =
      let name = absolute_name req.name req.zone in
      pure (without name req.value records, record { name = name; value = req.value } ∷ [])

  unfoldable pub sweep_mutation : Mutation
  sweep_mutation records = pure (records, [])

  -- `reconcile` between the lock and its release.
  unfoldable pub reconcile_locked : Text → Option SecretRef → Mutation → Action (Unit {0})
  unfolding drop_expired desired_records write_loop
  reconcile_locked zone secret_ref mutate = do
    h ← call (λ l. w.load l zone) (loaded zone)
    let ref = with_ref secret_ref h.state.api_key_secret_ref
    if is_empty ref.name then raise no_key_reference else do
      live ← drop_expired h.state.records
      (records, remove) ← mutate live
      let st = record (h.state) { api_key_secret_ref = ref; records = records }
      let h' = record h { state = st }
      call (λ l. w.save l h') (saved h')
      api_key ← call (λ l. w.api_key l ref) (key_read ref)
      write_loop w r r.max_write_attempts api_key zone (desired_records st) remove

  -- `reconcile`
  unfoldable pub reconcile : Text → Option SecretRef → Mutation → Action (Unit {0})
  unfolding reconcile_locked
  reconcile raw_zone secret_ref mutate =
      let zone = trim_suffix raw_zone b'.' in
      do
        call (λ l. w.acquire l zone) (acquired zone)
        defer (released zone) (reconcile_locked zone secret_ref mutate)

  -- `Present`
  unfoldable pub present : Request → Action (Unit {0})
  unfolding reconcile present_mutation
  present req = reconcile req.zone (some req.api_key_secret_ref) (present_mutation req)

  -- `CleanUp`
  unfoldable pub clean_up : Request → Action (Unit {0})
  unfolding reconcile clean_up_mutation
  clean_up req = reconcile req.zone (some req.api_key_secret_ref) (clean_up_mutation req)

  -- The loop of `Sweep`, which counts the zones that failed.
  unfoldable pub sweep_zones : List Text → ℕ → Action ℕ
  unfolding reconcile sweep_mutation
  sweep_zones [] failed = pure failed
  sweep_zones (zone ∷ zones) failed = try (reconcile zone none sweep_mutation) >>= λ outcome.
      sweep_zones zones (elim outcome [ ok _ ↦ failed | err _ ↦ failed + 1 ])

  -- `Sweep`
  unfoldable pub sweep : Action (Unit {0})
  unfolding sweep_zones
  sweep = do
    zones ← call w.list_zones listed
    failed ← sweep_zones zones 0
    if failed == 0 then pure tt else raise (sweep_errors failed)
