-- ===== src/Reconciler/Safety.antt =====
-- Whatever the outside answers, every PUT of every operation is allowed, and no lock stays held.
use cert_manager_webhook_mij.Prelude.{
  ℕ, ◌≤◌, length, ◌≡◌, refl, false, List, [], ◌∷◌, Text, text_eq_refl, trim_suffix, Option, none,
  some, ◌==◌, arith,
}
use cert_manager_webhook_mij.Failure.{ok, err}
use cert_manager_webhook_mij.Payload.{is_empty}
use cert_manager_webhook_mij.Store.{SecretRef, Record}
use cert_manager_webhook_mij.World.{Log, Outside, Action, acquired, released, clocked}
use cert_manager_webhook_mij.World.Triples.{
  Triple, Triple-pure, Triple-raise, Triple-call, Triple-tell, Triple-if, Triple-map, Triple-bind,
  Triple-try, Triple-defer, Triple-given, Triple_log,
}
use cert_manager_webhook_mij.Records.{retime}
use cert_manager_webhook_mij.Names.{absolute_name}
use cert_manager_webhook_mij.Write.{Reconciler}
use cert_manager_webhook_mij.Write.Reading.{holds_lock, SafePuts}
use cert_manager_webhook_mij.Write.Keeping.{
  Kept, Kept-clocked, Kept-loaded, Kept-saved, Kept-key_read,
}
use cert_manager_webhook_mij.Write.Confirming.{Ready}
use cert_manager_webhook_mij.Write.Safety.{Ready-write_loop}
use cert_manager_webhook_mij.Reconciler.{
  with_ref, Request, Mutation, present_mutation, clean_up_mutation, sweep_mutation, drop_expired,
  reconcile_locked, reconcile, present, clean_up, sweep_zones, sweep,
}

-- Between two operations: every PUT so far was allowed, and no lock is held.
pub record Idle (r : Reconciler) (l : Log) : Type 0 where
  pub safe : SafePuts r l
  pub unlocked : (z : Text) → holds_lock z l ≡ false

-- A mutation that gives up one key at most, may read the clock and does nothing else outside.
abbrev IsLocal : Reconciler → Mutation → Type 0
IsLocal r mutate =
    (zone : Text) (records : List Record)
    → Triple (Kept r zone) (mutate records) (λ out l. (length out.1 ≤ 1) × Kept r zone l)
        (Kept r zone)

module _ (w : Outside) (r : Reconciler) where
  present_mutation-IsLocal : (req : Request) → IsLocal r (present_mutation w r req)
  unfolding present_mutation
  present_mutation-IsLocal req zone records =
      Triple-if (retime (absolute_name req.name req.zone) req.value req.ttl records).1 _ _
        (λ _. Triple-pure _ (λ l h. (omega arith, h)))
        (λ _.
          Triple-bind (λ _. Kept r zone) _ _ (Triple-tell w.now clocked (λ l t h. Kept-clocked t h))
            (λ now. Triple-pure _ (λ l h. (omega arith, h))))

  clean_up_mutation-IsLocal : (req : Request) → IsLocal r (clean_up_mutation w r req)
  unfolding clean_up_mutation
  clean_up_mutation-IsLocal req zone records = Triple-pure _ (λ l h. (omega arith, h))

  sweep_mutation-IsLocal : IsLocal r (sweep_mutation w r)
  unfolding sweep_mutation
  sweep_mutation-IsLocal zone records = Triple-pure _ (λ l h. (omega arith, h))

  Kept-drop_expired :
      (zone : Text) (records : List Record)
      → Triple (Kept r zone) (drop_expired w r records) (λ _. Kept r zone) (Kept r zone)
  unfolding drop_expired
  Kept-drop_expired zone records =
      Triple-bind (λ _. Kept r zone) _ _ (Triple-tell w.now clocked (λ l t h. Kept-clocked t h))
        (λ now. Triple-pure _ (λ l h. h))

  Kept-reconcile_locked :
      (zone : Text) (ref : Option SecretRef) (mutate : Mutation)
      → IsLocal r mutate
      → Triple (Kept r zone) (reconcile_locked w r zone ref mutate) (λ _. Kept r zone) (Kept r zone)
  unfolding reconcile_locked
  Kept-reconcile_locked zone ref mutate local =
      Triple-bind (λ _. Kept r zone) _ _
        (Triple-call _ _ (λ l h k. Kept-loaded zone (ok h) k) (λ l e k. Kept-loaded zone (err e) k))
        (λ h.
          Triple-if (is_empty (with_ref ref h.state.api_key_secret_ref).name) _ _
            (λ _. Triple-raise _ (λ l k. k))
            (λ _.
              Triple-bind (λ _. Kept r zone) _ _ (Kept-drop_expired zone h.state.records)
                (λ live.
                  Triple-bind (λ out l. (length out.1 ≤ 1) × Kept r zone l) _ _ (local zone live)
                    (λ (records, remove). Triple-given _ (λ one_key.
                      Triple-bind (λ _. Ready w r zone _) _ _
                        (Triple-call _ _
                          (λ l u k. record { kept = Kept-saved _ (ok u) k; saved_first = refl })
                          (λ l e k. Kept-saved _ (err e) k))
                        (λ u.
                          Triple-bind (λ _. Ready w r zone _) _ _
                            (Triple-call _ _
                              (λ l key k. record {
                                kept = Kept-key_read _ (ok key) k.kept;
                                saved_first = k.saved_first;
                              })
                              (λ l e k. Kept-key_read _ (err e) k.kept))
                            (λ api_key.
                              Triple-map _
                                (Ready-write_loop w r zone _ api_key remove one_key
                                  r.max_write_attempts)
                                (λ l k. k) (λ u' l k. k.kept) (λ l k. k))))))))

  Kept-acquired :
      (zone : Text) (u : Unit {0}) (l : Log) → Idle r l → Kept r zone (acquired zone (ok u) ∷ l)
  Kept-acquired zone u l h = record {
    safe = h.safe;
    locked = rw (text_eq_refl zone);
    elsewhere = λ z other. rw other (h.unlocked z);
  }

  Idle-released : (zone : Text) (l : Log) → Kept r zone l → Idle r (released zone ∷ l)
  Idle-released zone l h = record { safe = h.safe; unlocked = λ z. ground (arith, h.elsewhere z) }

  Idle-reconcile :
      (zone : Text) (ref : Option SecretRef) (mutate : Mutation)
      → IsLocal r mutate
      → Triple (Idle r) (reconcile w r zone ref mutate) (λ _. Idle r) (Idle r)
  unfolding reconcile
  Idle-reconcile raw_zone ref mutate local =
      let zone = trim_suffix raw_zone b'.' in
      Triple-bind (λ _. Kept r zone) _ _
        (Triple-call _ _ (λ l u h. Kept-acquired zone u l h)
          (λ l e h. record { safe = h.safe; unlocked = h.unlocked }))
        (λ _.
          Triple-defer (released zone) _ (Kept-reconcile_locked zone ref mutate local)
            (λ _ l h. Idle-released zone l h) (λ l h. Idle-released zone l h))

  Idle-sweep_zones :
      (zones : List Text) (failed : ℕ)
      → Triple (Idle r) (sweep_zones w r zones failed) (λ _. Idle r) (Idle r)
  unfolding sweep_zones
  Idle-sweep_zones [] failed = Triple-pure failed (λ l h. h)
  Idle-sweep_zones (zone ∷ zones) failed =
      Triple-bind (λ _. Idle r) _ _
        (Triple-try _ (Idle-reconcile zone none (sweep_mutation w r) sweep_mutation-IsLocal)
          (λ _ l h. h) (λ _ l h. h))
        (λ outcome. Idle-sweep_zones zones _)

  Idle-sweep : Triple (Idle r) (sweep w r) (λ _. Idle r) (Idle r)
  unfolding sweep
  Idle-sweep =
      Triple-bind (λ _. Idle r) _ _
        (Triple-call _ _ (λ l zs h. record { safe = h.safe; unlocked = h.unlocked })
          (λ l e h. record { safe = h.safe; unlocked = h.unlocked }))
        (λ zones.
          Triple-bind (λ _. Idle r) _ _ (Idle-sweep_zones zones 0)
            (λ failed.
              Triple-if (failed == 0) _ _ (λ _. Triple-pure tt (λ l h. h))
                (λ _. Triple-raise _ (λ l h. h))))

-- A request to the webhook, or its timer.
pub data Operation : Type 0 where
  do_present do_clean_up : Request → Operation
  do_sweep : Operation

abbrev pub perform : Outside → Reconciler → Operation → Action (Unit {0})
perform w r (do_present req) = present w r req
perform w r (do_clean_up req) = clean_up w r req
perform w r do_sweep = sweep w r

-- Operations one after another; an error ends only its own operation.
abbrev pub run : Outside → Reconciler → List Operation → Log → Log
run w r [] l = l
run w r (o ∷ os) l = run w r os (perform w r o l).1

Idle-perform :
    (w : Outside) (r : Reconciler) (o : Operation)
    → Triple (Idle r) (perform w r o) (λ _. Idle r) (Idle r)
Idle-perform w r (do_present req) =
    unfold present in
    Idle-reconcile w r req.zone (some req.api_key_secret_ref) (present_mutation w r req)
      (present_mutation-IsLocal w r req)
Idle-perform w r (do_clean_up req) =
    unfold clean_up in
    Idle-reconcile w r req.zone (some req.api_key_secret_ref) (clean_up_mutation w r req)
      (clean_up_mutation-IsLocal w r req)
Idle-perform w r do_sweep = Idle-sweep w r

-- Whatever the outside answers, after any operations every PUT that was made was allowed when it
-- was made, and no zone's lock is held.
pub run-Idle :
    (w : Outside) (r : Reconciler) (os : List Operation) (l : Log)
    → Idle r l
    → Idle r (run w r os l)
run-Idle w r [] l h = h
run-Idle w r (o ∷ os) l h =
    run-Idle w r os _
      (Triple_log (Idle r) (perform w r o) (Idle-perform w r o) (λ _ l h. h) (λ l h. h) l h)
