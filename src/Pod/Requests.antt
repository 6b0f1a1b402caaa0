-- ===== src/Pod/Requests.antt =====
-- zone/reconciler.go over zone/lock.go and zone/store.go: what `Present` and `CleanUp` leave in the
-- cluster.
use mathlib.Core.Path.{subst}
use cert_manager_webhook_mij.Prelude.{
  ◌⊎◌, inl, inr, ℕ, List, [], ◌∷◌, Text, trim_suffix, keep, Option, some, ◌≡◌, refl, ap,
}
use cert_manager_webhook_mij.Failure.{Failure, Result, ok, err}
use cert_manager_webhook_mij.Names.{absolute_name, object_name}
use cert_manager_webhook_mij.Payload.{Key}
use cert_manager_webhook_mij.Store.{SecretRef, Record, Handle}
use cert_manager_webhook_mij.Store.ConfigMaps.{load}
use cert_manager_webhook_mij.Store.Saving.{MapLaws, RoundTrips}
use cert_manager_webhook_mij.Lock.{LeaseLock}
use cert_manager_webhook_mij.World.{Log, Outside, acquired, loaded, released, saved, clocked, ◌>>=◌}
use cert_manager_webhook_mij.World.Triples.{
  Triple, Ends, Ends-ok, Triple-call_eq, Triple-bind, Triple-defer,
}
use cert_manager_webhook_mij.Records.{without}
use cert_manager_webhook_mij.Records.Desired.{
  is_fresh, presented, find_record-presented, find_record-without,
}
use cert_manager_webhook_mij.Write.{Reconciler}
use cert_manager_webhook_mij.Reconciler.{
  Request, Mutation, present_mutation, clean_up_mutation, reconcile, present, clean_up,
}
use cert_manager_webhook_mij.Reconciler.Operations.{
  present_mutation_reads, asked_record, present_mutation-eq-presented,
}
use cert_manager_webhook_mij.Pod.{System, Pod, outside_of}
use cert_manager_webhook_mij.Pod.Stored.{
  IsApart, Stored, AtStart, AtStart-clocked, LeftReleased, LeftReleased-released, load-Untouched,
  Untouched-acquired, Stored-locked, Stored-released, cluster_at,
}
use cert_manager_webhook_mij.Pod.Promises.{IsPresented, IsCleaned}

module _ {Cluster : Type 0} (sys : System Cluster) (lock : LeaseLock) (passes : ℕ) (p : Pod Cluster)
    (r : Reconciler) (maps_laws : MapLaws sys.maps) (trips : RoundTrips sys.json) where
  abbrev pub w : Outside
  w = outside_of sys lock passes p

  -- The state in the cluster behind a log.
  abbrev pub stored_state : Text → Log → Result Handle
  stored_state zone l =
      load sys.maps sys.json zone (cluster_at sys lock passes p r maps_laws trips l)

  -- The calls of a request that started with the log `l`, up to the load and up to the check of what
  -- is too old; and the times that the clock shows behind them.
  abbrev acquired_log : Text → Log → Log
  acquired_log zone l = acquired zone (w.acquire l zone) ∷ l

  abbrev pub loaded_log : Text → Log → Log
  loaded_log zone l = loaded zone (w.load (acquired_log zone l) zone) ∷ acquired_log zone l

  abbrev pub checked_at : Text → Log → ℕ
  checked_at zone l = w.now (loaded_log zone l)

  abbrev pub asked_at : Text → Log → ℕ
  asked_at zone l = w.now (clocked (checked_at zone l) ∷ loaded_log zone l)

  -- A promise about records, with the times at which a request checked their age and asked for its own.
  abbrev pub Promises : Type 1
  Promises = (checked asked : ℕ) → List Record → List Record → Type 0

  -- The state behind a log is what a request that started with an earlier one promises of the state
  -- there, at the times that its clock showed.
  abbrev pub Refines : Promises → Text → Log → Log → Type 0
  Refines Promise zone l l' =
      (before : Handle) × (after : Handle) × (stored_state zone l ≡ ok before)
      × (stored_state zone l' ≡ ok after)
      × Promise (checked_at zone l) (asked_at zone l) before.state.records after.state.records

  -- A mutation that does to every list what is promised, and reads the clock at most.
  abbrev Does : Promises → Mutation → Type 0
  Does Promise mutate =
      (recs : List Record) (checked : ℕ) (l : Log)
      → (out : List Record × List Key) × ((mutate (keep (is_fresh checked r.max_record_age) recs)
            l).0
          ≡ ok out)
        × Promise checked (w.now l) recs out.0
        × (let l' = (mutate (keep (is_fresh checked r.max_record_age) recs) l).1 in
            (l' ≡ l) ⊎ ((now : ℕ) × (l' ≡ clocked now ∷ l)))

  -- The save of a request failed, and the request ended there.
  abbrev pub SaveFailed : Text → Log → Type 0
  SaveFailed zone l =
      (h : Handle) × (e : Failure) × (older : Log) × (l ≡ released zone ∷ saved h (err e) ∷ older)

  -- How a request ends that started with the log `l`: without an error it has done what it promises;
  -- with one it has done that or nothing, unless it was its save that failed.
  abbrev pub IsAtomic : Promises → Text → Log → Result (Unit {0}) × Log → Type 0
  IsAtomic Promise zone l out =
      Ends (λ _. Refines Promise zone l)
        (λ l'.
          (stored_state zone l' ≡ stored_state zone l)
          ⊎ (Refines Promise zone l l' ⊎ SaveFailed zone l'))
        out

  module _ (Promise : Promises) (l0 : Log) (raw_zone : Text)
      (apart : IsApart sys (object_name (trim_suffix (trim_suffix raw_zone b'.') b'.'))) where
    abbrev zone : Text
    zone = trim_suffix raw_zone b'.'

    abbrev start : Cluster
    start = cluster_at sys lock passes p r maps_laws trips l0

    abbrev Good : List Record → Type 0
    Good recs =
        (before : Handle) × (stored_state zone l0 ≡ ok before)
        × Promise (checked_at zone l0) (asked_at zone l0) before.state.records recs

    abbrev Start : Log → Type 0
    Start = AtStart sys lock passes p r maps_laws trips zone apart start Good

    abbrev Kept : Log → Type 0
    Kept = Stored sys lock passes p r maps_laws trips zone apart start Good

    abbrev Ended : Log → Type 0
    Ended = LeftReleased sys lock passes p r maps_laws trips zone apart start Good zone

    Refines-Kept : (l : Log) → Kept l → Refines Promise zone l0 l
    Refines-Kept l (after, now, (before, at_start, kept)) = (before, after, at_start, now, kept)

    Start-read : (l l' : Log) → (l' ≡ l) ⊎ ((now : ℕ) × (l' ≡ clocked now ∷ l)) → Start l → Start l'
    Start-read l l' (inl same) h = rw same h
    Start-read l l' (inr (now, same)) h =
        rw same (AtStart-clocked sys lock passes p r maps_laws trips zone apart start Good now l h)

    acquired_behind :
        (answer : Log → Result (Unit {0})) (l l1 : Log) (u : Unit {0})
        → l ≡ l1
        → answer l ≡ ok u
        → acquired zone (ok u) ∷ l ≡ acquired zone (answer l1) ∷ l1
    acquired_behind answer l l1 u same e = cc (same, e)

    Kept-reconcile :
        (ref : Option SecretRef) (mutate : Mutation)
        → Does Promise mutate
        → Triple (λ l. (l ≡ l0) × Start l) (reconcile w r raw_zone ref mutate) (λ _. Kept) Ended
    unfolding reconcile
    Kept-reconcile ref mutate does =
        Triple-bind (λ _ l. (l ≡ acquired_log zone l0) × Start l) _ _
          (Triple-call_eq _ _
            (λ l u (same, k) e. (
              acquired_behind (λ k'. w.acquire k' zone) l l0 u same e,
              Untouched-acquired sys lock passes p r maps_laws trips zone apart start Good zone
                  (ok u) l k,
            ))
            (λ l e (same, k) x. inl (
              Untouched-acquired sys lock passes p r maps_laws trips zone apart start Good zone
                (err e) l k)))
          (λ _.
            Triple-defer (released zone) _
              (Stored-locked sys lock passes p r maps_laws trips zone apart start Good
                (acquired_log zone l0) ref mutate
                (λ h there. record {
                  at = λ l (at_check, k).
                      let (out, same, kept, log) = does h.state.records (checked_at zone l0) l in
                      Ends-ok (λ o. Good o.0) Start _ _ out same
                        (
                          h,
                          there,
                          subst (λ t. Promise (checked_at zone l0) t h.state.records out.0)
                              (ap w.now at_check) kept,
                        )
                        (Start-read l _ log k);
                }))
              (λ _ l k.
                Stored-released sys lock passes p r maps_laws trips zone apart start Good zone l k)
              (λ l k.
                LeftReleased-released sys lock passes p r maps_laws trips zone apart start Good zone
                  l k))

    IsAtomic-Ends :
        (out : Result (Unit {0}) × Log) → Ends (λ _. Kept) Ended out → IsAtomic Promise zone l0 out
    IsAtomic-Ends (ok u, l) h = Refines-Kept l h
    IsAtomic-Ends (err e, l) (inl untouched) =
        inl (load-Untouched sys lock passes p r maps_laws trips zone apart start Good _ untouched)
    IsAtomic-Ends (err e, l) (inr (inl kept)) = inr (inl (Refines-Kept l kept))
    IsAtomic-Ends (err e, l) (inr (inr failed)) = inr (inr failed)

    IsAtomic-reconcile :
        (ref : Option SecretRef) (mutate : Mutation)
        → Does Promise mutate
        → IsAtomic Promise zone l0 (reconcile w r raw_zone ref mutate l0)
    IsAtomic-reconcile ref mutate does =
        IsAtomic-Ends (reconcile w r raw_zone ref mutate l0)
          ((Kept-reconcile ref mutate does).at l0 (refl, refl))

  present_mutation-Does :
      (req : Request) → Does (IsPresented r.max_record_age req) (present_mutation w r req)
  present_mutation-Does req recs checked l =
      let live = keep (is_fresh checked r.max_record_age) recs in
      (
        (presented live (asked_record w r req l), []),
        present_mutation-eq-presented w r req live l,
        record { records = find_record-presented live (asked_record w r req l) },
        present_mutation_reads w r req live l,
      )

  clean_up_mutation-Does :
      (req : Request) → Does (IsCleaned r.max_record_age req) (clean_up_mutation w r req)
  unfolding clean_up_mutation ◌>>=◌
  clean_up_mutation-Does req recs checked l =
      let name = absolute_name req.name req.zone in
      let live = keep (is_fresh checked r.max_record_age) recs in
      (
        (without name req.value live, record { name = name; value = req.value } ∷ []),
        refl,
        record { records = λ n v. find_record-without name req.value n v live },
        inl refl,
      )

  -- A `Present` that returns no error has done to the ConfigMap of its zone what it promises: what was
  -- stored before it is forgotten where it was too old when the clock was read behind the load, the
  -- record that it was asked for is stored with its TTL, a new one with the time of the next reading, and
  -- every other record is stored as it was. One that returns an error has done all of that or left what
  -- is stored as it was, unless the save itself failed, and then it ended there. Only this pod writes
  -- that ConfigMap meanwhile.
  pub present-IsAtomic :
      (req : Request) (l : Log)
      → IsApart sys (object_name (trim_suffix (trim_suffix req.zone b'.') b'.'))
      → IsAtomic
          (IsPresented r.max_record_age req)
          (trim_suffix req.zone b'.')
          l
          (present w r req l)
  unfolding present
  present-IsAtomic req l apart =
      IsAtomic-reconcile (IsPresented r.max_record_age req) l req.zone apart
        (some req.api_key_secret_ref) (present_mutation w r req) (present_mutation-Does req)

  -- A `CleanUp` that returns no error has left no record of its name and its value in the ConfigMap
  -- of its zone; of the others what was too old when the clock was read behind the load is forgotten,
  -- and the rest is stored as it was. One that returns an error has done all of that or left what is
  -- stored as it was, unless the save itself failed, and then it ended there. Only this pod writes that
  -- ConfigMap meanwhile.
  pub clean_up-IsAtomic :
      (req : Request) (l : Log)
      → IsApart sys (object_name (trim_suffix (trim_suffix req.zone b'.') b'.'))
      → IsAtomic (IsCleaned r.max_record_age req) (trim_suffix req.zone b'.') l (clean_up w r req l)
  unfolding clean_up
  clean_up-IsAtomic req l apart =
      IsAtomic-reconcile (IsCleaned r.max_record_age req) l req.zone apart
        (some req.api_key_secret_ref) (clean_up_mutation w r req) (clean_up_mutation-Does req)
