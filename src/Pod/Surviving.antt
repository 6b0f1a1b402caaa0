-- ===== src/Pod/Surviving.antt =====
-- zone/reconciler.go: what becomes of a request while other pods write the same zone.
use cert_manager_webhook_mij.Prelude.{
  ℕ, List, [], ◌∷◌, Text, trim_suffix, Option, some, ◌≡◌, inl, refl, arith,
}
use cert_manager_webhook_mij.Failure.{Result, ok, err}
use cert_manager_webhook_mij.Names.{absolute_name}
use cert_manager_webhook_mij.Store.{SecretRef, Record, Handle}
use cert_manager_webhook_mij.Store.ConfigMaps.{load}
use cert_manager_webhook_mij.Store.Saving.{MapLaws, RoundTrips}
use cert_manager_webhook_mij.Store.Landing.{MapWriteLaws}
use cert_manager_webhook_mij.Store.Writers.{Attempt, Ran, Writes}
use cert_manager_webhook_mij.Store.Writers.Serial.{saves_are_serial}
use cert_manager_webhook_mij.Lock.{LeaseLock}
use cert_manager_webhook_mij.World.{Log, Outside, acquired, released, ◌>>=◌}
use cert_manager_webhook_mij.World.Triples.{Triple, Triple-call_eq, Triple-bind, Triple-defer}
use cert_manager_webhook_mij.Records.{without}
use cert_manager_webhook_mij.Records.Desired.{presented}
use cert_manager_webhook_mij.Write.{Reconciler}
use cert_manager_webhook_mij.Reconciler.{
  Request, Mutation, present_mutation, clean_up_mutation, reconcile, present, clean_up,
}
use cert_manager_webhook_mij.Reconciler.Operations.{
  present_mutation-eq-presented, present_mutation_reads,
}
use cert_manager_webhook_mij.Pod.{System, Pod, outside_of}
use cert_manager_webhook_mij.Pod.Promises.{asked_at}
use cert_manager_webhook_mij.Pod.Sharing.{
  cluster_at, OthersWrite, Lasts-Extends, Since-acquired, Since-released,
}
use cert_manager_webhook_mij.Pod.Following.{
  Acts, Open, Own, Lasts-Own, Done, Failed, Done-locked, Survived,
}

module _ {Cluster : Type 0} (sys : System Cluster) (lock : LeaseLock) (passes : ℕ) (p : Pod Cluster)
    (r : Reconciler) where
  abbrev pub w : Outside
  w = outside_of sys lock passes p

  module _ (raw_zone : Text) (sharing : OthersWrite sys lock passes p (trim_suffix raw_zone b'.'))
      (start : Cluster) (before : List Attempt) (l0 : Log) (ref : Option SecretRef)
      (f : ℕ → List Record → List Record) where
    abbrev zone : Text
    zone = trim_suffix raw_zone b'.'

    abbrev acquired_log : Log
    acquired_log = acquired zone (w.acquire l0 zone) ∷ l0

    acquired_behind :
        (answer : Log → Result (Unit {0})) (l : Log) (u : Unit {0})
        → l ≡ l0
        → answer l ≡ ok u
        → acquired zone (ok u) ∷ l ≡ acquired zone (answer l0) ∷ l0
    acquired_behind answer l u same e = cc (same, e)

    Done-reconcile :
        (mutate : Mutation)
        → Acts sys lock passes p r f mutate
        → Triple
            (λ l.
              (l ≡ l0)
              × Open sys lock passes p r zone sharing start before l0 acquired_log ref f [] l)
            (reconcile w r raw_zone ref mutate)
            (λ _. Done sys lock passes p r zone sharing start before l0 acquired_log ref f)
            (Failed sys lock passes p r zone sharing start before l0 acquired_log ref f)
    unfolding reconcile
    Done-reconcile mutate acts =
        Triple-bind
          (λ _ l.
            (l ≡ acquired_log)
            × Open sys lock passes p r zone sharing start before l0 acquired_log ref f [] l)
          _ _
          (Triple-call_eq _ _
            (λ l u (same, k) e. (
              acquired_behind (λ k'. w.acquire k' zone) l u same e,
              Since-acquired sys lock passes p zone sharing start before l0 _
                  (Lasts-Extends sys lock passes p zone sharing start before l0) [] zone (ok u) l k,
            ))
            (λ l e k x. tt))
          (λ _.
            Triple-defer (released zone) _
              (Done-locked sys lock passes p r zone sharing start before l0 acquired_log ref f
                mutate acts)
              (λ _ l k.
                Since-released sys lock passes p zone sharing start before l0 _
                  (Lasts-Own sys lock passes p r zone sharing start before l0 acquired_log ref f) []
                  zone l k)
              (λ l k. tt))

    Done-of :
        (out : Result (Unit {0}) × Log)
        → Survived sys lock passes p r zone sharing start before l0 acquired_log ref f out
        → out.0 ≡ ok tt
        → Done sys lock passes p r zone sharing start before l0 acquired_log ref f out.1
    Done-of (ok u, l) h e = h
    Done-of (err x, l) h e = ground (arith, e)

    -- What is stored behind the log: what the acknowledged ones of all changes, and some of the others,
    -- make of the first state, one after another. The changes are those up to `l0`, what others attempt
    -- before the save of this request, its own change, and what others attempt behind it.
    abbrev pub Survives : Handle → Log → Type 0
    Survives first l =
        (now : Handle) × (attempts : List Attempt) × (load sys.maps sys.json zone
            (cluster_at sys lock passes p l)
          ≡ ok now)
        × Ran first.state attempts now.state
        × Own sys lock passes p r zone sharing start before l0 acquired_log ref f attempts l

    module _ (maps_laws : MapLaws sys.maps) (trips : RoundTrips sys.json) (rank : Text → ℕ)
        (writes : MapWriteLaws sys.maps rank) where
      Survives-reconcile :
          (mutate : Mutation) (first : Handle)
          → Acts sys lock passes p r f mutate
          → load sys.maps sys.json zone start ≡ ok first
          → Writes sys.maps sys.json zone start before
              (cluster_at sys lock passes p l0, sharing.pool l0)
          → (reconcile w r raw_zone ref mutate l0).0 ≡ ok tt
          → Survives first (reconcile w r raw_zone ref mutate l0).1
      Survives-reconcile mutate first acts loaded ws done =
          let (attempts, ws', own) =
            Done-of (reconcile w r raw_zone ref mutate l0)
              ((Done-reconcile mutate acts).at l0 (refl, (before, ws, ([], refl, refl)))) done in
          let (now, stored, ran) =
            saves_are_serial sys.maps sys.json zone maps_laws trips rank writes first loaded ws' in
          (now, attempts, stored, ran, own)

  present_mutation-Acts :
      (req : Request)
      → Acts sys lock passes p r
          (λ asked live. presented live (asked_at req asked))
          (present_mutation w r req)
  present_mutation-Acts req live l =
      ([], present_mutation-eq-presented w r req live l, present_mutation_reads w r req live l)

  clean_up_mutation-Acts :
      (req : Request)
      → Acts sys lock passes p r
          (λ asked live. without (absolute_name req.name req.zone) req.value live)
          (clean_up_mutation w r req)
  unfolding clean_up_mutation ◌>>=◌
  clean_up_mutation-Acts req live l =
      (record { name = absolute_name req.name req.zone; value = req.value } ∷ [], refl, inl refl)

  module _ (req : Request) (sharing : OthersWrite sys lock passes p (trim_suffix req.zone b'.'))
      (start : Cluster) (before : List Attempt) (maps_laws : MapLaws sys.maps)
      (trips : RoundTrips sys.json) (rank : Text → ℕ) (writes : MapWriteLaws sys.maps rank) where
    -- A `Present` that returns no error is not lost, whatever other pods do to its zone meanwhile, with
    -- or without the lock. What is then stored is what all acknowledged changes, and some of the others,
    -- make of the state at the start, one after another: those up to its call, what the others attempt
    -- before its save, its own change at the times that its clock showed, and what the others attempt
    -- behind it. Other pods load the zone and save what they make of it; a write lands as a whole, over
    -- the version that it names, or not at all; the state at the start can be loaded.
    pub present-Survives :
        (first : Handle) (l : Log)
        → load sys.maps sys.json (trim_suffix req.zone b'.') start ≡ ok first
        → Writes sys.maps sys.json
            (trim_suffix req.zone b'.')
            start
            before
            (cluster_at sys lock passes p l, sharing.pool l)
        → (present w r req l).0 ≡ ok tt
        → Survives req.zone sharing start before l
            (some req.api_key_secret_ref)
            (λ asked live. presented live (asked_at req asked))
            first
            (present w r req l).1
    unfolding present
    present-Survives first l loaded ws done =
        Survives-reconcile req.zone sharing start before l (some req.api_key_secret_ref)
          (λ asked live. presented live (asked_at req asked)) maps_laws trips rank writes
          (present_mutation w r req) first (present_mutation-Acts req) loaded ws done

    -- The same for a `CleanUp`.
    pub clean_up-Survives :
        (first : Handle) (l : Log)
        → load sys.maps sys.json (trim_suffix req.zone b'.') start ≡ ok first
        → Writes sys.maps sys.json
            (trim_suffix req.zone b'.')
            start
            before
            (cluster_at sys lock passes p l, sharing.pool l)
        → (clean_up w r req l).0 ≡ ok tt
        → Survives req.zone sharing start before l
            (some req.api_key_secret_ref)
            (λ asked live. without (absolute_name req.name req.zone) req.value live)
            first
            (clean_up w r req l).1
    unfolding clean_up
    clean_up-Survives first l loaded ws done =
        Survives-reconcile req.zone sharing start before l (some req.api_key_secret_ref)
          (λ asked live. without (absolute_name req.name req.zone) req.value live) maps_laws trips
          rank writes (clean_up_mutation w r req) first (clean_up_mutation-Acts req) loaded ws done
