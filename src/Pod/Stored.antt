-- ===== src/Pod/Stored.antt =====
-- zone/reconciler.go over zone/lock.go and zone/store.go: what a request leaves in the cluster.
use cert_manager_webhook_mij.Prelude.{
  ℕ, List, ◌∷◌, Text, trim_suffix, Option, ◌⊎◌, inl, inr, ◌≡◌, refl, sym, ap, ◌∙◌, arith, keep,
}
use cert_manager_webhook_mij.Failure.{Failure, Result, ok, err}
use cert_manager_webhook_mij.Names.{object_name}
use cert_manager_webhook_mij.Payload.{is_empty}
use cert_manager_webhook_mij.Store.{SecretRef, Record, Handle}
use cert_manager_webhook_mij.Store.ConfigMaps.{load, save}
use cert_manager_webhook_mij.Store.Saving.{MapLaws, RoundTrips, load-save, load_zone}
use cert_manager_webhook_mij.Lock.{Lease, LeaseLock}
use cert_manager_webhook_mij.World.{
  Event, Log, Outside, acquired, released, loaded, saved, key_read, serial_read, got, put, clocked,
  ◌>>=◌,
}
use cert_manager_webhook_mij.World.Triples.{
  Triple, Triple-raise, Triple-call, Triple-call_eq, Triple-if, Triple-map, Triple-bind,
  Triple-given,
}
use cert_manager_webhook_mij.Records.Desired.{is_fresh, split_expired_lem}
use cert_manager_webhook_mij.Write.{Reconciler}
use cert_manager_webhook_mij.Reconciler.{with_ref, Mutation, drop_expired, reconcile_locked}
use cert_manager_webhook_mij.Pod.{System, Pod, outcome, after, replay, outside_of}
use cert_manager_webhook_mij.Write.Quiet.{IsQuiet, loop_kept}
use cert_manager_webhook_mij.Pod.Apart.{acquired_kept, released_kept}

-- The ConfigMap of that name changes by this pod's saves only.
pub record IsApart {Cluster : Type 0} (sys : System Cluster) (name : Text) : Type 0 where
  pub create_apart :
      (s : Cluster) (o : Lease) → sys.maps.get (sys.leases.create s o).1 name ≡ sys.maps.get s name
  pub update_apart :
      (s : Cluster) (o : Lease) → sys.maps.get (sys.leases.update s o).1 name ≡ sys.maps.get s name
  pub pause_apart : (s : Cluster) → sys.maps.get (sys.pause s).1 name ≡ sys.maps.get s name
  pub meanwhile_apart :
      (e : Event) (s : Cluster) → sys.maps.get (sys.meanwhile e s) name ≡ sys.maps.get s name

module _ {Cluster : Type 0} (sys : System Cluster) (lock : LeaseLock) (passes : ℕ) (p : Pod Cluster)
    (r : Reconciler) (maps_laws : MapLaws sys.maps) (trips : RoundTrips sys.json) where
  abbrev pub w : Outside
  w = outside_of sys lock passes p

  abbrev pub cluster_at : Log → Cluster
  cluster_at l = (replay sys lock passes p l).cluster

  module _ (zone : Text) (apart : IsApart sys (object_name (trim_suffix zone b'.')))
      (start : Cluster) (Good : List Record → Type 0) where
    abbrev pub name : Text
    name = object_name (trim_suffix zone b'.')

    -- What the ConfigMap of the zone says.
    abbrev pub Holds : Cluster → Type 0
    Holds s = (h : Handle) × (load sys.maps sys.json zone s ≡ ok h) × Good h.state.records

    Holds-same : (s s' : Cluster) → sys.maps.get s' name ≡ sys.maps.get s name → Holds s → Holds s'
    unfolding load
    Holds-same s s' same (h, e, good) = (h, rw same e, good)

    -- The ConfigMap is as it was at the start.
    abbrev pub Untouched : Cluster → Type 0
    Untouched s = sys.maps.get s name ≡ sys.maps.get start name

    pub load-Untouched :
        (s : Cluster)
        → Untouched s
        → load sys.maps sys.json zone s ≡ load sys.maps sys.json zone start
    unfolding load
    load-Untouched s same = rw same refl

    pub Untouched-acquired :
        (z : Text) (a : Result (Unit {0})) (l : Log)
        → Untouched (cluster_at l)
        → Untouched (cluster_at (acquired z a ∷ l))
    unfolding replay after
    Untouched-acquired z a l h =
        apart.meanwhile_apart (acquired z a) _
        ∙ acquired_kept sys.leases Untouched (λ s o e. apart.create_apart s o ∙ e)
            (λ s o e. apart.update_apart s o ∙ e) lock sys.clock sys.pause
            (λ s e. apart.pause_apart s ∙ e) passes z _ (cluster_at l) h

    Untouched-released :
        (z : Text) (l : Log) → Untouched (cluster_at l) → Untouched (cluster_at (released z ∷ l))
    unfolding replay after
    Untouched-released z l h =
        apart.meanwhile_apart (released z) _
        ∙ released_kept sys.leases Untouched (λ s o e. apart.create_apart s o ∙ e)
            (λ s o e. apart.update_apart s o ∙ e) _ _ (cluster_at l) h

    abbrev pub Stored : Log → Type 0
    Stored l = Holds (cluster_at l)

    Stored-meanwhile : (e : Event) (s : Cluster) → Holds s → Holds (sys.meanwhile e s)
    Stored-meanwhile e s h = Holds-same s (sys.meanwhile e s) (apart.meanwhile_apart e s) h

    Stored-IsQuiet : IsQuiet Stored
    unfolding replay after
    Stored-IsQuiet = record {
      serial_kept = λ z a l h. Stored-meanwhile (serial_read z a) _ h;
      got_kept = λ k z a l h. Stored-meanwhile (got k z a) _ h;
      put_kept = λ k z rs a l h. Stored-meanwhile (put k z rs a) _ h;
      clocked_kept = λ t l h. Stored-meanwhile (clocked t) _ h;
    }

    Stored-key_read :
        (ref : SecretRef) (a : Result Text) (l : Log) → Stored l → Stored (key_read ref a ∷ l)
    unfolding replay after
    Stored-key_read ref a l h = Stored-meanwhile (key_read ref a) _ h

    pub Stored-released : (z : Text) (l : Log) → Stored l → Stored (released z ∷ l)
    unfolding replay after
    Stored-released z l h =
        let s = cluster_at l in
        Stored-meanwhile (released z) _ (
          Holds-same s _
            (released_kept sys.leases (λ s'. sys.maps.get s' name ≡ sys.maps.get s name)
              (λ s' o e. apart.create_apart s' o ∙ e) (λ s' o e. apart.update_apart s' o ∙ e) _ _ s
              refl)
            h)

    outcome_ok :
        (x : Result Handle × Cluster) → outcome x.0 ≡ ok tt → (h : Handle) × (x ≡ (ok h, x.1))
    outcome_ok (ok h, s) e = (h, refl)
    outcome_ok (err f, s) e = ground (arith, e)

    Stored-saved :
        (h : Handle) (l : Log)
        → h.state.zone ≡ trim_suffix zone b'.'
        → Good h.state.records
        → outcome (save sys.maps sys.json h (cluster_at l)).0 ≡ ok tt
        → Stored (saved h (ok tt) ∷ l)
    unfolding replay after
    Stored-saved h l named good done =
        let (h', e) = outcome_ok (save sys.maps sys.json h (cluster_at l)) done in
        Stored-meanwhile (saved h (ok tt)) _ (
          _,
          load-save sys.maps sys.json maps_laws trips h h' (cluster_at l) _ zone
              (ap object_name (sym named)) e,
          good,
        )

    -- The ConfigMap is as at the start, or as it should be, or a save of it has just failed, which may
    -- have changed it or not.
    abbrev pub Left : Log → Type 0
    Left l =
        Untouched (cluster_at l)
        ⊎ (Stored l
            ⊎ ((h : Handle) × (e : Failure) × (older : Log) × (l ≡ saved h (err e) ∷ older)))

    abbrev pub LeftReleased : Text → Log → Type 0
    LeftReleased z l =
        Untouched (cluster_at l)
        ⊎ (Stored l
            ⊎ ((h : Handle) × (e : Failure) × (older : Log) × (l
                  ≡ released z ∷ saved h (err e) ∷ older)))

    abbrev pub AtStart : Log → Type 0
    AtStart l = Untouched (cluster_at l)

    -- The log behind the load of a request.
    abbrev pub loaded_log : Log → Log
    loaded_log l1 = loaded zone (w.load l1 zone) ∷ l1

    pub LeftReleased-released : (z : Text) (l : Log) → Left l → LeftReleased z (released z ∷ l)
    LeftReleased-released z l (inl untouched) = inl (Untouched-released z l untouched)
    LeftReleased-released z l (inr (inl stored)) = inr (inl (Stored-released z l stored))
    LeftReleased-released z l (inr (inr (h, e, older, same))) =
        inr (inr (h, e, older, ap (λ l'. released z ∷ l') same))

    -- Out of what was stored at the start, less what is too old when the clock is read behind the load,
    -- the mutation makes good records, and it leaves the ConfigMap alone.
    abbrev pub Makes : Log → Mutation → Type 0
    Makes l1 mutate =
        (h : Handle)
        → load sys.maps sys.json zone start ≡ ok h
        → Triple (λ l. (l ≡ clocked (w.now (loaded_log l1)) ∷ loaded_log l1) × AtStart l)
            (mutate (keep (is_fresh (w.now (loaded_log l1)) r.max_record_age) h.state.records))
            (λ out l. Good out.0 × AtStart l) Left

    pub AtStart-clocked : (t : ℕ) (l : Log) → AtStart l → AtStart (clocked t ∷ l)
    unfolding replay after
    AtStart-clocked t l h = apart.meanwhile_apart (clocked t) _ ∙ h

    AtStart-loaded : (z : Text) (a : Result Handle) (l : Log) → AtStart l → AtStart (loaded z a ∷ l)
    unfolding replay after
    AtStart-loaded z a l h = apart.meanwhile_apart (loaded z a) _ ∙ h

    expiry_ends :
        (l2 : Log) (recs : List Record)
        → Triple
            (λ l. (l ≡ l2) × AtStart l)
            (drop_expired w r recs)
            (λ live l.
              (live ≡ keep (is_fresh (w.now l2) r.max_record_age) recs)
              × ((l ≡ clocked (w.now l2) ∷ l2) × AtStart l))
            Left
    unfolding drop_expired ◌>>=◌
    expiry_ends l2 recs = record {
      at = λ l (same, h). (
        split_expired_lem (w.now l) r.max_record_age recs
            ∙ ap (λ k. keep (is_fresh (w.now k) r.max_record_age) recs) same,
        (ap (λ k. clocked (w.now k) ∷ k) same, AtStart-clocked (w.now l) l h),
      );
    }

    live_ends :
        (l1 : Log) (mutate : Mutation) (h : Handle) (live : List Record)
        → Makes l1 mutate
        → load sys.maps sys.json zone start ≡ ok h
        → live ≡ keep (is_fresh (w.now (loaded_log l1)) r.max_record_age) h.state.records
        → Triple
            (λ l. (l ≡ clocked (w.now (loaded_log l1)) ∷ loaded_log l1) × AtStart l)
            (mutate live)
            (λ out l. Good out.0 × AtStart l)
            Left
    live_ends l1 mutate h live makes there e = rw e (makes h there)

    loaded_behind :
        (answer : Log → Result Handle) (l l1 : Log) (h : Handle)
        → l ≡ l1
        → answer l ≡ ok h
        → loaded zone (ok h) ∷ l ≡ loaded zone (answer l1) ∷ l1
    loaded_behind answer l l1 h same e = cc (same, e)

    pub Stored-locked :
        (l1 : Log) (ref : Option SecretRef) (mutate : Mutation)
        → Makes l1 mutate
        → Triple
            (λ l. (l ≡ l1) × AtStart l)
            (reconcile_locked w r zone ref mutate)
            (λ _. Stored)
            Left
    unfolding reconcile_locked outside_of
    Stored-locked l1 ref mutate makes =
        Triple-bind
          (λ h l.
            ((h.state.zone ≡ trim_suffix zone b'.') × (load sys.maps sys.json zone start ≡ ok h))
            × ((l ≡ loaded_log l1) × AtStart l))
          _ _
          (Triple-call_eq _ _
            (λ l h (same, k) e. (
              (load_zone sys.maps sys.json maps_laws zone _ h e, sym (load-Untouched _ k) ∙ e),
              (loaded_behind (λ k'. w.load k' zone) l l1 h same e, AtStart-loaded _ (ok h) l k),
            ))
            (λ l e (same, k) x. inl (AtStart-loaded _ (err e) l k)))
          (λ h. Triple-given _ (λ (named, at_start).
            Triple-if (is_empty (with_ref ref h.state.api_key_secret_ref).name) _ _
              (λ _. Triple-raise _ (λ l k. inl k.1))
              (λ _. Triple-bind _ _ _ (expiry_ends (loaded_log l1) h.state.records) (λ live.
                Triple-given _ (λ expired.
                  Triple-bind (λ out l. Good out.0 × AtStart l) _ _
                    (live_ends l1 mutate h live makes at_start expired)
                    (λ (records, remove). Triple-given _ (λ good.
                      Triple-bind (λ _. Stored) _ _
                        (Triple-call_eq _ _ (λ l u k e. Stored-saved _ l named good e)
                          (λ l e k x. inr (inr (_, e, l, refl))))
                        (λ u.
                          Triple-bind (λ _. Stored) _ _
                            (Triple-call _ _ (λ l key k. Stored-key_read _ (ok key) l k)
                              (λ l e k. inr (inl (Stored-key_read _ (err e) l k))))
                            (λ api_key.
                              Triple-map _
                                (loop_kept w r Stored Stored-IsQuiet r.max_write_attempts api_key
                                  zone _ remove)
                                (λ l k. k) (λ a l k. k) (λ l k. inr (inl k)))))))))))
