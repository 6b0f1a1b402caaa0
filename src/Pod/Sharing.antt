-- ===== src/Pod/Sharing.antt =====
-- zone/reconciler.go over zone/lock.go and zone/store.go, while other pods write the same zone.
use cert_manager_webhook_mij.Prelude.{
  ℕ, true, List, [], ◌∷◌, ◌++◌, Text, keep, Option, ◌≡◌, refl, sym, ap, ◌∙◌, arith,
}
use mathlib.Core.List.{append_assoc}
use cert_manager_webhook_mij.Failure.{Result, ok, err}
use cert_manager_webhook_mij.Names.{object_name}
use cert_manager_webhook_mij.Store.{SecretRef, Record, State, Handle}
use cert_manager_webhook_mij.Store.ConfigMaps.{load, save}
use cert_manager_webhook_mij.Store.Writers.{is_ok, Attempt, name, Writes, reads, saves, elsewhere}
use cert_manager_webhook_mij.Lock.{Lease, LeaseLock, release}
use cert_manager_webhook_mij.World.{
  Event, Log, acquired, released, loaded, saved, key_read, serial_read, got, put, clocked,
}
use cert_manager_webhook_mij.Reconciler.{with_ref}
use cert_manager_webhook_mij.Records.Desired.{is_fresh}
use cert_manager_webhook_mij.Pod.{System, Pod, acquire_in, holder_of, outcome, after, replay}
use cert_manager_webhook_mij.Write.Quiet.{IsQuiet}
use cert_manager_webhook_mij.Pod.Apart.{acquired_kept, released_kept}

-- What a request makes of the state that it loaded, as one change: what is too old at the time
-- `checked` is dropped, and `f` is applied to the rest.
abbrev pub change_of : ℕ → Option SecretRef → (List Record → List Record) → ℕ → State → State
change_of age ref f checked st = record st {
  api_key_secret_ref = with_ref ref st.api_key_secret_ref;
  records = f (keep (is_fresh checked age) st.records);
}

module _ {Cluster : Type 0} (sys : System Cluster) (lock : LeaseLock) (passes : ℕ)
    (p : Pod Cluster) where
  abbrev pub cluster_at : Log → Cluster
  cluster_at l = (replay sys lock passes p l).cluster

  -- The cluster right behind a call, before others go on.
  abbrev pub right_behind : Event → Pod Cluster → Cluster
  right_behind (acquired z a) q = (acquire_in sys lock passes q.cluster z).1
  right_behind (released z) q = release sys.leases (object_name z) (holder_of z q.holders) q.cluster
  right_behind (saved h a) q = (save sys.maps sys.json h q.cluster).1
  right_behind (loaded z a) q = q.cluster
  right_behind (key_read ref a) q = q.cluster
  right_behind (serial_read z a) q = q.cluster
  right_behind (got k z a) q = q.cluster
  right_behind (put k z rs a) q = q.cluster
  right_behind (clocked t) q = q.cluster
  right_behind e q = q.cluster

  -- What other pods do to a zone behind each call of this one: they load it and save it in any order.
  -- `pool` is what they have loaded and not saved yet, and `made` what they attempt behind a call, the
  -- newest first. Leases are no part of the ConfigMap.
  pub record OthersWrite (zone : Text) : Type 0 where
    pub pool : Log → List Handle
    pub made : Event → Log → List Attempt
    pub others :
        (e : Event) (l : Log) (start : Cluster) (attempts : List Attempt) (mine : List Handle)
        → Writes sys.maps sys.json zone start attempts
            (right_behind e (replay sys lock passes p l), mine ++ pool l)
        → Writes sys.maps sys.json zone start
            (made e l ++ attempts)
            (sys.meanwhile e (right_behind e (replay sys lock passes p l)), mine ++ pool (e ∷ l))
    pub create_apart :
        (s : Cluster) (o : Lease)
        → sys.maps.get (sys.leases.create s o).1 (name sys.maps sys.json zone)
          ≡ sys.maps.get s (name sys.maps sys.json zone)
    pub update_apart :
        (s : Cluster) (o : Lease)
        → sys.maps.get (sys.leases.update s o).1 (name sys.maps sys.json zone)
          ≡ sys.maps.get s (name sys.maps sys.json zone)
    pub pause_apart :
        (s : Cluster)
        → sys.maps.get (sys.pause s).1 (name sys.maps sys.json zone)
          ≡ sys.maps.get s (name sys.maps sys.json zone)

  module _ (zone : Text) (sharing : OthersWrite zone) (start : Cluster) (before : List Attempt)
      (l0 : Log) where
    -- What others attempt behind the calls `since`, which follow the log `base`.
    abbrev pub others_in : List Event → Log → List Attempt
    others_in [] base = []
    others_in (e ∷ since) base = sharing.made e (since ++ base) ++ others_in since base

    -- All that was done to the zone since the start, and that some of the handles are this pod's.
    abbrev pub Since : (List Attempt → Log → Type 0) → List Handle → Log → Type 0
    Since Has mine l =
        (attempts : List Attempt) × Writes sys.maps sys.json zone start attempts
          (cluster_at l, mine ++ sharing.pool l)
        × Has attempts l

    -- What was attempted up to the log `l0`, and what others attempted behind it.
    abbrev pub Extends : List Attempt → Log → Type 0
    Extends attempts l =
        (since : List Event) × (l ≡ since ++ l0) × (attempts ≡ others_in since l0 ++ before)

    -- This pod's change was acknowledged in a save behind `l0`: it is attempted behind what was
    -- attempted up to `l0` and what others attempted before the save, and what others attempted since
    -- then is behind it.
    abbrev pub Landed : (State → State) → List Attempt → Log → Type 0
    Landed change attempts l =
        (newer : List Event) × (older : List Event) × (h : Handle) × (l
          ≡ newer ++ saved h (ok tt) ∷ (older ++ l0))
        × (attempts
            ≡ others_in newer (saved h (ok tt) ∷ (older ++ l0))
              ++ (sharing.made (saved h (ok tt)) (older ++ l0)
                  ++ record { mutate = change; acknowledged = true }
                    ∷ (others_in older l0 ++ before)))

    abbrev pub Lasts : (List Attempt → Log → Type 0) → Type 0
    Lasts Has =
        (e : Event) (l : Log) (attempts : List Attempt)
        → Has attempts l
        → Has (sharing.made e l ++ attempts) (e ∷ l)

    pub Lasts-Extends : Lasts Extends
    Lasts-Extends e l attempts (since, at_log, same) = (
      e ∷ since,
      ap (λ k. e ∷ k) at_log,
      rw (same, at_log)
          (sym (append_assoc (sharing.made e (since ++ l0)) (others_in since l0) before)),
    )

    pub Lasts-Landed : (change : State → State) → Lasts (Landed change)
    Lasts-Landed change e l attempts (newer, older, h, at_log, same) = (
      e ∷ newer,
      older,
      h,
      ap (λ k. e ∷ k) at_log,
      rw (same, at_log) (sym (append_assoc (sharing.made e _) (others_in newer _) _)),
    )

    -- Others go on behind a call.
    Since-behind :
        (e : Event) (l : Log) (Has : List Attempt → Log → Type 0) (mine : List Handle)
        (attempts : List Attempt)
        → Writes sys.maps sys.json zone start attempts
            (right_behind e (replay sys lock passes p l), mine ++ sharing.pool l)
        → Has (sharing.made e l ++ attempts) (e ∷ l)
        → sys.meanwhile e (right_behind e (replay sys lock passes p l)) ≡ cluster_at (e ∷ l)
        → Since Has mine (e ∷ l)
    Since-behind e l Has mine attempts w has same =
        (sharing.made e l ++ attempts, rw (← same) (sharing.others e l start attempts mine w), has)

    Since-call :
        (e : Event) (l : Log) (Has : List Attempt → Log → Type 0) (mine : List Handle)
        (attempts : List Attempt)
        → Lasts Has
        → Writes sys.maps sys.json zone start attempts
            (right_behind e (replay sys lock passes p l), mine ++ sharing.pool l)
        → Has attempts l
        → sys.meanwhile e (right_behind e (replay sys lock passes p l)) ≡ cluster_at (e ∷ l)
        → Since Has mine (e ∷ l)
    Since-call e l Has mine attempts lasts w has same =
        Since-behind e l Has mine attempts w (lasts e l attempts has) same

    module _ (Has : List Attempt → Log → Type 0) (lasts : Lasts Has) (mine : List Handle) where
      pub Since-acquired :
          (z : Text) (a : Result (Unit {0})) (l : Log)
          → Since Has mine l
          → Since Has mine (acquired z a ∷ l)
      unfolding replay after
      Since-acquired z a l (attempts, w, has) =
          Since-call (acquired z a) l Has mine attempts lasts
            (elsewhere _ w (
              acquired_kept sys.leases
                (λ s.
                  sys.maps.get s (name sys.maps sys.json zone)
                  ≡ sys.maps.get (cluster_at l) (name sys.maps sys.json zone))
                (λ s o e. sharing.create_apart s o ∙ e) (λ s o e. sharing.update_apart s o ∙ e) lock
                sys.clock sys.pause (λ s e. sharing.pause_apart s ∙ e) passes z _ (cluster_at l)
                refl))
            has refl

      pub Since-released : (z : Text) (l : Log) → Since Has mine l → Since Has mine (released z ∷ l)
      unfolding replay after
      Since-released z l (attempts, w, has) =
          Since-call (released z) l Has mine attempts lasts
            (elsewhere _ w (
              released_kept sys.leases
                (λ s.
                  sys.maps.get s (name sys.maps sys.json zone)
                  ≡ sys.maps.get (cluster_at l) (name sys.maps sys.json zone))
                (λ s o e. sharing.create_apart s o ∙ e) (λ s o e. sharing.update_apart s o ∙ e) _ _
                (cluster_at l) refl))
            has refl

      pub Since-key_read :
          (ref : SecretRef) (a : Result Text) (l : Log)
          → Since Has mine l
          → Since Has mine (key_read ref a ∷ l)
      unfolding replay after
      Since-key_read ref a l (attempts, w, has) =
          Since-call (key_read ref a) l Has mine attempts lasts w has refl

      pub Since-clocked : (t : ℕ) (l : Log) → Since Has mine l → Since Has mine (clocked t ∷ l)
      unfolding replay after
      Since-clocked t l (attempts, w, has) =
          Since-call (clocked t) l Has mine attempts lasts w has refl

      pub Since-IsQuiet : IsQuiet (Since Has mine)
      unfolding replay after
      Since-IsQuiet = record {
        serial_kept = λ z a l (attempts, w, has).
            Since-call (serial_read z a) l Has mine attempts lasts w has refl;
        got_kept = λ k z a l (attempts, w, has).
            Since-call (got k z a) l Has mine attempts lasts w has refl;
        put_kept = λ k z rs a l (attempts, w, has).
            Since-call (put k z rs a) l Has mine attempts lasts w has refl;
        clocked_kept = Since-clocked;
      }

      -- A load makes its handle one of this pod's.
      pub Since-loaded :
          (h : Handle) (l : Log)
          → load sys.maps sys.json zone (cluster_at l) ≡ ok h
          → Since Has mine l
          → Since Has (h ∷ mine) (loaded zone (ok h) ∷ l)
      unfolding replay after
      Since-loaded h l there (attempts, w, has) =
          Since-call (loaded zone (ok h)) l Has (h ∷ mine) attempts lasts (reads h w there) has refl

    outcome-is_ok : (out : Result Handle) → outcome out ≡ ok tt → is_ok out ≡ true
    outcome-is_ok (ok h) e = refl
    outcome-is_ok (err f) e = ground (arith, e)

    -- A save of what a change made of the loaded state.
    module _ (h : Handle) (st : State) (change : State → State) (made : st ≡ change h.state)
        (same_zone : (change h.state).zone ≡ h.state.zone) where
      abbrev attempted : Cluster → Attempt
      attempted s = record {
        mutate = change;
        acknowledged = is_ok (save sys.maps sys.json (record h { state = change h.state }) s).0;
      }

      pub Landed-saved :
          (l : Log)
          → outcome (save sys.maps sys.json (record h { state = st }) (cluster_at l)).0 ≡ ok tt
          → Since Extends (h ∷ []) l
          → Since (Landed change) [] (saved (record h { state = st }) (ok tt) ∷ l)
      unfolding replay after
      Landed-saved l done (attempts, w, (since, at_log, same)) =
          let accepted : is_ok
                (save sys.maps sys.json (record h { state = change h.state }) (cluster_at l)).0
              ≡ true =
            outcome-is_ok _ (rw made at done) in
          let call = saved (record h { state = st }) (ok tt) in
          Since-behind call l (Landed change) [] (attempted (cluster_at l) ∷ attempts)
            (rw made (saves [] (sharing.pool l) h change w same_zone))
            (
              [],
              since,
              record h { state = st },
              ap (λ k. call ∷ k) at_log,
              rw (accepted, same, at_log) refl,
            )
            refl
