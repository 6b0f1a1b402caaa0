-- ===== src/Pod/Following.antt =====
-- zone/reconciler.go: the steps of a request while other pods write the same zone.
use cert_manager_webhook_mij.Prelude.{
  ℕ, List, [], ◌∷◌, Text, keep, Option, ◌≡◌, ◌⊎◌, inl, inr, refl, ap, ◌∙◌,
}
use cert_manager_webhook_mij.Failure.{Result, ok}
use cert_manager_webhook_mij.Payload.{Key, is_empty}
use cert_manager_webhook_mij.Store.{SecretRef, Record, State, Handle}
use cert_manager_webhook_mij.Store.Writers.{Attempt}
use cert_manager_webhook_mij.Lock.{LeaseLock}
use cert_manager_webhook_mij.World.{Log, Outside, loaded, clocked, ◌>>=◌}
use cert_manager_webhook_mij.World.Triples.{
  Triple, Ends, Ends-ok, Triple-raise, Triple-call, Triple-call_eq, Triple-if, Triple-map,
  Triple-bind, Triple-given,
}
use cert_manager_webhook_mij.Records.Desired.{is_fresh, split_expired_lem}
use cert_manager_webhook_mij.Write.{Reconciler}
use cert_manager_webhook_mij.Write.Quiet.{loop_kept}
use cert_manager_webhook_mij.Reconciler.{with_ref, Mutation, drop_expired, reconcile_locked}
use cert_manager_webhook_mij.Pod.{System, Pod, outside_of}
use cert_manager_webhook_mij.Pod.Sharing.{
  change_of, OthersWrite, Since, Extends, Landed, Lasts, Lasts-Extends, Lasts-Landed,
  Since-key_read, Since-clocked, Since-IsQuiet, Since-loaded, Landed-saved,
}

module _ {Cluster : Type 0} (sys : System Cluster) (lock : LeaseLock) (passes : ℕ) (p : Pod Cluster)
    (r : Reconciler) where
  abbrev pub w : Outside
  w = outside_of sys lock passes p

  -- A mutation that applies `f` at the time that the clock shows, and reads the clock at most.
  abbrev pub Acts : (ℕ → List Record → List Record) → Mutation → Type 0
  Acts f mutate =
      (live : List Record) (l : Log)
      → (rest : List Key) × ((mutate live l).0 ≡ ok (f (w.now l) live, rest))
        × (((mutate live l).1 ≡ l) ⊎ ((now : ℕ) × ((mutate live l).1 ≡ clocked now ∷ l)))

  -- A request that started with the log `l0` and had acquired its lock at `l1`.
  module _ (zone : Text) (sharing : OthersWrite sys lock passes p zone) (start : Cluster)
      (before : List Attempt) (l0 l1 : Log) (ref : Option SecretRef)
      (f : ℕ → List Record → List Record) where
    abbrev pub Open : List Handle → Log → Type 0
    Open =
        Since sys lock passes p zone sharing start before l0
          (Extends sys lock passes p zone sharing start before l0)

    -- The log behind the load, and the times that the clock shows there and behind the next reading.
    abbrev pub loaded_log : Log
    loaded_log = loaded zone (w.load l1 zone) ∷ l1

    abbrev pub checked_at : ℕ
    checked_at = w.now loaded_log

    abbrev pub checked_log : Log
    checked_log = clocked checked_at ∷ loaded_log

    -- The change of this request, at these times.
    abbrev pub own_change : State → State
    own_change = change_of r.max_record_age ref (f (w.now checked_log)) checked_at

    abbrev pub Own : List Attempt → Log → Type 0
    Own = Landed sys lock passes p zone sharing start before l0 own_change

    pub Lasts-Own : Lasts sys lock passes p zone sharing start before l0 Own
    Lasts-Own = Lasts-Landed sys lock passes p zone sharing start before l0 own_change

    abbrev pub Done : Log → Type 0
    Done = Since sys lock passes p zone sharing start before l0 Own []

    -- Nothing is said of requests that fail.
    abbrev pub Failed : Log → Type 0
    Failed l = Unit

    Open-clocked : (mine : List Handle) (t : ℕ) (l : Log) → Open mine l → Open mine (clocked t ∷ l)
    Open-clocked mine t l h =
        Since-clocked sys lock passes p zone sharing start before l0 _
          (Lasts-Extends sys lock passes p zone sharing start before l0) mine t l h

    Open-read :
        (mine : List Handle) (l l' : Log)
        → (l' ≡ l) ⊎ ((now : ℕ) × (l' ≡ clocked now ∷ l))
        → Open mine l
        → Open mine l'
    Open-read mine l l' (inl same) h = rw same h
    Open-read mine l l' (inr (now, same)) h = rw same (Open-clocked mine now l h)

    live_ends :
        (mine : List Handle) (recs : List Record)
        → Triple
            (λ l. (l ≡ loaded_log) × Open mine l)
            (drop_expired w r recs)
            (λ live l.
              (live ≡ keep (is_fresh checked_at r.max_record_age) recs)
              × ((l ≡ checked_log) × Open mine l))
            Failed
    unfolding drop_expired ◌>>=◌
    live_ends mine recs = record {
      at = λ l (same, h). (
        split_expired_lem (w.now l) r.max_record_age recs
            ∙ ap (λ k. keep (is_fresh (w.now k) r.max_record_age) recs) same,
        (ap (λ k. clocked (w.now k) ∷ k) same, Open-clocked mine (w.now l) l h),
      );
    }

    made_ends :
        (mine : List Handle) (mutate : Mutation) (live : List Record)
        → Acts f mutate
        → Triple
            (λ l. (l ≡ checked_log) × Open mine l)
            (mutate live)
            (λ out l. (out.0 ≡ f (w.now checked_log) live) × Open mine l)
            Failed
    made_ends mine mutate live acts = record {
      at = λ l (at_check, h).
          let (rest, same, log) = acts live l in
          Ends-ok (λ out. out.0 ≡ f (w.now checked_log) live) (Open mine) Failed (mutate live l) _
            same (ap (λ k. f (w.now k) live) at_check) (Open-read mine l _ log h);
    }

    made_state :
        (h : Handle) (records live : List Record)
        → live ≡ keep (is_fresh checked_at r.max_record_age) h.state.records
        → records ≡ f (w.now checked_log) live
        → record (h.state) {
          api_key_secret_ref = with_ref ref h.state.api_key_secret_ref;
          records = records;
        }
          ≡ own_change h.state
    made_state h records live e e' = rw (e', e) refl

    loaded_behind :
        (answer : Log → Result Handle) (l : Log) (h : Handle)
        → l ≡ l1
        → answer l ≡ ok h
        → loaded zone (ok h) ∷ l ≡ loaded zone (answer l1) ∷ l1
    loaded_behind answer l h same e = cc (same, e)

    pub Done-locked :
        (mutate : Mutation)
        → Acts f mutate
        → Triple
            (λ l. (l ≡ l1) × Open [] l)
            (reconcile_locked w r zone ref mutate)
            (λ _. Done)
            Failed
    unfolding reconcile_locked outside_of
    Done-locked mutate acts =
        Triple-bind (λ h l. (l ≡ loaded_log) × Open (h ∷ []) l) _ _
          (Triple-call_eq _ _
            (λ l h (same, k) e. (
              loaded_behind (λ k'. w.load k' zone) l h same e,
              Since-loaded sys lock passes p zone sharing start before l0 _
                  (Lasts-Extends sys lock passes p zone sharing start before l0) [] h l e k,
            ))
            (λ l e k x. tt))
          (λ h.
            Triple-if (is_empty (with_ref ref h.state.api_key_secret_ref).name) _ _
              (λ _. Triple-raise _ (λ l k. tt))
              (λ _. Triple-bind _ _ _ (live_ends (h ∷ []) h.state.records) (λ live.
                Triple-given _ (λ expired.
                  Triple-bind _ _ _ (made_ends (h ∷ []) mutate live acts) (λ (records, remove).
                    Triple-given _ (λ made.
                      Triple-bind (λ _. Done) _ _
                        (Triple-call_eq _ _
                          (λ l u k e.
                            Landed-saved sys lock passes p zone sharing start before l0 h _
                              own_change (made_state h records live expired made) refl l e k)
                          (λ l e k x. tt))
                        (λ u.
                          Triple-bind (λ _. Done) _ _
                            (Triple-call _ _
                              (λ l key k.
                                Since-key_read sys lock passes p zone sharing start before l0 Own
                                  Lasts-Own [] _ (ok key) l k)
                              (λ l e k. tt))
                            (λ api_key.
                              Triple-map _
                                (loop_kept w r Done
                                  (Since-IsQuiet sys lock passes p zone sharing start before l0 Own
                                    Lasts-Own [])
                                  r.max_write_attempts api_key zone _ remove)
                                (λ l k. k) (λ a l k. k) (λ l k. tt)))))))))

    abbrev pub Survived : Result (Unit {0}) × Log → Type 0
    Survived out = Ends (λ _. Done) Failed out
