-- ===== src/Reconciler/Progress.antt =====
-- zone/reconciler.go: the operations return without an error where the outside answers and nobody else
-- writes the zones.
use mathlib.Core.Path.{subst}
use cert_manager_webhook_mij.Prelude.{
  ℕ, ◌+◌, ◌≤◌, ◌==◌, ◌≡◌, refl, sym, ap, ◌∙◌, false, not, ◌&&◌, arith, List, [], ◌∷◌, All, Text,
  trim_suffix, Option, none, some,
}
use cert_manager_webhook_mij.Failure.{Failure, Result, ok, err, ok_injective}
use cert_manager_webhook_mij.Mijnhost.{DnsRecord}
use cert_manager_webhook_mij.Names.{absolute_name}
use cert_manager_webhook_mij.Payload.{is_empty}
use cert_manager_webhook_mij.Store.{SecretRef, Record, Handle}
use cert_manager_webhook_mij.World.{Log, Outside, clocked, released}
use cert_manager_webhook_mij.World.Triples.{
  Triple, Ends, Triple-pure, Triple-raise, Triple-call_eq, Triple-tell, Triple-if, Triple-map,
  Triple-bind, Triple-defer, Triple-try,
}
use cert_manager_webhook_mij.Records.{retime}
use cert_manager_webhook_mij.Write.{Reconciler}
use cert_manager_webhook_mij.Write.Progress.{Any, Never, IsQuiet, write_loop_succeeds}
use cert_manager_webhook_mij.Reconciler.{
  with_ref, Request, Mutation, present_mutation, clean_up_mutation, sweep_mutation, drop_expired,
  reconcile_locked, reconcile, present, clean_up, sweep_zones, sweep,
}

-- What the outside answers: locks are free, states can be loaded and saved, and keys can be read.
pub record Answers (w : Outside) (stored : Text → Handle) (zones : List Text) : Type 0 where
  pub locks : (l : Log) (zone : Text) → w.acquire l zone ≡ ok tt
  pub loads : (l : Log) (zone : Text) → w.load l zone ≡ ok (stored zone)
  pub saves : (l : Log) (h : Handle) → w.save l h ≡ ok tt
  pub keys : (l : Log) (ref : SecretRef) → (key : Text) × (w.api_key l ref ≡ ok key)
  pub lists : (l : Log) → w.list_zones l ≡ ok zones

-- An answer is not an error too.
no_error {ℓ} : {A : Type ℓ} (o : Result A) (a : A) (x : Failure) → o ≡ ok a → ¬ (o ≡ err x)
no_error o a x good bad = ground (arith, good, bad)

module _ (w : Outside) (r : Reconciler) (serial : Text → ℕ) (current : Text → List DnsRecord)
    (stored : Text → Handle) (zones : List Text) (quiet : IsQuiet w serial current)
    (answers : Answers w stored zones) (ask : (r.serial_required && not r.has_serial) ≡ false)
    (attempts : 1 ≤ r.max_write_attempts) where
  abbrev Succeeds {ℓ} : {A : Type ℓ} → (Log → Result A × Log) → Type ℓ
  Succeeds m = Triple Any m (λ _. Any) Never

  Succeeds-present_mutation :
      (req : Request) (recs : List Record) → Succeeds (present_mutation w r req recs)
  unfolding present_mutation
  Succeeds-present_mutation req recs =
      Triple-if (retime (absolute_name req.name req.zone) req.value req.ttl recs).1 _ _
        (λ _. Triple-pure _ (λ l h. h))
        (λ _.
          Triple-bind (λ _. Any) _ _ (Triple-tell w.now clocked (λ l t h. h))
            (λ now. Triple-pure _ (λ l h. h)))

  Succeeds-drop_expired : (recs : List Record) → Succeeds (drop_expired w r recs)
  unfolding drop_expired
  Succeeds-drop_expired recs =
      Triple-bind (λ _. Any) _ _ (Triple-tell w.now clocked (λ l t h. h))
        (λ now. Triple-pure _ (λ l h. h))

  Succeeds-reconcile_locked :
      (zone : Text) (ref : Option SecretRef) (mutate : Mutation)
      → is_empty (with_ref ref (stored zone).state.api_key_secret_ref).name ≡ false
      → ((recs : List Record) → Succeeds (mutate recs))
      → Succeeds (reconcile_locked w r zone ref mutate)
  unfolding reconcile_locked
  Succeeds-reconcile_locked zone ref mutate named mutates =
      Triple-bind (λ h _. h ≡ stored zone) _ _
        (Triple-call_eq _ _ (λ l h _ e. ground (arith, e, answers.loads l zone))
          (λ l x _ e. ground (arith, e, answers.loads l zone)))
        (λ h.
          Triple-if (is_empty (with_ref ref h.state.api_key_secret_ref).name) _ _
            (λ nameless. Triple-raise _ (λ l same. ground (
              arith,
              nameless,
              named,
              ap (λ k. is_empty (with_ref ref k.state.api_key_secret_ref).name) same,
            )))
            (λ _.
              Triple-bind (λ _. Any) _ _
                (Triple-map _ (Succeeds-drop_expired h.state.records) (λ l k. tt) (λ a l k. k)
                  (λ l k. k))
                (λ live.
                  Triple-bind (λ _. Any) _ _ (mutates live)
                    (λ (records, remove).
                      Triple-bind (λ _. Any) _ _
                        (Triple-call_eq _ _ (λ l u k e. tt)
                          (λ l x k e. no_error _ _ x (answers.saves l _) e))
                        (λ u.
                          Triple-bind (λ _. Any) _ _
                            (Triple-call_eq _ _ (λ l key k e. tt)
                              (λ l x k e.
                                no_error _ _ x
                                  (answers.keys l (with_ref ref h.state.api_key_secret_ref)).1 e))
                            (λ api_key.
                              write_loop_succeeds w r serial current quiet zone api_key _ remove ask
                                r.max_write_attempts attempts))))))

  Succeeds-reconcile :
      (zone : Text) (ref : Option SecretRef) (mutate : Mutation)
      → is_empty (with_ref ref (stored (trim_suffix zone b'.')).state.api_key_secret_ref).name
        ≡ false
      → ((recs : List Record) → Succeeds (mutate recs))
      → Succeeds (reconcile w r zone ref mutate)
  unfolding reconcile
  Succeeds-reconcile raw_zone ref mutate named mutates =
      let zone = trim_suffix raw_zone b'.' in
      Triple-bind (λ _. Any) _ _
        (Triple-call_eq _ _ (λ l u h e. tt) (λ l x h e. no_error _ _ x (answers.locks l zone) e))
        (λ _.
          Triple-defer (released zone) _ (Succeeds-reconcile_locked zone ref mutate named mutates)
            (λ _ l h. h) (λ l h. h))

  -- The next zones of a loop that has counted no failure.
  count_on :
      (todo : List Text)
      → Triple Any (sweep_zones w r todo 0) (λ n _. n ≡ 0) Never
      → (outcome : Result (Unit {0}))
      → Triple
          (λ _. outcome ≡ ok tt)
          (sweep_zones w r todo (elim outcome [ ok _ ↦ 0 | err _ ↦ 0 + 1 ]))
          (λ n _. n ≡ 0)
          Never
  count_on todo rest (ok u) = Triple-map _ rest (λ l h. tt) (λ n l h. h) (λ l h. h)
  count_on todo rest (err e) = record { at = λ l h. absurd (cc h) }

  abbrev AreNamed : List Text → Type 0
  AreNamed = All (λ z. is_empty (stored (trim_suffix z b'.')).state.api_key_secret_ref.name ≡ false)

  -- The loop over zones whose states name a secret counts no failure.
  Succeeds-sweep_zones :
      (todo : List Text) → AreNamed todo → Triple Any (sweep_zones w r todo 0) (λ n _. n ≡ 0) Never
  unfolding sweep_zones
  Succeeds-sweep_zones [] named = Triple-pure 0 (λ l h. refl)
  Succeeds-sweep_zones (zone ∷ todo) (named, rest) =
      Triple-bind (λ out _. out ≡ ok tt) _ _
        (Triple-try _ (Succeeds-reconcile zone none (sweep_mutation w r) named swept)
          (λ u l h. refl) (λ e l h. absurd h))
        (count_on todo (Succeeds-sweep_zones todo rest))
    where
      swept : (recs : List Record) → Succeeds (sweep_mutation w r recs)
      swept recs = unfold sweep_mutation in Triple-pure _ (λ l h. h)

  Succeeds-sweep : AreNamed zones → Succeeds (sweep w r)
  unfolding sweep
  Succeeds-sweep named =
      Triple-bind (λ found _. found ≡ zones) _ _
        (Triple-call_eq _ _ (λ l found h e. found_of l found e)
          (λ l x h e. no_error _ _ x (answers.lists l) e))
        (λ found. record {
          at = λ l same.
              (Triple-bind {P = Any} (λ n _. n ≡ 0) _ _
                  (Succeeds-sweep_zones found (subst AreNamed (sym same) named))
                  (λ failed.
                    Triple-if (failed == 0) _ _ (λ _. Triple-pure tt (λ k h. tt))
                      (λ some_failed. Triple-raise _ (λ k h. ground (arith, some_failed, h))))).at
                l tt;
        })
    where
      found_of : (l : Log) (found : List Text) → w.list_zones l ≡ ok found → found ≡ zones
      found_of l found e = ok_injective found zones (sym e ∙ answers.lists l)

  ok_of : (out : Result (Unit {0}) × Log) → Ends (λ _. Any) Never out → out.0 ≡ ok tt
  ok_of (ok u, l) h = refl
  ok_of (err e, l) h = absurd h

  -- Where locks are free, states are loaded and saved, keys are read, serials stay, zones are read and
  -- PUTs taken, a Present and a CleanUp of a request that names a secret return without an error, and
  -- so does a Sweep, if each zone that is listed has a state that names one. A serial can be read
  -- where it is required, and one attempt at least is allowed.
  pub operations_succeed :
      (req : Request)
      → is_empty req.api_key_secret_ref.name ≡ false
      → All
          (λ z. is_empty (stored (trim_suffix z b'.')).state.api_key_secret_ref.name ≡ false)
          zones
      → (l : Log)
      → ((present w r req l).0 ≡ ok tt)
        × ((clean_up w r req l).0 ≡ ok tt)
        × ((sweep w r l).0 ≡ ok tt)
  unfolding present clean_up clean_up_mutation
  operations_succeed req named all_named l = (
    ok_of _ (
        (Succeeds-reconcile req.zone (some req.api_key_secret_ref) _ named
            (Succeeds-present_mutation req)).at
          l tt),
    ok_of _ (
        (Succeeds-reconcile req.zone (some req.api_key_secret_ref) _ named
            (λ recs. Triple-pure _ (λ k h. h))).at
          l tt),
    ok_of _ ((Succeeds-sweep all_named).at l tt),
  )
