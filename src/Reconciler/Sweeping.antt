-- ===== src/Reconciler/Sweeping.antt =====
-- zone/reconciler.go: what a `Sweep` has done when it returns no error.
use cert_manager_webhook_mij.Prelude.{
  ℕ, ◌+◌, ◌≤◌, ◌==◌, List, [], ◌∷◌, ◌++◌, Text, trim_suffix, All, none, ◌≡◌, refl, sym, ap, ◌∙◌,
  arith,
}
use cert_manager_webhook_mij.Failure.{Result, ok, err, ok_injective}
use cert_manager_webhook_mij.Payload.{is_empty}
use cert_manager_webhook_mij.World.{Event, Log, Outside, released}
use cert_manager_webhook_mij.World.Triples.{
  Triple, Ends, Triple-pure, Triple-raise, Triple-call, Triple-call_eq, Triple-tell, Triple-if,
  Triple-map, Triple-and, Triple-bind, Triple-try, Triple-defer,
}
use cert_manager_webhook_mij.Write.{Reconciler}
use cert_manager_webhook_mij.Write.Outcome.{puts}
use cert_manager_webhook_mij.Write.Quiet.{loop_kept}
use cert_manager_webhook_mij.Reconciler.{
  with_ref, sweep_mutation, drop_expired, reconcile_locked, reconcile, sweep_zones, sweep,
}
use cert_manager_webhook_mij.Reconciler.Outcome.{Served, Served-reconcile}

-- At some point of the log the zone was served.
pub record WasServed (r : Reconciler) (zone : Text) (l : Log) : Type 0 where
  pub then : Log
  pub since : Log
  pub split : l ≡ since ++ then
  pub served : Served r zone then

abbrev IsLasting : (Log → Type 0) → Type 0
IsLasting P = (e : Event) (l : Log) → P l → P (e ∷ l)

WasServed-IsLasting : (r : Reconciler) (zone : Text) → IsLasting (WasServed r zone)
WasServed-IsLasting r zone e l h = record {
  then = h.then;
  since = e ∷ h.since;
  split = ap (λ l'. e ∷ l') h.split;
  served = h.served;
}

module _ (w : Outside) (r : Reconciler) where
  -- What holds of longer logs too is kept by an operation on a zone.
  lasting_locked :
      (P : Log → Type 0) (lasting : IsLasting P) (zone : Text)
      → Triple P (reconcile_locked w r zone none (sweep_mutation w r)) (λ _. P) P
  unfolding reconcile_locked drop_expired sweep_mutation
  lasting_locked P lasting zone =
      Triple-bind (λ _. P) _ _ (Triple-call _ _ (λ l h k. lasting _ l k) (λ l e k. lasting _ l k))
        (λ h.
          Triple-if (is_empty (with_ref none h.state.api_key_secret_ref).name) _ _
            (λ _. Triple-raise _ (λ l k. k))
            (λ _.
              Triple-bind (λ _. P) _ _
                (Triple-bind (λ _. P) _ _ (Triple-tell _ _ (λ l t k. lasting _ l k))
                  (λ now. Triple-pure _ (λ l k. k)))
                (λ live.
                  Triple-bind (λ _. P) _ _ (Triple-pure _ (λ l k. k))
                    (λ (records, remove).
                      Triple-bind (λ _. P) _ _
                        (Triple-call _ _ (λ l u k. lasting _ l k) (λ l e k. lasting _ l k))
                        (λ u.
                          Triple-bind (λ _. P) _ _
                            (Triple-call _ _ (λ l key k. lasting _ l k) (λ l e k. lasting _ l k))
                            (λ api_key.
                              loop_kept w r P
                                (record {
                                  serial_kept = λ z a l k. lasting _ l k;
                                  got_kept = λ key z a l k. lasting _ l k;
                                  put_kept = λ key z rs a l k. lasting _ l k;
                                  clocked_kept = λ t l k. lasting _ l k;
                                })
                                r.max_write_attempts api_key zone _ remove))))))

  abbrev visit : Text → Log → Result (Unit {0}) × Log
  visit zone = reconcile w r zone none (sweep_mutation w r)

  lasting_visit :
      (P : Log → Type 0) → IsLasting P → (zone : Text) → Triple P (visit zone) (λ _. P) P
  unfolding reconcile
  lasting_visit P lasting raw_zone =
      let zone = trim_suffix raw_zone b'.' in
      Triple-bind (λ _. P) _ _ (Triple-call _ _ (λ l u k. lasting _ l k) (λ l e k. lasting _ l k))
        (λ _.
          Triple-defer (released zone) _ (lasting_locked P lasting zone) (λ _ l k. lasting _ l k)
            (λ l k. lasting _ l k))

  served_visit :
      (zone : Text)
      → Triple
          (λ _. Unit {0})
          (visit zone)
          (λ _. WasServed r (trim_suffix zone b'.'))
          (λ _. Unit {0})
  unfolding sweep_mutation
  served_visit zone = record {
    at = λ l _.
        (Triple-map _
            (Served-reconcile w r (puts l) zone none (sweep_mutation w r)
              (λ n recs. Triple-pure _ (λ l' k. k)))
            (λ l' k. k)
            (λ u l' (few, served). record { then = l'; since = []; split = refl; served = served })
            (λ l' k. tt)).at
          l refl;
  }

  abbrev ServedAll : List Text → Log → Type 0
  ServedAll zones l = All (λ z. WasServed r (trim_suffix z b'.') l) zones

  -- The loop over the zones counts each one that it did not serve.
  abbrev Counts : List Text → ℕ → (Log → Type 0) → Type 0
  Counts zones failed P =
      Triple P (sweep_zones w r zones failed)
        (λ n l. P l × (failed ≤ n) × (n ≡ failed → ServedAll zones l)) (λ _. Unit {0})

  Counts-next :
      (zone : Text) (zones : List Text) (failed : ℕ) (P : Log → Type 0)
      → IsLasting P
      → ((n : ℕ) (P' : Log → Type 0) → IsLasting P' → Counts zones n P')
      → (outcome : Result (Unit {0}))
      → Triple
          (λ l. P l × (outcome ≡ ok tt → WasServed r (trim_suffix zone b'.') l))
          (sweep_zones w r zones (elim outcome [ ok _ ↦ failed | err _ ↦ failed + 1 ]))
          (λ n l. P l × (failed ≤ n) × (n ≡ failed → ServedAll (zone ∷ zones) l))
          (λ _. Unit {0})
  Counts-next zone zones failed P lasting others (ok u) =
      Triple-map _
        (others failed (λ l. P l × WasServed r (trim_suffix zone b'.') l)
          (λ e l h. (lasting e l h.0, WasServed-IsLasting r _ e l h.1)))
        (λ l h. (h.0, h.1 refl))
        (λ n l ((h, served), more, rest). (h, more, λ same. (served, rest same))) (λ l h. h)
  Counts-next zone zones failed P lasting others (err f) =
      Triple-map _ (others (failed + 1) P lasting) (λ l h. h.0)
        (λ n l (h, more, rest). (h, omega arith, λ same. absurd (ground (arith, more, same))))
        (λ l h. h)

  Counts-zones :
      (zones : List Text) (failed : ℕ) (P : Log → Type 0) → IsLasting P → Counts zones failed P
  unfolding sweep_zones
  Counts-zones [] failed P lasting = Triple-pure failed (λ l h. (h, omega arith, λ _. tt))
  Counts-zones (zone ∷ zones) failed P lasting =
      Triple-bind (λ out l. P l × (out ≡ ok tt → WasServed r (trim_suffix zone b'.') l)) _ _
        (Triple-try _
          (Triple-map _ (Triple-and _ (lasting_visit P lasting zone) (served_visit zone))
            (λ l h. (h, tt)) (λ u l h. h) (λ l h. h))
          (λ u l h. (h.0, λ _. h.1)) (λ e l h. (h.0, λ same. ground (arith, same))))
        (Counts-next zone zones failed P lasting (λ n P' l'. Counts-zones zones n P' l'))

  ServedAll-sweep :
      (zones : List Text) (l : Log)
      → w.list_zones l ≡ ok zones
      → Triple (λ l'. l' ≡ l) (sweep w r) (λ _. ServedAll zones) (λ _. Unit {0})
  unfolding sweep
  ServedAll-sweep zones l there =
      Triple-bind (λ found _. found ≡ zones) _ _
        (Triple-call_eq _ _
          (λ l' found same e. ok_injective found zones (sym e ∙ (ap w.list_zones same ∙ there)))
          (λ l' e same x. tt))
        (λ found. record {
          at = λ l' same.
              (Triple-bind {P = λ _. Unit {0}} (λ n l. n ≡ 0 → ServedAll zones l) _ _
                  (Triple-map _ (Counts-zones found 0 (λ _. Unit {0}) (λ e k h. tt)) (λ k h. tt)
                    (λ n k (h, more, rest). λ clean. rw (← same) (rest clean)) (λ k h. h))
                  (λ failed.
                    Triple-if (failed == 0) _ _
                      (λ clean. Triple-pure tt (λ k h. h (ground (arith, clean))))
                      (λ _. Triple-raise _ (λ k h. tt)))).at
                l' tt;
        })

  -- A `Sweep` that returns no error has served every zone that was listed, in turn: at some point of
  -- its log the state that it saved for the zone was settled there, and its lock released.
  pub sweep-Served :
      (zones : List Text) (l : Log)
      → w.list_zones l ≡ ok zones
      → (sweep w r l).0 ≡ ok tt
      → All (λ z. WasServed r (trim_suffix z b'.') (sweep w r l).1) zones
  sweep-Served zones l there done =
      cases (sweep w r l) ((ServedAll-sweep zones l there).at l refl) done
    where
      cases :
          (out : Result (Unit {0}) × Log)
          → Ends (λ _. ServedAll zones) (λ _. Unit {0}) out
          → out.0 ≡ ok tt
          → ServedAll zones out.1
      cases (ok u, k) h e = h
      cases (err f, k) h e = ground (arith, e)
