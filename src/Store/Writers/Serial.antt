-- ===== src/Store/Writers/Serial.antt =====
-- zone/store.go: no change of any writer is lost.
use cert_manager_webhook_mij.Prelude.{
  ℕ, List, ◌∷◌, ◌++◌, Text, All, All-middle, All-map, ◌≡◌, inl, inr, sym, ap, ◌∙◌,
}
use cert_manager_webhook_mij.Failure.{ok, ok_injective}
use cert_manager_webhook_mij.Kubernetes.{Client}
use cert_manager_webhook_mij.Store.{State, Handle}
use cert_manager_webhook_mij.Store.ConfigMaps.{ConfigMap, Json, load, save}
use cert_manager_webhook_mij.Store.Saving.{MapLaws, RoundTrips}
use cert_manager_webhook_mij.Store.Landing.{MapWriteLaws, save-Effect}
use cert_manager_webhook_mij.Store.Writers.{
  is_ok, Attempt, Ran, nothing, applied, dropped, Sessions, Writes, begin, reads, saves, elsewhere,
}
use cert_manager_webhook_mij.Store.Writers.Tracking.{
  Tracks, current, Tracks-zone, load_same, Tracks-same, Tracks-Effect, save-Outcome,
}

module _ {ℓ} {Cluster : Type ℓ} (cms : Client ConfigMap Cluster) (json : Json) (zone : Text)
    (laws : MapLaws cms) (trips : RoundTrips json) (rank : Text → ℕ)
    (writes : MapWriteLaws cms rank) where
  -- What is stored is what some of the attempts made of the first state, and each handle that a
  -- writer still has is what is stored, or late.
  record IsSerial (first : State) (attempts : List Attempt) (c : Sessions cms json zone)
      : Type ℓ where
    now : Handle
    stored : load cms json zone c.0 ≡ ok now
    ran : Ran first attempts now.state
    tracked : All (Tracks cms json zone laws trips rank writes c.0) c.1

  IsSerial-saves :
      (first : State) (attempts : List Attempt) (s : Cluster) (before after : List Handle)
      (h : Handle) (mutate : State → State)
      → (mutate h.state).zone ≡ h.state.zone
      → IsSerial first attempts (s, before ++ h ∷ after)
      → IsSerial first
          (record {
            mutate = mutate;
            acknowledged = is_ok (save cms json (record h { state = mutate h.state }) s).0;
          }
            ∷ attempts)
          ((save cms json (record h { state = mutate h.state }) s).1, before ++ after)
  IsSerial-saves first attempts s before after h mutate same_zone was =
      let (mine, others) =
        All-middle (Tracks cms json zone laws trips rank writes s) before h after was.tracked in
      let made = record h { state = mutate h.state } in
      let tracked =
        All-map (before ++ after)
          (λ other t.
            Tracks-Effect cms json zone laws trips rank writes s (save cms json made s).1 other made
              (same_zone ∙ Tracks-zone cms json zone laws trips rank writes s h mine)
              (save-Effect cms json rank writes made s) t)
          others in
      elim (save-Outcome cms json zone laws trips rank writes s h (mutate h.state) same_zone mine) [
        | inl (e, (now, stored, state)) ↦
            let same : was.now ≡ h = ok_injective was.now h (sym was.stored ∙ e) in
            record {
              now = now;
              stored = stored;
              ran =
                  rw (state ∙ ap (λ (k : Handle). mutate k.state) (sym same))
                    (applied mutate _ was.ran);
              tracked = tracked;
            }
        | inr (same, refused) ↦ record {
          now = was.now;
          stored =
              load_same cms json zone laws trips rank writes s (save cms json made s).1 same
              ∙ was.stored;
          ran = rw refused (dropped mutate was.ran);
          tracked = tracked;
        }
      ]

  Writes-IsSerial :
      {start : Cluster} {attempts : List Attempt} {c : Sessions cms json zone} (first : Handle)
      → load cms json zone start ≡ ok first
      → Writes cms json zone start attempts c
      → IsSerial first.state attempts c
  Writes-IsSerial first e begin = record { now = first; stored = e; ran = nothing; tracked = tt }
  Writes-IsSerial first e (reads h w loaded) =
      let was = Writes-IsSerial first e w in
      record {
        now = was.now;
        stored = was.stored;
        ran = was.ran;
        tracked = (current loaded, was.tracked);
      }
  Writes-IsSerial first e (saves before after h mutate w same_zone) =
      IsSerial-saves first.state _ _ before after h mutate same_zone (Writes-IsSerial first e w)
  Writes-IsSerial first e (elsewhere {s} {pool} s' w same) =
      let was = Writes-IsSerial first e w in
      record {
        now = was.now;
        stored = load_same cms json zone laws trips rank writes s s' same ∙ was.stored;
        ran = was.ran;
        tracked =
            All-map pool (λ h t. Tracks-same cms json zone laws trips rank writes s s' h same t)
              was.tracked;
      }

  -- However the loads and the saves of any number of writers interleave, with or without the lock,
  -- no change is lost: what is stored in the end is what some of their changes make of the first
  -- state, one after another, each change once at most, and all that were acknowledged. Writers
  -- keep the zone of what they load and save once what they loaded; a write lands as a whole, over
  -- the version that it names, or not at all, also where its answer is an error.
  pub saves_are_serial :
      {start : Cluster} {attempts : List Attempt} {c : Sessions cms json zone} (first : Handle)
      → load cms json zone start ≡ ok first
      → Writes cms json zone start attempts c
      → (now : Handle) × (load cms json zone c.0 ≡ ok now) × Ran first.state attempts now.state
  saves_are_serial first e w = let end = Writes-IsSerial first e w in (end.now, end.stored, end.ran)
