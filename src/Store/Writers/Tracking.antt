-- ===== src/Store/Writers/Tracking.antt =====
-- zone/store.go: what a writer knows while others write, and what its save does.
use cert_manager_webhook_mij.Prelude.{
  ℕ, ◌<◌, Bool, true, false, [], Text, trim_suffix, ◌≡◌, ◌≢◌, ◌⊎◌, inl, inr, refl, sym, ap, ◌∙◌,
  arith,
}
use cert_manager_webhook_mij.Failure.{Result, ok, err, ok_injective}
use cert_manager_webhook_mij.Names.{object_name}
use cert_manager_webhook_mij.Kubernetes.{Client}
use cert_manager_webhook_mij.Store.{State, Handle}
use cert_manager_webhook_mij.Store.ConfigMaps.{ConfigMap, Json, config_map, handle_of, load, save}
use cert_manager_webhook_mij.Store.Saving.{
  MapLaws, RoundTrips, Stored-save, absent, known, load_zone, load_answer_lem, load-IsCurrent,
  load-save,
}
use cert_manager_webhook_mij.Store.Landing.{MapWriteLaws, Replaces, Landed, Effect, save-Effect}
use cert_manager_webhook_mij.Store.Writers.{is_ok}

module _ {ℓ} {Cluster : Type ℓ} (cms : Client ConfigMap Cluster) (json : Json) (zone : Text)
    (laws : MapLaws cms) (trips : RoundTrips json) (rank : Text → ℕ)
    (writes : MapWriteLaws cms rank) where
  abbrev name : Text
  name = object_name (trim_suffix zone b'.')

  -- A handle is what is stored now, or its save comes too late.
  pub data Tracks (s : Cluster) (h : Handle) : Type ℓ where
    current : load cms json zone s ≡ ok h → Tracks s h
    behind :
        (cm : ConfigMap)
        → cms.get s name ≡ ok cm
        → h.state.zone ≡ trim_suffix zone b'.'
        → (h.exists ≡ false)
          ⊎ ((h.exists ≡ true)
              × (h.resource_version ≢ [])
              × (rank h.resource_version < rank cm.resource_version))
        → Tracks s h

  pub Tracks-zone : (s : Cluster) (h : Handle) → Tracks s h → h.state.zone ≡ trim_suffix zone b'.'
  Tracks-zone s h (current e) = load_zone cms json laws zone s h e
  Tracks-zone s h (behind cm got named late) = named

  pub load_same :
      (s s' : Cluster)
      → cms.get s' name ≡ cms.get s name
      → load cms json zone s' ≡ load cms json zone s
  unfolding load
  load_same s s' same = rw same refl

  pub Tracks-same :
      (s s' : Cluster) (h : Handle) → cms.get s' name ≡ cms.get s name → Tracks s h → Tracks s' h
  Tracks-same s s' h same (current e) = current (load_same s s' same ∙ e)
  Tracks-same s s' h same (behind cm got named late) = behind cm (same ∙ got) named late

  -- A write that landed has a later version than what it replaced.
  replaced_version :
      (s : Cluster) (other : Handle) (saved cm : ConfigMap)
      → other.state.zone ≡ trim_suffix zone b'.'
      → cms.get s name ≡ ok cm
      → Replaces cms json rank writes other s saved
      → rank cm.resource_version < rank saved.resource_version
  replaced_version s other saved cm zoned got (inl (e, none_there)) =
      absurd (none_there cm (cc (got, zoned)))
  replaced_version s other saved cm zoned got (inr (e, (old, there, version, later))) =
      let same : old ≡ cm =
        ok_injective old cm (sym there ∙ (ap (λ z. cms.get s (object_name z)) zoned ∙ got)) in
      rw (← same) later

  Tracks-replaced :
      (s s' : Cluster) (h other : Handle) (saved : ConfigMap)
      → other.state.zone ≡ trim_suffix zone b'.'
      → cms.get s' name ≡ ok saved
      → Replaces cms json rank writes other s saved
      → Tracks s h
      → Tracks s' h
  Tracks-replaced s s' h other saved zoned found before (current e) =
      let named = load_zone cms json laws zone s h e in
      elim (load-IsCurrent cms json laws s zone h e) [
        | absent e' ↦ behind saved found named (inl e')
        | known cm got version exists ↦
            let there : cms.get s name ≡ ok cm =
              ap (λ z. cms.get s (object_name z)) (sym named) ∙ got in
            behind saved found named (
              inr (
                exists,
                (λ blank. laws.versioned s name cm there (sym version ∙ blank)),
                rw version (replaced_version s other saved cm zoned there before),
              ))
      ]
  Tracks-replaced s s' h other saved zoned found before (behind cm got named (inl e)) =
      behind saved found named (inl e)
  Tracks-replaced s s' h other saved zoned found before
        (behind cm got named (inr (e, some_version, late))) =
      let later = replaced_version s other saved cm zoned got before in
      behind saved found named (inr (e, some_version, omega arith))

  pub Tracks-Effect :
      (s s' : Cluster) (h other : Handle)
      → other.state.zone ≡ trim_suffix zone b'.'
      → Effect cms json rank writes other s s'
      → Tracks s h
      → Tracks s' h
  Tracks-Effect s s' h other zoned (inl same) t =
      Tracks-same s s' h
        (ap (λ z. cms.get s' (object_name z)) (sym zoned)
          ∙ (same ∙ ap (λ z. cms.get s (object_name z)) zoned))
        t
  Tracks-Effect s s' h other zoned (inr landed) t =
      Tracks-replaced s s' h other landed.saved zoned
        (ap (λ z. cms.get s' (object_name z)) (sym zoned) ∙ landed.found) landed.replaces t

  -- A handle that something newer was stored behind.
  abbrev pub IsLate : Handle → ConfigMap → Type 0
  IsLate h cm =
      (h.exists ≡ false)
      ⊎ ((h.exists ≡ true)
          × (h.resource_version ≢ [])
          × (rank h.resource_version < rank cm.resource_version))

  late_refused :
      (s s' : Cluster) (h h' : Handle) (cm : ConfigMap)
      → h.state.zone ≡ trim_suffix zone b'.'
      → cms.get s name ≡ ok cm
      → IsLate h cm
      → save cms json h s ≢ (ok h', s')
  unfolding config_map
  late_refused s s' h h' cm zoned got late e =
      let st = Stored-save cms json laws h h' s s' e in
      let there : cms.get s (object_name h.state.zone) ≡ ok cm =
        ap (λ z. cms.get s (object_name z)) zoned ∙ got in
      elim late [
        | inl fresh ↦ laws.taken s s' (config_map h st.raw) cm st.saved there (cc (st.sent, fresh))
        | inr (exists, some_version, less) ↦
            laws.stale s s' (config_map h st.raw) cm st.saved there some_version
              (λ same. absurd (omega (arith, ap rank same, less))) (cc (st.sent, exists))
      ]

  late_never_lands :
      (s : Cluster) (h : Handle) (cm saved : ConfigMap)
      → h.state.zone ≡ trim_suffix zone b'.'
      → cms.get s name ≡ ok cm
      → IsLate h cm
      → ¬ Replaces cms json rank writes h s saved
  late_never_lands s h cm saved zoned got late (inl (e, none_there)) =
      none_there cm (cc (got, zoned))
  late_never_lands s h cm saved zoned got late (inr (e, (old, there, version, later))) =
      let same : old ≡ cm =
        ok_injective old cm (sym there ∙ (ap (λ z. cms.get s (object_name z)) zoned ∙ got)) in
      elim late [
        | inl fresh ↦ cc (fresh, e)
        | inr (exists, some_version, less) ↦ absurd (
            omega (
              arith,
              ap rank (version some_version),
              ap (λ (c : ConfigMap). rank c.resource_version) same,
              less,
            ))
      ]

  -- The state was saved in place of the one that was loaded, or nothing was saved and the writer was
  -- told so.
  abbrev pub Outcome : (h : Handle) (st : State) (s s' : Cluster) → Bool → Type 0
  Outcome h st s s' acknowledged =
      ((load cms json zone s ≡ ok h)
        × ((now : Handle) × (load cms json zone s' ≡ ok now) × (now.state ≡ st)))
      ⊎ ((cms.get s' name ≡ cms.get s name) × (acknowledged ≡ false))

  loaded_state :
      (s' : Cluster) (h : Handle) (st : State)
      → st.zone ≡ trim_suffix zone b'.'
      → load cms json zone s' ≡ ok (record h { state = record st { zone = trim_suffix zone b'.' } })
      → (now : Handle) × (load cms json zone s' ≡ ok now) × (now.state ≡ st)
  loaded_state s' h st zoned e = (_, e, rw (← zoned) refl)

  Landed-state :
      (s s' : Cluster) (h : Handle)
      → h.state.zone ≡ trim_suffix zone b'.'
      → Landed cms json rank writes h s s'
      → (now : Handle) × (load cms json zone s' ≡ ok now) × (now.state ≡ h.state)
  unfolding load config_map
  Landed-state s s' h zoned landed =
      let (some_text, decoded) = trips h.state landed.raw landed.marshalled in
      let found : cms.get s' name ≡ ok landed.saved =
        ap (λ z. cms.get s' (object_name z)) (sym zoned) ∙ landed.found in
      loaded_state s' (handle_of (trim_suffix zone b'.') landed.saved h.state) h.state zoned (
        rw found (
          load_answer_lem cms json laws (trim_suffix zone b'.') landed.saved h.state landed.raw
            (ap (λ v. v.1.1) landed.same) some_text decoded))

  -- The handle `h` with the state that its writer made.
  module _ (s : Cluster) (h : Handle) (st : State) (same_zone : st.zone ≡ h.state.zone) where
    abbrev made : Handle
    made = record h { state = st }

    saved_current :
        (out : Result Handle × Cluster)
        → save cms json made s ≡ out
        → st.zone ≡ trim_suffix zone b'.'
        → load cms json zone s ≡ ok h
        → Effect cms json rank writes made s out.1
        → Outcome h st s out.1 (is_ok out.0)
    saved_current (ok h', s') e zoned now effect = inl (
      now,
      loaded_state s' h' st zoned
          (load-save cms json laws trips made h' s s' zone (ap object_name (sym zoned)) e),
    )
    saved_current (err f, s') e zoned now (inl same) = inr (
      ap (λ z. cms.get s' (object_name z)) (sym zoned)
          ∙ (same ∙ ap (λ z. cms.get s (object_name z)) zoned),
      refl,
    )
    saved_current (err f, s') e zoned now (inr landed) =
        inl (now, Landed-state s s' made zoned landed)

    saved_late :
        (out : Result Handle × Cluster) (cm : ConfigMap)
        → save cms json made s ≡ out
        → st.zone ≡ trim_suffix zone b'.'
        → cms.get s name ≡ ok cm
        → IsLate made cm
        → Effect cms json rank writes made s out.1
        → Outcome h st s out.1 (is_ok out.0)
    saved_late (ok h', s') cm e zoned got late effect =
        absurd (late_refused s s' made h' cm zoned got late e)
    saved_late (err f, s') cm e zoned got late (inl same) = inr (
      ap (λ z. cms.get s' (object_name z)) (sym zoned)
          ∙ (same ∙ ap (λ z. cms.get s (object_name z)) zoned),
      refl,
    )
    saved_late (err f, s') cm e zoned got late (inr landed) =
        absurd (late_never_lands s made cm landed.saved zoned got late landed.replaces)

    pub save-Outcome :
        Tracks s h → Outcome h st s (save cms json made s).1 (is_ok (save cms json made s).0)
    save-Outcome (current e) =
        saved_current (save cms json made s) refl (same_zone ∙ load_zone cms json laws zone s h e) e
          (save-Effect cms json rank writes made s)
    save-Outcome (behind cm got named late) =
        saved_late (save cms json made s) cm refl (same_zone ∙ named) got late
          (save-Effect cms json rank writes made s)
