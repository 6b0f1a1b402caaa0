-- ===== src/Store/Landing.antt =====
-- zone/store.go: what a `Save` may have done to the ConfigMap of its zone, however it ends.
use cert_manager_webhook_mij.Prelude.{
  ℕ, ◌<◌, Bool, true, false, [], Text, ◌≡◌, ◌≢◌, ◌⊎◌, inl, inr, refl,
}
use cert_manager_webhook_mij.Failure.{Result, ok, err}
use cert_manager_webhook_mij.Names.{object_name}
use cert_manager_webhook_mij.Kubernetes.{Client, WriteLaws}
use cert_manager_webhook_mij.Store.{Handle}
use cert_manager_webhook_mij.Store.ConfigMaps.{
  ConfigMap, Json, config_map, send, save_marshalled, save,
}
use cert_manager_webhook_mij.Store.Saving.{map_view}

abbrev pub MapWriteLaws {ℓ} : {Cluster : Type ℓ} → Client ConfigMap Cluster → (Text → ℕ) → Type ℓ
MapWriteLaws cms rank = WriteLaws cms (λ cm. cm.name) (λ cm. cm.resource_version) map_view rank

module _ {ℓ} {Cluster : Type ℓ} (cms : Client ConfigMap Cluster) (json : Json) (rank : Text → ℕ)
    (writes : MapWriteLaws cms rank) where
  -- What was there before a write that landed: nothing for a handle without a ConfigMap, and else the
  -- version of the handle, if it has one, and a lower one than behind the write.
  abbrev pub Replaces : Handle → Cluster → ConfigMap → Type 0
  Replaces h s saved =
      ((h.exists ≡ false) × ((old : ConfigMap) → cms.get s (object_name h.state.zone) ≢ ok old))
      ⊎ ((h.exists ≡ true)
          × ((old : ConfigMap) × (cms.get s (object_name h.state.zone) ≡ ok old)
              × (h.resource_version ≢ [] → h.resource_version ≡ old.resource_version)
              × (rank old.resource_version < rank saved.resource_version)))

  pub record Landed (h : Handle) (s s' : Cluster) : Type ℓ where
    pub raw : Text
    pub saved : ConfigMap
    pub marshalled : json.marshal h.state ≡ ok raw
    pub found : cms.get s' (object_name h.state.zone) ≡ ok saved
    pub same : map_view saved ≡ map_view (config_map h raw)
    pub replaces : Replaces h s saved

  abbrev pub Effect : Handle → Cluster → Cluster → Type ℓ
  Effect h s s' =
      (cms.get s' (object_name h.state.zone) ≡ cms.get s (object_name h.state.zone)) ⊎ Landed h s s'

  Effect-sent :
      (h : Handle) (s : Cluster) (raw : Text) (exists : Bool)
      → h.exists ≡ exists
      → json.marshal h.state ≡ ok raw
      → Effect h s (send cms exists s (config_map h raw)).1
  unfolding config_map
  Effect-sent h s raw true e m = elim (writes.update_lands s (config_map h raw)) [
    | inl kept ↦ inl kept
    | inr (saved, found, same, before) ↦ inr (record {
      raw = raw;
      saved = saved;
      marshalled = m;
      found = found;
      same = same;
      replaces = inr (e, before);
    })
  ]
  Effect-sent h s raw false e m = elim (writes.create_lands s (config_map h raw)) [
    | inl kept ↦ inl kept
    | inr (saved, found, same, before) ↦ inr (record {
      raw = raw;
      saved = saved;
      marshalled = m;
      found = found;
      same = same;
      replaces = inl (e, before);
    })
  ]

  Effect-marshalled :
      (h : Handle) (s : Cluster) (m : Result Text)
      → json.marshal h.state ≡ m
      → Effect h s (save_marshalled cms json h s m).1
  Effect-marshalled h s (err e) m = inl refl
  Effect-marshalled h s (ok raw) m = Effect-sent h s raw h.exists refl m

  -- Whatever a save answers, the ConfigMap of its zone is as it was, or holds the saved state in place
  -- of what the handle knew.
  pub save-Effect : (h : Handle) (s : Cluster) → Effect h s (save cms json h s).1
  unfolding save
  save-Effect h s = Effect-marshalled h s (json.marshal h.state) refl
