-- ===== src/Tests/Storing.antt =====
-- Runs of the store: a save, loads behind it, and a second writer.
use cert_manager_webhook_mij.Prelude.{
  true, false, List, [], ◌∷◌, Text, codes, text_eq, trim_suffix, none, some, pos, Any, first,
  Bool-cases, inl, inr, ◌≡◌, refl, arith,
}
use cert_manager_webhook_mij.Failure.{Result, ok, ok_injective}
use cert_manager_webhook_mij.Names.{object_name, trim_right, trim_left, label_rune, lower_rune}
use cert_manager_webhook_mij.Kubernetes.{Client}
use cert_manager_webhook_mij.Store.{State, Handle}
use cert_manager_webhook_mij.Store.ConfigMaps.{ConfigMap, load, save, list_zones}
use cert_manager_webhook_mij.Store.Finding.{Selects, saved_zone_is_listed}
use cert_manager_webhook_mij.Store.Saving.{MapLaws, map_view, load-save}
use cert_manager_webhook_mij.Tests.Cluster.{Slot, slots, slot-Laws, slot_get, slot_create}
use cert_manager_webhook_mij.Tests.Encoding.{encoding, encoding-RoundTrips}

abbrev pub Cluster : Type 0
Cluster = Slot ConfigMap

abbrev pub maps : Client ConfigMap Cluster
maps = slots (λ o. o.name) (λ o. o.resource_version) (λ v o. record o { resource_version = v })

pub maps-MapLaws : MapLaws maps
maps-MapLaws =
    slot-Laws (λ o. o.name) (λ o. o.resource_version) (λ v o. record o { resource_version = v })
      map_view (λ v o. refl) (λ v o. refl) (λ v o. refl)

abbrev pub state_of : Text → State
state_of value = record {
  zone = codes "my-shop.nl";
  api_key_secret_ref = record {
    namespace = codes "certs";
    name = codes "mijn-host";
    key = codes "api-key";
  };
  records =
      record {
        name = codes "_acme-challenge.my-shop.nl.";
        value = value;
        ttl = pos 300;
        added_at = 7;
        challenge_uid = codes "uid";
        dns_name = codes "my-shop.nl";
      }
      ∷ [];
}

abbrev pub new_handle : Handle
new_handle = record {
  state = record (state_of []) {
    api_key_secret_ref = record { namespace = []; name = []; key = [] };
    records = [];
  };
  resource_version = [];
  exists = false;
}

abbrev pub empty_cluster : Cluster
empty_cluster = (none, 0)

abbrev first_handle : Handle
first_handle = record new_handle { state = state_of (codes "one") }

abbrev stored_cluster : Cluster
stored_cluster = (save maps encoding first_handle empty_cluster).1

abbrev stored_handle : Handle
stored_handle = record first_handle { resource_version = 1 ∷ []; exists = true }

save_runs : save maps encoding first_handle empty_cluster ≡ (ok stored_handle, stored_cluster)
unfolding save encoding slot_create
save_runs = refl

same_object_name :
    object_name (trim_suffix (codes "my.shop.nl.") b'.') ≡ object_name (codes "my-shop.nl")
unfolding object_name trim_right trim_left trim_suffix label_rune lower_rune
same_object_name = refl

-- The state of my-shop.nl, loaded for my.shop.nl.
load-save_example :
    load maps encoding (codes "my.shop.nl.") stored_cluster
    ≡ ok (record stored_handle {
      state = record (state_of (codes "one")) { zone = trim_suffix (codes "my.shop.nl.") b'.' };
    })
load-save_example =
    load-save maps encoding maps-MapLaws encoding-RoundTrips first_handle stored_handle
      empty_cluster stored_cluster (codes "my.shop.nl.") same_object_name save_runs

pub load_runs : load maps encoding (codes "my-shop.nl") empty_cluster ≡ ok new_handle
unfolding load slot_get trim_suffix
load_runs = refl

-- The list of all that is stored.
abbrev maps_list : Cluster → Text → Result (List ConfigMap)
maps_list (none, t) selector = ok []
maps_list (some (o, v), t) selector = ok ((record o { resource_version = 1 ∷ v }) ∷ [])

maps_list-Selects : Selects maps maps_list
unfolding slot_get text_eq
maps_list-Selects (none, t) n label cm items got managed labelled listed = ground (arith, got)
maps_list-Selects (some (o, v), t) n label cm items got managed labelled listed =
    elim (Bool-cases (text_eq o.name n)) [
      | inr other ↦ ground (arith, other, got)
      | inl named ↦ rw (← ok_injective _ items listed) (first (ok_injective _ cm (rw named at got)))
    ]

zones_found : list_zones maps_list stored_cluster ≡ ok (codes "my-shop.nl" ∷ [])
unfolding list_zones save slot_create encoding
zones_found = refl

saved_zone_is_listed_example : Any (λ z. z ≡ codes "my-shop.nl") (codes "my-shop.nl" ∷ [])
saved_zone_is_listed_example =
    saved_zone_is_listed maps encoding maps-MapLaws maps_list maps_list-Selects first_handle
      stored_handle empty_cluster stored_cluster (codes "my-shop.nl" ∷ []) (λ e. ground (arith, e))
      save_runs zones_found
