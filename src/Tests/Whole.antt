-- ===== src/Tests/Whole.antt =====
-- A whole request: the reconciler over the program's own lock, store, serials and API client.
use cert_manager_webhook_mij.Prelude.{[], ◌∷◌, Text, codes, pos, none, trim_suffix, ◌≡◌, refl}
use cert_manager_webhook_mij.Failure.{Result, ok}
use cert_manager_webhook_mij.Kubernetes.{Client}
use cert_manager_webhook_mij.Store.ConfigMaps.{ConfigMap}
use cert_manager_webhook_mij.Store.Saving.{MapLaws, map_view}
use cert_manager_webhook_mij.Lock.{Lease, second}
use cert_manager_webhook_mij.Serial.{soa}
use cert_manager_webhook_mij.Mijnhost.Client.{Web}
use cert_manager_webhook_mij.World.{Outside, ◌>>=◌}
use cert_manager_webhook_mij.Reconciler.{present, clean_up}
use cert_manager_webhook_mij.Payload.{changed, compute_payload}
use cert_manager_webhook_mij.Pod.{System, Pod, outside_of}
use cert_manager_webhook_mij.Pod.Stored.{IsApart}
use cert_manager_webhook_mij.Pod.Promises.{IsPresented, IsCleaned}
use cert_manager_webhook_mij.Pod.Requests.{IsAtomic, present-IsAtomic, clean_up-IsAtomic}
use cert_manager_webhook_mij.Tests.Samples.{request, reconciler}
use cert_manager_webhook_mij.Tests.Cluster.{
  Slot, slots, slot-Laws, slot_get, slot_create, slot_update,
}
use cert_manager_webhook_mij.Tests.Encoding.{encoding, encoding-RoundTrips}
use cert_manager_webhook_mij.Tests.Locking.{pod_lock}

-- A cluster with a Lease and a ConfigMap.
abbrev pub Cluster : Type 0
Cluster = Slot Lease × Slot ConfigMap

abbrev lease_slots : Client Lease (Slot Lease)
lease_slots =
    slots (λ o. o.name) (λ o. o.resource_version) (λ v o. record o { resource_version = v })

abbrev pub map_slots : Client ConfigMap (Slot ConfigMap)
map_slots = slots (λ o. o.name) (λ o. o.resource_version) (λ v o. record o { resource_version = v })

map_slots-MapLaws : MapLaws map_slots
map_slots-MapLaws =
    slot-Laws (λ o. o.name) (λ o. o.resource_version) (λ v o. record o { resource_version = v })
      map_view (λ v o. refl) (λ v o. refl) (λ v o. refl)

abbrev leases : Client Lease Cluster
leases = record {
  get = λ s n. lease_slots.get s.0 n;
  create = λ s o. let (r, t) = lease_slots.create s.0 o in (r, (t, s.1));
  update = λ s o. let (r, t) = lease_slots.update s.0 o in (r, (t, s.1));
}

abbrev pub maps : Client ConfigMap Cluster
maps = record {
  get = λ s n. map_slots.get s.1 n;
  create = λ s o. let (r, t) = map_slots.create s.1 o in (r, (s.0, t));
  update = λ s o. let (r, t) = map_slots.update s.1 o in (r, (s.0, t));
}

-- A call on the cluster is one on the ConfigMap.
on_maps :
    (x : Result ConfigMap × Slot ConfigMap) (s s' : Cluster) (saved : ConfigMap)
    → ◌≡◌ {A = Result ConfigMap × Cluster} (x.0, (s.0, x.1)) (ok saved, s')
    → x ≡ (ok saved, s'.1)
on_maps x s s' saved h = cc h

pub maps-MapLaws : MapLaws maps
maps-MapLaws = record {
  named = λ s n o h. map_slots-MapLaws.named s.1 n o h;
  versioned = λ s n o h. map_slots-MapLaws.versioned s.1 n o h;
  created = λ s s' o saved h.
      map_slots-MapLaws.created s.1 s'.1 o saved (on_maps (map_slots.create s.1 o) s s' saved h);
  updated = λ s s' o saved h.
      map_slots-MapLaws.updated s.1 s'.1 o saved (on_maps (map_slots.update s.1 o) s s' saved h);
  taken = λ s s' o old saved got h.
      map_slots-MapLaws.taken s.1 s'.1 o old saved got
        (on_maps (map_slots.create s.1 o) s s' saved h);
  stale = λ s s' o old saved got some_version differs h.
      map_slots-MapLaws.stale s.1 s'.1 o old saved got some_version differs
        (on_maps (map_slots.update s.1 o) s s' saved h);
  taken_kept = λ s o old got. map_slots-MapLaws.taken_kept s.1 o old got;
  stale_kept = λ s o old got some_version differs.
      map_slots-MapLaws.stale_kept s.1 o old got some_version differs;
  create_elsewhere = λ s o n other. map_slots-MapLaws.create_elsewhere s.1 o n other;
  update_elsewhere = λ s o n other. map_slots-MapLaws.update_elsewhere s.1 o n other;
  moves = λ s s' o old saved got h same.
      map_slots-MapLaws.moves s.1 s'.1 o old saved got
        (on_maps (map_slots.update s.1 o) s s' saved h) same;
}

-- mijn.host has no records, and takes every PUT.
abbrev pub web : Web
web = record {
  send =
      λ req. ok (record { status_code = 200; content_type = codes "application/json"; body = [] });
  resolve = λ base path. ok path;
  path_escape = λ t. t;
  encode_records = λ rs. ok [];
  decode_status = λ t. ok (record { status = pos 200; status_description = [] });
  decode_records = λ t. ok (record { status = pos 200; status_description = [] }, []);
  decode_domains = λ t. ok (record { status = pos 200; status_description = [] }, []);
}

abbrev pub system : System Cluster
system = record {
  leases = leases;
  maps = maps;
  list = λ s sel. ok [];
  json = encoding;
  clock = λ s. s.0.1;
  date = λ t. codes "2026-01-01";
  pause = λ s. (ok tt, s);
  token = λ s. codes "7";
  secrets = λ s ns n. ok ((codes "key", codes "secret") ∷ []);
  web = λ s. web;
  resolver = λ s. record {
    lookup = λ z. ok (codes "ns.mijn.host." ∷ []);
    fqdn = λ z. z;
    join_host_port = λ host port. host;
    random = λ z ns. codes "12345678";
    send = λ msg addr. ok (soa 7 ∷ []);
  };
  meanwhile = λ e s. s;
}

abbrev pub pod : Pod Cluster
pod = record {
  cluster = ((none, second), (none, 0));
  cache = record { servers = λ _. none; at = λ _. none };
  holders = [];
}

abbrev outside : Outside
outside = outside_of system pod_lock 3 pod

system-IsApart : (name : Text) → IsApart system name
system-IsApart name = record {
  create_apart = λ s o. refl;
  update_apart = λ s o. refl;
  pause_apart = λ s. refl;
  meanwhile_apart = λ e s. refl;
}

present_runs : (present outside reconciler request []).0 ≡ ok tt
unfolding present ◌>>=◌ outside_of encoding slot_get slot_create slot_update changed compute_payload
present_runs = refl

present-IsAtomic_example :
    IsAtomic system pod_lock 3 pod reconciler maps-MapLaws encoding-RoundTrips
      (IsPresented reconciler.max_record_age request)
      (trim_suffix request.zone b'.')
      []
      (present outside reconciler request [])
present-IsAtomic_example =
    present-IsAtomic system pod_lock 3 pod reconciler maps-MapLaws encoding-RoundTrips request []
      (system-IsApart _)

clean_up_runs : (clean_up outside reconciler request []).0 ≡ ok tt
unfolding clean_up ◌>>=◌ outside_of encoding slot_get slot_create slot_update changed
    compute_payload
clean_up_runs = refl

clean_up-IsAtomic_example :
    IsAtomic system pod_lock 3 pod reconciler maps-MapLaws encoding-RoundTrips
      (IsCleaned reconciler.max_record_age request)
      (trim_suffix request.zone b'.')
      []
      (clean_up outside reconciler request [])
clean_up-IsAtomic_example =
    clean_up-IsAtomic system pod_lock 3 pod reconciler maps-MapLaws encoding-RoundTrips request []
      (system-IsApart _)
