-- ===== src/Tests/Sharing.antt =====
-- A request of one pod, in which another pod writes the same zone.
use cert_manager_webhook_mij.Prelude.{
  false, List, [], ◌∷◌, ◌++◌, Text, codes, length, trim_suffix, some, ◌≡◌, refl,
}
use cert_manager_webhook_mij.Failure.{Result, ok, err}
use cert_manager_webhook_mij.Names.{object_name, trim_right, trim_left, label_rune, lower_rune}
use cert_manager_webhook_mij.Payload.{changed, compute_payload}
use cert_manager_webhook_mij.Store.{State, Handle}
use cert_manager_webhook_mij.Store.ConfigMaps.{load, save}
use cert_manager_webhook_mij.Store.Saving.{map_view}
use cert_manager_webhook_mij.Store.Landing.{MapWriteLaws}
use cert_manager_webhook_mij.Store.Writers.{is_ok, Attempt, Writes, begin, reads, saves}
use cert_manager_webhook_mij.World.{
  Event, Outside, acquired, released, loaded, saved, listed, key_read, serial_read, got, put,
  clocked, ◌>>=◌,
}
use cert_manager_webhook_mij.Records.Desired.{presented}
use cert_manager_webhook_mij.Reconciler.{present}
use cert_manager_webhook_mij.Pod.{System, replay, outside_of}
use cert_manager_webhook_mij.Pod.Promises.{asked_at}
use cert_manager_webhook_mij.Pod.Sharing.{OthersWrite, right_behind}
use cert_manager_webhook_mij.Pod.Surviving.{Survives, present-Survives}
use cert_manager_webhook_mij.Tests.Samples.{request, reconciler, old_record}
use cert_manager_webhook_mij.Tests.Cluster.{slot-WriteLaws, slot_get, slot_create, slot_update}
use cert_manager_webhook_mij.Tests.Encoding.{encoding, encoding-RoundTrips}
use cert_manager_webhook_mij.Tests.Locking.{pod_lock}
use cert_manager_webhook_mij.Tests.Whole.{Cluster, map_slots, maps, maps-MapLaws, system, pod}

map_slots-MapWriteLaws : MapWriteLaws map_slots length
map_slots-MapWriteLaws =
    slot-WriteLaws (λ o. o.name) (λ o. o.resource_version)
      (λ v o. record o { resource_version = v }) map_view (λ v o. refl) (λ v o. refl) (λ v o. refl)

maps-MapWriteLaws : MapWriteLaws maps length
maps-MapWriteLaws = record {
  create_lands = λ s o. map_slots-MapWriteLaws.create_lands s.1 o;
  update_lands = λ s o. map_slots-MapWriteLaws.update_lands s.1 o;
}

abbrev zone : Text
zone = trim_suffix request.zone b'.'

-- What another pod makes of the state.
abbrev noted : State → State
noted st = record st { records = old_record ∷ st.records }

abbrev noted_in : Cluster → Result Handle → Cluster
noted_in s (ok h) = (save maps encoding (record h { state = noted h.state }) s).1
noted_in s (err e) = s

-- It loads the zone and saves it, behind each acquisition of a lock.
abbrev busy : Event → Cluster → Cluster
busy (acquired z a) s = noted_in s (load maps encoding zone s)
busy (released z) s = s
busy (loaded z a) s = s
busy (saved h a) s = s
busy (listed a) s = s
busy (key_read ref a) s = s
busy (serial_read z a) s = s
busy (got k z a) s = s
busy (put k z rs a) s = s
busy (clocked t) s = s

abbrev busy_system : System Cluster
busy_system = record system { meanwhile = busy }

-- What the other pod attempts when it loads the zone in the cluster `s`.
abbrev tried : Cluster → Result Handle → List Attempt
tried s (ok h) =
    record {
      mutate = noted;
      acknowledged = is_ok (save maps encoding (record h { state = noted h.state }) s).0;
    }
    ∷ []
tried s (err e) = []

abbrev busy_attempts : Event → Cluster → List Attempt
busy_attempts (acquired z a) s = tried s (load maps encoding zone s)
busy_attempts (released z) s = []
busy_attempts (loaded z a) s = []
busy_attempts (saved h a) s = []
busy_attempts (listed a) s = []
busy_attempts (key_read ref a) s = []
busy_attempts (serial_read z a) s = []
busy_attempts (got k z a) s = []
busy_attempts (put k z rs a) s = []
busy_attempts (clocked t) s = []

noted-Writes :
    (start : Cluster) (attempts : List Attempt) (mine : List Handle) (s : Cluster)
    (answer : Result Handle)
    → load maps encoding zone s ≡ answer
    → Writes maps encoding zone start attempts (s, mine ++ [])
    → Writes maps encoding zone start (tried s answer ++ attempts) (noted_in s answer, mine ++ [])
noted-Writes start attempts mine s (err e) there w = w
noted-Writes start attempts mine s (ok h) there w =
    saves [] (mine ++ []) h noted (reads h w there) refl

busy-Writes :
    (e : Event) (start : Cluster) (attempts : List Attempt) (mine : List Handle) (s : Cluster)
    → Writes maps encoding zone start attempts (s, mine ++ [])
    → Writes maps encoding zone start (busy_attempts e s ++ attempts) (busy e s, mine ++ [])
busy-Writes (acquired z a) start attempts mine s w =
    noted-Writes start attempts mine s (load maps encoding zone s) refl w
busy-Writes (released z) start attempts mine s w = w
busy-Writes (loaded z a) start attempts mine s w = w
busy-Writes (saved h a) start attempts mine s w = w
busy-Writes (listed a) start attempts mine s w = w
busy-Writes (key_read ref a) start attempts mine s w = w
busy-Writes (serial_read z a) start attempts mine s w = w
busy-Writes (got k z a) start attempts mine s w = w
busy-Writes (put k z rs a) start attempts mine s w = w
busy-Writes (clocked t) start attempts mine s w = w

busy-OthersWrite : OthersWrite busy_system pod_lock 3 pod zone
busy-OthersWrite = record {
  pool = λ l. [];
  made = λ e l.
      busy_attempts e
        (right_behind busy_system pod_lock 3 pod e (replay busy_system pod_lock 3 pod l));
  others = λ e l start attempts mine w. busy-Writes e start attempts mine _ w;
  create_apart = λ s o. refl;
  update_apart = λ s o. refl;
  pause_apart = λ s. refl;
}

abbrev outside : Outside
outside = outside_of busy_system pod_lock 3 pod

abbrev empty_handle : Handle
empty_handle = record {
  state = record {
    zone = codes "b.nl";
    api_key_secret_ref = record { namespace = []; name = []; key = [] };
    records = [];
  };
  resource_version = [];
  exists = false;
}

present_runs : (present outside reconciler request []).0 ≡ ok tt
unfolding present ◌>>=◌ outside_of encoding slot_get slot_create slot_update changed compute_payload
    object_name trim_right trim_left label_rune lower_rune
present_runs = refl

load_runs : load maps encoding zone pod.cluster ≡ ok empty_handle
unfolding load slot_get trim_suffix
load_runs = refl

present-Survives_example :
    Survives busy_system pod_lock 3 pod reconciler request.zone busy-OthersWrite pod.cluster [] []
      (some request.api_key_secret_ref)
      (λ asked live. presented live (asked_at request asked))
      empty_handle
      (present outside reconciler request []).1
unfolding replay busy-OthersWrite
present-Survives_example =
    present-Survives busy_system pod_lock 3 pod reconciler request busy-OthersWrite pod.cluster []
      maps-MapLaws encoding-RoundTrips length maps-MapWriteLaws empty_handle [] load_runs begin
      present_runs
