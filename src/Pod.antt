-- ===== src/Pod.antt =====
-- solver.go, `Initialize`: the reconciler over the lock, the store, the serial reader, the API client
-- and the secrets of this program, on a cluster that other pods change too.
pub mod Apart
pub mod Stored
pub mod Promises
pub mod Requests
pub mod Sharing
pub mod Following
pub mod Surviving
use cert_manager_webhook_mij.Prelude.{
  ℕ, List, [], ◌∷◌, ◌++◌, Text, codes, text_eq, if◌then◌else◌, Option, none, some,
}
use cert_manager_webhook_mij.Failure.{lock_timeout, Result, ok, err}
use cert_manager_webhook_mij.Names.{object_name}
use cert_manager_webhook_mij.Store.{Handle}
use cert_manager_webhook_mij.Store.ConfigMaps.{ConfigMap, Json, load, save, list_zones}
use cert_manager_webhook_mij.Kubernetes.{Client, Dict}
use cert_manager_webhook_mij.Lock.{Lease, LeaseLock, acquire, release}
use cert_manager_webhook_mij.Serial.{Answer, NsCache, serial}
use cert_manager_webhook_mij.Mijnhost.Client.{Web, new_client, get_records, put_records}
use cert_manager_webhook_mij.Serial.Queries.{Resolver, lookup_ns, exchange}
use cert_manager_webhook_mij.Solver.Secrets.{get_api_key}
use cert_manager_webhook_mij.World.{
  Event, acquired, released, loaded, saved, listed, key_read, serial_read, got, put, clocked, Log,
  Outside,
}

-- What the program calls, on a state of the cluster and of everything beyond it. `meanwhile` is what a
-- call brings about besides the Leases and ConfigMaps that it writes, and what others do until the
-- next call.
pub record System (Cluster : Type 0) : Type 0 where
  pub leases : Client Lease Cluster
  pub maps : Client ConfigMap Cluster
  pub list : Cluster → Text → Result (List ConfigMap)
  pub json : Json
  pub clock : Cluster → ℕ
  pub date : ℕ → Text
  pub pause : Cluster → Result (Unit {0}) × Cluster
  pub token : Cluster → Text
  pub secrets : Cluster → Text → Text → Result Dict
  pub web : Cluster → Web
  pub resolver : Cluster → Resolver
  pub meanwhile : Event → Cluster → Cluster

-- A pod: the cluster as it finds it, its cache of nameservers, and the locks that it asked for, the
-- newest first.
pub record Pod (Cluster : Type 0) : Type 0 where
  pub cluster : Cluster
  pub cache : NsCache
  pub holders : List (Text × Text)

abbrev pub holder_of : Text → List (Text × Text) → Text
holder_of zone [] = []
holder_of zone ((z, holder) ∷ rest) = if text_eq z zone then holder else holder_of zone rest

abbrev pub outcome {ℓ} : {A : Type ℓ} → Result A → Result (Unit {0})
outcome (ok _) = ok tt
outcome (err e) = err e

-- Out of passes, which does not happen where there are enough (Lock.Waiting).
abbrev pub or_timeout : Option (Result (Unit {0})) → Result (Unit {0})
or_timeout none = err lock_timeout
or_timeout (some r) = r

module _ {Cluster : Type 0} (sys : System Cluster) (lock : LeaseLock) (passes : ℕ) where
  abbrev pub acquire_in : Cluster → Text → Option (Result (Unit {0})) × Cluster
  acquire_in s zone = acquire sys.leases lock sys.clock sys.pause passes zone (sys.token s) s

  abbrev pub serial_in : Pod Cluster → Text → Result ℕ × NsCache
  serial_in p zone =
      let net = sys.resolver p.cluster in
      serial (sys.clock p.cluster) (sys.clock p.cluster) (lookup_ns net) (exchange net) zone p.cache

  -- What a call leaves behind.
  unfoldable pub after : Event → Pod Cluster → Pod Cluster
  unfolding acquire release save serial lookup_ns exchange
  after (acquired zone r) p = record p {
    cluster = sys.meanwhile (acquired zone r) (acquire_in p.cluster zone).1;
    holders = (zone, lock.identity ++ (codes "/" ++ sys.token p.cluster)) ∷ p.holders;
  }
  after (released zone) p = record p {
    cluster =
        sys.meanwhile (released zone)
          (release sys.leases (object_name zone) (holder_of zone p.holders) p.cluster);
  }
  after (saved h r) p = record p {
    cluster = sys.meanwhile (saved h r) (save sys.maps sys.json h p.cluster).1;
  }
  after (serial_read zone r) p = record p {
    cluster = sys.meanwhile (serial_read zone r) p.cluster;
    cache = (serial_in p zone).1;
  }
  after e p = record p { cluster = sys.meanwhile e p.cluster }

  -- The pod behind all calls of a log.
  unfoldable pub replay : Pod Cluster → Log → Pod Cluster
  unfolding after
  replay p [] = p
  replay p (e ∷ l) = after e (replay p l)

  -- `Initialize`: what the reconciler is given.
  unfoldable pub outside_of : Pod Cluster → Outside
  unfolding replay acquire load save list_zones get_api_key serial lookup_ns exchange get_records
      put_records
  outside_of p = record {
    acquire = λ l zone. or_timeout (acquire_in (replay p l).cluster zone).0;
    load = λ l zone. load sys.maps sys.json zone (replay p l).cluster;
    save = λ l h. outcome (save sys.maps sys.json h (replay p l).cluster).0;
    list_zones = λ l. list_zones sys.list (replay p l).cluster;
    api_key = λ l ref. get_api_key (sys.secrets (replay p l).cluster) ref;
    serial = λ l zone. (serial_in (replay p l) zone).0;
    get_records = λ l key zone. get_records (sys.web (replay p l).cluster) (new_client key) zone;
    put_records = λ l key zone records.
        put_records (sys.web (replay p l).cluster) (new_client key) zone records;
    now = λ l. sys.clock (replay p l).cluster;
    date = sys.date;
  }
