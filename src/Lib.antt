-- ===== src/Lib.antt =====
-- cert-manager-webhook-mijn-host: a cert-manager DNS-01 webhook for mijn.host, whose API replaces the
-- records of a whole zone with every PUT. This library models how it writes zones: under a lock per
-- zone, from a state that is saved first, and against other writers by the SOA serial of the zone.
--
-- The parts, and how they work together:
--   zone/payload.go     Names (absolute_name, object_name), Payload (compute_payload with its loops,
--                       one function each; the Go maps are functions from keys to options), Payload/Zones
--                       (uploads on zones of which the order of the challenges is forgotten),
--                       Payload/Describing (Describe),
--   zone/reconciler.go  World (the calls that go out, in a log with the newest first, over the
--                       monad of Logged), Records (the pure parts: desired_records, split_expired, retime,
--                       without), Write (readSerial, ReadZone and the write loop), Reconciler
--                       (Present, CleanUp, Sweep, reconcile),
--   zone/store.go       Store (the data types), Store/ConfigMaps (Load, Save, ListZones), Store/Landing
--                       and Store/Writers (many writers of one zone),
--   zone/lock.go        Lock (NewLeaseLock, tryAcquire as what it reads, what it decides and the call
--                       that follows, Acquire, release), Lock/Tokens (randomToken), Lock/Holding (pods
--                       that interleave),
--   zone/serial.go      Serial (nameservers with their cache, Serial), Serial/Queries (soaQuery),
--   mijnhost/client.go  Mijnhost (DNSRecord), Mijnhost/Client (the requests and their status),
--   settings.go         Settings (loadSettings from the environment),
--   config.go,
--   solver.go           Solver (loadConfig, handle, Present and CleanUp of the solver) with
--                       Solver/Startup (Initialize, runSweeps), Solver/Secrets (getAPIKey),
--                       Solver/Trigger (triggerContext), Solver/Covering (the lock for the
--                       time of a request), Solver/Handling (what a challenge request comes to), and
--                       Pod (the reconciler over the lock, the store, the serials and the client that
--                       Initialize gives it, on one cluster), Pod/Sharing (other pods that load and
--                       save the zone between its calls),
--   main.go             Program (main, over the server and the solver),
--   server.go           Server (runWebhookServer and runAPIServer as the chain of their calls),
--   listable_rest.go    Listing (the list that is empty, and the watcher that blocks, as steps),
--                       Listing/Schemas (the OpenAPI definitions).
-- Failure holds the errors, Prelude the shared names, tests and text functions, Tests the runs at
-- concrete inputs.
--
-- A text is the list of its code points, a Go int is ℤ, a time is a natural number of nanoseconds.
-- The reconciler runs against an `Outside`: functions from the log of all calls so far to an answer.
-- Nothing is supposed of the answers but what a theorem names, so that each statement holds for every
-- behaviour of the lock, the store, the API, the nameservers and the clock. The write loop is
-- recursion on the attempts that are left, `MaxWriteAttempts` of them, as in the program.
--
-- Kubernetes holds the client that the store and the lock call, with the documented behaviour that
-- they rely on; the JSON encoding of a state is a parameter too. `acquire` takes a bound on its passes.
-- It is enough where it is one more than a number of poll intervals that last longer than the wait
-- timeout, from 52 at the defaults of 25 s and 500 ms: the last pass then starts after the deadline.
--
-- In Pod the calls of a log are made one after another: each finds the cluster, the cache and the
-- tokens as the calls before it left them, and what other pods do to the cluster happens between them:
-- Pod/Requests is about a zone that only this pod writes meanwhile, Pod/Surviving about one that others
-- load and save too.
-- Requests that one pod handles at the same time see each other in the answers of the `Outside` only.
-- HTTP, net/url, JSON, time.ParseDuration, the environment, Secrets, cert-manager and DNS are
-- parameters there; of the Kubernetes client the theorems name what they rely on.
--
-- In Server each library of the API server is a field of `Libraries`, with answers that may depend on
-- all calls before; of cobra a theorem names that it runs a command once at most.
--
-- Not modelled: log output and SecretRef.String, which serves it, contexts that
-- are cancelled between two calls of the reconciler, and methods that only pass on a field of
-- another package's type (ConvertToTable, ResultChan).
pub mod Prelude
pub mod Names
pub mod Failure
pub mod Mijnhost
pub mod Payload
pub mod Store
pub mod Logged
pub mod World
pub mod Records
pub mod Write
pub mod Reconciler
pub mod Kubernetes
pub mod Lock
pub mod Serial
pub mod Listing
pub mod Settings
pub mod Solver
pub mod Pod
pub mod Server
pub mod Program
mod Tests
