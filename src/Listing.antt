-- ===== src/Listing.antt =====
-- listable_rest.go: the LIST and WATCH of a resource that stores nothing.
pub mod Watching
pub mod Schemas
pub mod Closed
use cert_manager_webhook_mij.Prelude.{
  Bool, true, false, not, ◌&&◌, ◌||◌, List, [], ◌∷◌, map, Option, none, some, if◌then◌else◌, ◌≡◌,
  Text,
}

-- `ChallengePayloadList` with its `TypeMeta`, whose `Items` may be nil. `Payload` is
-- `v1alpha1.ChallengePayload`.
pub record ChallengePayloadList {ℓ} (Payload : Type ℓ) : Type ℓ where
  pub kind : Text
  pub api_version : Text
  pub list_meta : Text
  pub items : Option (List Payload)

module _ {ℓ} {Payload : Type ℓ} where
  -- `NewList`
  abbrev pub new_list : ChallengePayloadList Payload
  new_list = record { kind = []; api_version = []; list_meta = []; items = none }

  -- `List`
  abbrev pub list : ChallengePayloadList Payload
  list = record { kind = []; api_version = []; list_meta = []; items = some [] }

  -- `DeepCopyObject` of a list that is not nil, with `DeepCopyInto` of each item.
  unfoldable pub deep_copy :
      (Payload → Payload) → ChallengePayloadList Payload → ChallengePayloadList Payload
  deep_copy copy l = record {
    kind = l.kind;
    api_version = l.api_version;
    list_meta = l.list_meta;
    items = elim l.items [ none ↦ none | some items ↦ some (map copy items) ];
  }

-- `listableREST`: the handler that cert-manager has, and the group and resource of its table converter.
-- The methods that it does not have itself are those of `inner`.
pub record ListableRest {ℓ} (Rest : Type ℓ) : Type ℓ where
  pub inner : Rest
  pub table_group : Text
  pub table_resource : Text

-- `newListableREST`, with the group of cert-manager's package.
abbrev pub new_listable_rest {ℓ} : {Rest : Type ℓ} → Text → Rest → Text → ListableRest Rest
new_listable_rest scheme_group inner resource = record {
  inner = inner;
  table_group = scheme_group;
  table_resource = resource;
}

-- `blockingWatcher` with its goroutine and its context. A channel is closed or not; to close it again
-- is a panic. Nothing is ever sent on `result`.
pub record BlockingWatcher : Type 0 where
  pub result_closed : Bool
  pub stop_closed : Bool
  pub stopped_once : Bool
  pub waiting : Bool
  pub context_over : Bool
  pub panicked : Bool

-- `newBlockingWatcher`, with its goroutine started.
unfoldable pub new_blocking_watcher : Bool → BlockingWatcher
new_blocking_watcher over = record {
  result_closed = false;
  stop_closed = false;
  stopped_once = false;
  waiting = true;
  context_over = over;
  panicked = false;
}

abbrev pub close_stop : BlockingWatcher → BlockingWatcher
close_stop w =
    if w.stop_closed then record w { panicked = true } else record w { stop_closed = true }

abbrev pub close_result : BlockingWatcher → BlockingWatcher
close_result w =
    if w.result_closed then record w { panicked = true } else record w { result_closed = true }

-- `Stop`, through its `sync.Once`.
unfoldable pub stop : BlockingWatcher → BlockingWatcher
stop w = if w.stopped_once then w else close_stop (record w { stopped_once = true })

-- The `select` of the goroutine goes on.
abbrev pub is_ready : BlockingWatcher → Bool
is_ready w = w.waiting && (w.context_over || w.stop_closed)

-- The rest of the goroutine.
unfoldable pub finish : BlockingWatcher → BlockingWatcher
finish w = record (close_result w) { waiting = false }

-- What can happen to a watcher, in any order.
pub data Step : BlockingWatcher → BlockingWatcher → Type 0 where
  stopping : (w : BlockingWatcher) → Step w (stop w)
  cancelled : (w : BlockingWatcher) → Step w (record w { context_over = true })
  finishing : (w : BlockingWatcher) → is_ready w ≡ true → Step w (finish w)

pub data Reach (w : BlockingWatcher) : BlockingWatcher → Type 0 where
  here : Reach w w
  next : {v u : BlockingWatcher} → Reach w v → Step v u → Reach w u
