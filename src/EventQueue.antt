-- ===== src/EventQueue.antt =====
-- A guest's outbox of playback events (packages/core/app/eventQueue.ts), over the storage of its
-- device. A queued event has a device id; its completion is a number of the model.
pub mod Flush
pub mod Wire
pub mod Delivery
use tapes_monorepo.Base.{
  ℕ, ◌-◌, ◌*◌, ◌^◌, min, max, String, Bool, true, not, ◌&&◌, ◌||◌, List, [], ◌∷◌, ◌++◌, Option,
  none, some, if◌then◌else◌, leb, ◌==◌, nat_eq, text_eq, or_else, length, drop, get_elem?, filter,
  find, includes, Dict, get, set, delete,
}
use tapes_monorepo.EventStore.{PlaybackEvent}
use tapes_monorepo.EventHttp.{IngestResponse, Rejection}

pub record BlobEndpoint : Type 0 where
  pub base_url : String
  pub is_local : Bool

abbrev pub default_max_queued_events : ℕ
default_max_queued_events = 500

abbrev pub initial_backoff_ms : ℕ
initial_backoff_ms = 5_000

abbrev pub max_backoff_ms : ℕ
max_backoff_ms = 5 * 60 * 1000

-- `base` of `backoffDelay`, before the jitter: `random()` scales it by a factor in [0.5, 1)
unfoldable pub backoff_base : ℕ → ℕ
backoff_base consecutive_failures =
    min max_backoff_ms (initial_backoff_ms * 2 ^ (consecutive_failures - 1))

-- `endpoints.find((endpoint) => endpoint.local !== true) ?? endpoints[0]`
unfoldable pub resolve_event_target : List BlobEndpoint → Option BlobEndpoint
resolve_event_target endpoints = elim (find (λ e. not e.is_local) endpoints) [
  | some e ↦ some e
  | none ↦ get_elem? endpoints 0
]

-- `Record<string, PlaybackEvent[]>`, under one key of the storage
abbrev pub Queues : Type 0 → Type 0
Queues N = Dict String (List (PlaybackEvent N))

-- What `fetch` comes to: an exception, or a status with a body that is an answer or is not.
pub data Fetched : Type 0 where
  unreachable : Fetched
  responded : ℕ → Option IngestResponse → Fetched

pub data FlushOutcome : Type 0 where
  flushed : ℕ → FlushOutcome
  empty deferred : FlushOutcome

abbrev pub is_refused : ℕ → Bool
is_refused code = code == 400 || code == 413 || code == 415

-- `response.ok`
abbrev pub is_ok_status : ℕ → Bool
is_ok_status code = leb 200 code && leb code 299

module _ {N : Type 0} where
  unfoldable pub read_queue : Queues N → BlobEndpoint → List (PlaybackEvent N)
  read_queue storage endpoint = or_else (get endpoint.base_url storage) []

  unfoldable pub write_queue : Queues N → BlobEndpoint → List (PlaybackEvent N) → Queues N
  write_queue storage endpoint [] = delete endpoint.base_url storage
  write_queue storage endpoint (e ∷ es) = set endpoint.base_url (e ∷ es) storage

  -- `queue.slice(Math.max(0, queue.length - cap))`
  unfoldable pub keep_last : ℕ → List (PlaybackEvent N) → List (PlaybackEvent N)
  keep_last cap queue = drop (length queue - cap) queue

  unfoldable pub enqueue_event : Queues N → BlobEndpoint → PlaybackEvent N → ℕ → Queues N
  unfolding keep_last
  enqueue_event storage endpoint e cap =
      write_queue storage endpoint (keep_last cap (read_queue storage endpoint ++ e ∷ []))

  -- `rejection.id ?? batch[rejection.index]?.id`
  abbrev pub rejected_id : List (PlaybackEvent N) → Rejection → Option String
  rejected_id batch r = elim r.id [
    | some id ↦ some id
    | none ↦ elim (get_elem? batch r.index) [ none ↦ none | some e ↦ some e.id ]
  ]

  unfoldable pub settle_rejected :
      List (PlaybackEvent N) → List Rejection → List String → List String
  settle_rejected batch [] settled = settled
  settle_rejected batch (r ∷ rs) settled = settle_rejected batch rs (
      if r.retryable
      then settled
      else elim (rejected_id batch r) [ none ↦ settled | some id ↦ settled ++ id ∷ [] ])

  unfoldable pub settled_ids : List (PlaybackEvent N) → IngestResponse → List String
  unfolding settle_rejected
  settled_ids batch response =
      settle_rejected batch response.rejected (response.accepted ++ response.duplicates)

  unfoldable pub apply_ingest_response :
      List (PlaybackEvent N) → IngestResponse → List (PlaybackEvent N)
  unfolding settled_ids
  apply_ingest_response batch response =
      filter (λ e. not (includes (settled_ids batch response) e.id)) batch

  abbrev pub ids_of : List (PlaybackEvent N) → List String
  ids_of [] = []
  ids_of (e ∷ es) = e.id ∷ ids_of es

  -- The queue that is written back: `current` is what the storage holds when the answer arrives.
  unfoldable pub merge_answer :
      List (PlaybackEvent N)
      → List (PlaybackEvent N)
      → List (PlaybackEvent N)
      → List (PlaybackEvent N)
  merge_answer batch kept current =
      filter (λ e. not (includes (ids_of batch) e.id) || includes (ids_of kept) e.id) current

  -- `storage` is read when the flush begins, and `current` when the host has answered.
  unfoldable pub flush_queue :
      Queues N → BlobEndpoint → Fetched → Queues N → Queues N × FlushOutcome
  unfolding merge_answer
  flush_queue storage endpoint response current =
      let batch = read_queue storage endpoint in
      if length batch == 0 then (current, empty) else elim response [
        | unreachable ↦ (current, deferred)
        | responded code body ↦
            if is_refused code
            then (write_queue current endpoint [], flushed 0)
            else if not (is_ok_status code)
            then (current, deferred)
            else elim body [
              | none ↦ (current, deferred)
              | some answer ↦
                  let kept = apply_ingest_response batch answer in
                  (
                    write_queue current endpoint
                        (merge_answer batch kept (read_queue current endpoint)),
                    flushed (length kept),
                  )
            ]
      ]
