-- ===== src/Tests/Outbox.antt =====
-- eventQueue.ts and eventHttp.ts on a small queue.
use tapes_monorepo.Base.{
  ℕ, String, Bool, true, false, ◌||◌, List, [], ◌∷◌, ◌≢◌, none, some, ◌≡◌, refl, sym, ◌∙◌, ap,
  arith, text_eq, nat_eq, includes, get,
}
use tapes_monorepo.EventStore.{
  whole, PlaybackEvent, StoredEvent, segment_day, admit, append_file, append, line,
}
use tapes_monorepo.EventHttp.{
  IngestResponse, is_too_large, is_recording_url, validate, judge, ingest, handle_ingest,
  unknown_recording,
}
use tapes_monorepo.Aggregates.{Host, RecordingAggregate}
use tapes_monorepo.Aggregates.Crash.{unfolded}
use tapes_monorepo.EventQueue.{BlobEndpoint, Queues, read_queue, ids_of}
use tapes_monorepo.EventHttp.Limiter.{take}
use tapes_monorepo.EventHttp.Routes.{
  Server, RoutedRequest, handle_event_request, events_path, post_method,
}
use tapes_monorepo.Json.{items, member, as_items}
use tapes_monorepo.EventQueue.Wire.{to_json, is_accounted}
use tapes_monorepo.EventQueue.Delivery.{batch_request, sent, exchange, queue_after, flush_delivers}
use tapes_monorepo.Tests.Numbers.{hundredths}

abbrev queued : String → PlaybackEvent ℕ
queued id = record {
  id = id;
  recording_url = "automerge:aaaaaaaaaaaaaaaa";
  completion = 50;
  occurred_at = "2026-01-01T00:00:00Z";
  device_id = some "phone";
}

abbrev endpoint : BlobEndpoint
endpoint = record { base_url = "http://host:1"; is_local = false }

abbrev other_endpoint : BlobEndpoint
other_endpoint = record { base_url = "http://host:2"; is_local = false }

abbrev storage : Queues ℕ
storage = ("http://host:1", queued "1" ∷ queued "2" ∷ []) ∷ []

-- A play that was queued during the request.
abbrev grown : Queues ℕ
grown = ("http://host:1", queued "1" ∷ queued "2" ∷ queued "3" ∷ []) ∷ []

storage-queued : read_queue storage endpoint ≢ []
unfolding read_queue get
storage-queued e = absurd (cc e)

abbrev partial_answer : IngestResponse
partial_answer = record {
  accepted = "1" ∷ [];
  duplicates = [];
  rejected = record { index = 1; id = none; reason = unknown_recording; retryable = true } ∷ [];
}

abbrev always : String → Bool
always s = true

abbrev new_host : Host hundredths
new_host = record {
  aggregates = unfolded hundredths;
  events = record { seen = []; opened = true; disk = [] };
}

flush_delivers_example :
    (includes
        (ids_of (
          queue_after hundredths always always 500 1000 new_host storage grown endpoint
            (80 ∷ [])
            1000
            whole))
        "3"
      || is_accounted hundredths always always
          (exchange hundredths always always 500 1000 new_host storage grown endpoint
            (80 ∷ [])
            1000
            whole).0.events.seen
          "3"
          (sent hundredths always always 500 1000 new_host storage grown endpoint
            (80 ∷ [])
            1000
            whole))
    ≡ true
unfolding read_queue get is_too_large
flush_delivers_example =
    flush_delivers hundredths always always 500 1000 new_host storage grown endpoint (80 ∷ []) 1000
      whole "3" refl (omega arith) refl

abbrev new_server : Server hundredths always always
new_server = record { host = new_host; bucket = none }

abbrev before : String → String → Bool
before a b = false

abbrev etag : List (RecordingAggregate hundredths) → String
etag as_ = "tag"

abbrev posted : RoutedRequest hundredths always always
posted = record {
  path = events_path;
  method = post_method;
  authorized = true;
  if_none_match = none;
  request = batch_request hundredths always always (80 ∷ []) (queued "1" ∷ []);
  at = 1000;
  written = whole;
}

abbrev served : Server hundredths always always
served =
    (handle_event_request hundredths always always before etag 30 1 500 1000 posted new_server).0

abbrev first_event : StoredEvent ℕ
first_event = record { event = queued "1"; received_at = 1000 }

served-log :
    served.host.events.disk
    ≡ record { day = 0; lines = line first_event ∷ []; unended = false } ∷ []
unfolding handle_event_request handle_ingest is_too_large ingest judge validate to_json append admit
    append_file segment_day member items is_recording_url take as_items
served-log = refl

served-changed : served.host ≢ new_server.host
served-changed e = absurd (cc (sym served-log ∙ ap (λ h. h.events.disk) e))
