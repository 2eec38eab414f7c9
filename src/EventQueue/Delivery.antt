-- ===== src/EventQueue/Delivery.antt =====
-- eventQueue.ts and eventHttp.ts together: a flush from a guest to its host.
use tapes_monorepo.Base.{
  ℕ, ◌≤◌, String, Bool, true, false, ◌||◌, List, [], ◌++◌, map, ◌≢◌, ◌⊎◌, inl, inr, Option, none,
  some, ◌≡◌, refl, ap, arith, ◌==◌, nat_eq, text_eq, Bool-cases, Option-cases, length, includes,
  includes-append, Float,
}
use tapes_monorepo.Json.{member, as_items, arr, obj, end, field}
use tapes_monorepo.EventStore.{Written, PlaybackEvent, admit, append}
use tapes_monorepo.EventStore.Retry.{IsTaken-admit}
use tapes_monorepo.Aggregates.{Host}
use tapes_monorepo.EventQueue.{
  BlobEndpoint, Queues, Fetched, read_queue, settled_ids, ids_of, flush_queue, responded,
}
use tapes_monorepo.EventHttp.{
  IngestResponse, is_too_large, event_ids, Request, Reply, ingest, reply_with, handle_ingest,
  status, answer,
}
use tapes_monorepo.EventQueue.Wire.{
  to_json, items_of, items-items_of, length-map, judged, settle-judge, is_accounted, admit_ids,
  any-IsTaken, judge_accounted, invalid_accounted,
}
use tapes_monorepo.EventQueue.Flush.{flush_queue-answered, flush_queue-deferred}

module _ (f : Float) (is_date : String → Bool) where
  open f use {Num, is_finite}

  module _ (is_known : String → Bool) where
    ingest_parts :
        (h : Host f) (batch : List (PlaybackEvent Num)) (now : ℕ) (written : Written)
        (response : IngestResponse)
        → let taken = ingest f is_date is_known h (map (to_json f is_date) batch) now written in
          let admitted = admit now (judged f is_date is_known 0 batch).0 h.events.seen in
          taken.1 ≡ some response
          → (taken.0.events.seen ≡ admitted.seen)
            × (response.accepted ≡ event_ids admitted.accepted)
            × (response.duplicates ≡ admitted.duplicates)
            × (response.rejected ≡ (judged f is_date is_known 0 batch).1)
    unfolding ingest append
    ingest_parts h batch now written response answered =
        (ground arith, ground arith, ground arith, ground arith)

    -- Whatever id the answer settles, the host has the event, or the event is invalid.
    settled_accounted :
        (h : Host f) (batch : List (PlaybackEvent Num)) (now : ℕ) (written : Written)
        (response : IngestResponse) (id : String)
        → (ingest f is_date is_known h (map (to_json f is_date) batch) now written).1
          ≡ some response
        → includes (settled_ids batch response) id ≡ true
        → is_accounted f is_date is_known
            (ingest f is_date is_known h (map (to_json f is_date) batch) now written).0.events.seen
            id
            batch
          ≡ true
    unfolding settled_ids
    settled_accounted h batch now written response id answered settled =
        let (events, rejected) = judged f is_date is_known 0 batch in
        let admitted = admit now events h.events.seen in
        let parts = ingest_parts h batch now written response answered in
        let known = event_ids admitted.accepted ++ admitted.duplicates in
        let taken = IsTaken-admit now events h.events.seen in
        ground (
          arith,
          parts,
          settle-judge f is_date is_known batch [] batch known id refl,
          includes-append (event_ids admitted.accepted) admitted.duplicates id,
          admit_ids f is_date is_known now events h.events.seen id,
          any-IsTaken f is_date is_known admitted.seen events id taken,
          judge_accounted f is_date is_known admitted.seen 0 batch id,
          invalid_accounted f is_date is_known admitted.seen batch id,
        )

    -- The route's reply as the guest meets it.
    abbrev pub fetched : Reply → Fetched
    fetched (status code) = responded code none
    fetched (answer response) = responded 200 (some response)

    -- A request that carries a batch.
    abbrev pub batch_request : List ℕ → List (PlaybackEvent Num) → Request Num
    batch_request chunks batch = record {
      media_type = "application/json";
      chunks = chunks;
      parsed =
          some
            (obj (field "events" (arr (items_of f is_date (map (to_json f is_date) batch))) end));
    }

    module _ (max_events max_bytes : ℕ) (h : Host f) (storage current : Queues Num)
        (endpoint : BlobEndpoint) (chunks : List ℕ) (now : ℕ) (written : Written) where
      abbrev pub sent : List (PlaybackEvent Num)
      sent = read_queue storage endpoint

      abbrev pub exchange : Host f × Reply
      exchange =
          handle_ingest f is_date is_known max_events max_bytes h (batch_request chunks sent) now
            written

      abbrev pub queue_after : List (PlaybackEvent Num)
      queue_after =
          read_queue (flush_queue storage endpoint (fetched exchange.1) current).0 endpoint

      abbrev taken : Host f × Option IngestResponse
      taken = ingest f is_date is_known h (map (to_json f is_date) sent) now written

      exchange-taken :
          is_too_large max_bytes chunks 0 ≡ false
          → length sent ≤ max_events
          → exchange ≡ reply_with f is_date is_known taken
      unfolding handle_ingest member as_items
      exchange-taken small few =
          rw (items-items_of f is_date (map (to_json f is_date) sent), small)
            (ground (arith, length-map f is_date sent))

      abbrev queue_with : Reply → List (PlaybackEvent Num)
      queue_with reply =
          read_queue (flush_queue storage endpoint (fetched reply) current).0 endpoint

      queue_with-status : queue_with (status 500) ≡ read_queue current endpoint
      queue_with-status =
          ap (λ q. read_queue q endpoint)
            (flush_queue-deferred storage current endpoint (responded 500 none) refl)

      queue_with-empty :
          (reply : Reply) → sent ≡ [] → queue_with reply ≡ read_queue current endpoint
      unfolding flush_queue
      queue_with-empty reply none_sent = rw none_sent

      sent_cases : (sent ≡ []) ⊎ (sent ≢ [])
      sent_cases = elim (Bool-cases (length sent == 0)) [
        | inl p ↦ inl (ground arith)
        | inr p ↦ inr (λ e. ground arith)
      ]

      replies :
          is_too_large max_bytes chunks 0 ≡ false
          → length sent ≤ max_events
          → (exchange.0.events.seen ≡ taken.0.events.seen)
            × (((taken.1 ≡ none) × (exchange.1 ≡ status 500))
                ⊎ ((response : IngestResponse) × (taken.1 ≡ some response)
                    × (exchange.1 ≡ answer response)))
      replies small few = rw (exchange-taken small few) (elim (Option-cases taken.1) [
        | inl e ↦ (ground arith, inl (e, ground arith))
        | inr (response, e) ↦ (ground arith, inr (response, e, ground arith))
      ])

      -- A play that is in the queue when the host answers is still there after the flush, or the
      -- host's index holds an event that was sent with its id, or such an event is one that the host
      -- finds invalid. This is whether the host's write to its log succeeds or fails, and whatever
      -- plays were queued meanwhile; the batch keeps to the host's limits.
      pub flush_delivers :
          (id : String)
          → is_too_large max_bytes chunks 0 ≡ false
          → length sent ≤ max_events
          → includes (ids_of (read_queue current endpoint)) id ≡ true
          → (includes (ids_of queue_after) id
              || is_accounted f is_date is_known exchange.0.events.seen id sent)
            ≡ true
      flush_delivers id small few queued =
          let (seen, cases) = replies small few in
          elim sent_cases [
            | inl nothing ↦ ground (
              arith,
              ap (λ q. includes (ids_of q) id) (queue_with-empty exchange.1 nothing),
              queued,
            )
            | inr full ↦ elim cases [
              | inl (failed, replied) ↦ ground (
                arith,
                ap (λ r. includes (ids_of (queue_with r)) id) replied,
                ap (λ q. includes (ids_of q) id) queue_with-status,
                queued,
              )
              | inr (response, answered, replied) ↦ ground (
                arith,
                seen,
                queued,
                ap (λ r. includes (ids_of (queue_with r)) id) replied,
                flush_queue-answered storage current endpoint 200 response id full refl,
                settled_accounted h sent now written response id answered,
                ap (λ s. is_accounted f is_date is_known s id sent) seen,
              )
            ]
          ]
