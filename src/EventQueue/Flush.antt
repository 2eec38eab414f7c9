-- ===== src/EventQueue/Flush.antt =====
-- eventQueue.ts: what a flush and an enqueue do to the queue of a host.
use tapes_monorepo.Base.{
  ℕ, zero, suc, ◌-◌, min, String, Bool, true, false, not, ◌&&◌, ◌||◌, List, [], ◌∷◌, ◌++◌, ◌≢◌,
  none, some, ◌≡◌, refl, ◌∙◌, ap, arith, eq_iff, if◌then◌else◌, ◌==◌, nat_eq, text_eq, ==_refl,
  length, drop, length-drop, filter, includes, get-set, get-delete,
}
use tapes_monorepo.EventStore.{PlaybackEvent}
use tapes_monorepo.EventHttp.{IngestResponse}
use tapes_monorepo.EventQueue.{
  BlobEndpoint, Queues, Fetched, is_refused, is_ok_status, read_queue, write_queue, enqueue_event,
  settled_ids, apply_ingest_response, ids_of, merge_answer, flush_queue, unreachable, responded,
}

-- The exchange failed in a way that another try may mend.
abbrev pub IsDeferral : Fetched → Type 0
IsDeferral unreachable = Unit {0}
IsDeferral (responded code (some answer)) = (is_refused code ≡ false) × (is_ok_status code ≡ false)
IsDeferral (responded code none) = is_refused code ≡ false

module _ {N : Type 0} where
  pub read_queue-write :
      (storage : Queues N) (a b : BlobEndpoint) (es : List (PlaybackEvent N))
      → read_queue (write_queue storage a es) b
        ≡ (if a.base_url == b.base_url then es else read_queue storage b)
  unfolding read_queue write_queue
  read_queue-write storage a b [] = ground (arith, get-delete a.base_url b.base_url storage)
  read_queue-write storage a b (e ∷ es) =
      ground (arith, get-set a.base_url b.base_url (e ∷ es) storage)

  -- The last of a list behind those that are dropped.
  drop-split :
      (n : ℕ) (xs : List (PlaybackEvent N)) → (ys : List (PlaybackEvent N)) × (xs ≡ ys ++ drop n xs)
  drop-split zero xs = ([], refl)
  drop-split (suc n) [] = ([], refl)
  drop-split (suc n) (x ∷ xs) = let (ys, e) = drop-split n xs in (x ∷ ys, ap (◌∷◌ x) e)

  -- A play joins the end of its host's queue. The queue then holds the newest plays, as many as the
  -- cap allows, in order, and the queues of other hosts are as they were.
  pub enqueue_event_lem :
      (storage : Queues N) (a b : BlobEndpoint) (e : PlaybackEvent N) (cap : ℕ)
      → let queue = read_queue storage a ++ e ∷ [] in
        let storage' = enqueue_event storage a e cap in
        ((older : List (PlaybackEvent N)) × (queue ≡ older ++ read_queue storage' a))
        × (length (read_queue storage' a) ≡ min cap (length queue))
        × (a.base_url ≢ b.base_url → read_queue storage' b ≡ read_queue storage b)
  unfolding enqueue_event
  enqueue_event_lem storage a b e cap =
      let queue = read_queue storage a ++ e ∷ [] in
      let dropped = drop-split (length queue - cap) queue in
      let written =
        read_queue-write storage a a (drop (length queue - cap) queue)
        ∙ ap (λ t. if t then drop (length queue - cap) queue else read_queue storage a)
            (==_refl a.base_url) in
      (
        (dropped.0, rw written dropped.1),
        rw written (omega (arith, length-drop (length queue - cap) queue)),
        λ differ. ground (
          arith,
          read_queue-write storage a b (drop (length queue - cap) queue),
          eq_iff a.base_url b.base_url,
        ),
      )

  ids_of-filter :
      (p : String → Bool) (es : List (PlaybackEvent N)) (id : String)
      → includes (ids_of (filter (λ e. p e.id) es)) id ≡ (p id && includes (ids_of es) id)
  ids_of-filter p [] id = ground arith
  ids_of-filter p (e ∷ es) id = ground (arith, ids_of-filter p es id, eq_iff e.id id)

  flush_queue-writes :
      (storage current : Queues N) (endpoint : BlobEndpoint) (code : ℕ) (answer : IngestResponse)
      → read_queue storage endpoint ≢ []
      → is_ok_status code ≡ true
      → let batch = read_queue storage endpoint in
        (flush_queue storage endpoint (responded code (some answer)) current).0
        ≡ write_queue current endpoint
            (merge_answer batch (apply_ingest_response batch answer) (read_queue current endpoint))
  unfolding flush_queue
  flush_queue-writes storage current endpoint code answer full ok = ground arith

  ids_of-merge_answer :
      (batch current : List (PlaybackEvent N)) (answer : IngestResponse) (id : String)
      → includes (ids_of (merge_answer batch (apply_ingest_response batch answer) current)) id ≡ (
          includes (ids_of current) id
          && not (includes (ids_of batch) id && includes (settled_ids batch answer) id))
  unfolding merge_answer apply_ingest_response
  ids_of-merge_answer batch current answer id =
      let kept = apply_ingest_response batch answer in
      ground (
        arith,
        ids_of-filter (λ k. not (includes (ids_of batch) k) || includes (ids_of kept) k) current id,
        ids_of-filter (λ k. not (includes (settled_ids batch answer) k)) batch id,
      )

  -- Once the host has answered, an id is in the queue exactly when it was in the queue at that
  -- moment, and was not both in the batch that was sent and among the ids that the answer settles.
  pub flush_queue-answered :
      (storage current : Queues N) (endpoint : BlobEndpoint) (code : ℕ) (answer : IngestResponse)
      (id : String)
      → read_queue storage endpoint ≢ []
      → is_ok_status code ≡ true
      → let batch = read_queue storage endpoint in
        let after = (flush_queue storage endpoint (responded code (some answer)) current).0 in
        includes (ids_of (read_queue after endpoint)) id ≡ (
          includes (ids_of (read_queue current endpoint)) id
          && not (includes (ids_of batch) id && includes (settled_ids batch answer) id))
  flush_queue-answered storage current endpoint code answer id full ok =
      let merged =
        merge_answer (read_queue storage endpoint)
          (apply_ingest_response (read_queue storage endpoint) answer)
          (read_queue current endpoint) in
      let stored = flush_queue-writes storage current endpoint code answer full ok in
      let written = read_queue-write current endpoint endpoint merged in
      rw (stored, written, ==_refl endpoint.base_url)
        (ids_of-merge_answer (read_queue storage endpoint) (read_queue current endpoint) answer id)

  -- A host that is not reached, or that answers neither in the 200s nor 400, 413 or 415, or with a
  -- body that is not read, changes nothing of what is queued.
  pub flush_queue-deferred :
      (storage current : Queues N) (endpoint : BlobEndpoint) (response : Fetched)
      → IsDeferral response
      → (flush_queue storage endpoint response current).0 ≡ current
  unfolding flush_queue
  flush_queue-deferred storage current endpoint unreachable h = ground arith
  flush_queue-deferred storage current endpoint (responded code none) h = ground arith
  flush_queue-deferred storage current endpoint (responded code (some answer)) h = ground arith
