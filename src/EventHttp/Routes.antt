-- ===== src/EventHttp/Routes.antt =====
-- The dispatch of eventHttp.ts (`handleEventRequest`), over one connection.
use tapes_monorepo.Base.{
  ℕ, String, Bool, true, false, not, List, [], ◌∷◌, ◌≢◌, Option, none, some, ◌≡◌, arith,
  if◌then◌else◌, text_eq, nat_eq, ◌==◌, Float,
}
use tapes_monorepo.Aggregates.{Host, RecordingAggregate, all_aggregates}
use tapes_monorepo.EventStore.{Written}
use tapes_monorepo.EventHttp.{Request, Reply, handle_ingest}
use tapes_monorepo.EventHttp.Limiter.{Bucket, take}

pub data RoutePath : Type 0 where
  events_path aggregates_path elsewhere : RoutePath

pub data RequestMethod : Type 0 where
  get_method head_method post_method options_method other_method : RequestMethod

module _ (f : Float) (is_date is_known : String → Bool) where
  open f use {Num}

  pub record Server : Type 0 where
    pub host : Host f
    -- the connection's bucket, once it has one
    pub bucket : Option Bucket

  -- What is answered: nothing, where the request is another handler's; a status; what the ingest
  -- answers; or the totals.
  pub data RouteReply : Type 0 where
    passed_on : RouteReply
    status_only : ℕ → RouteReply
    ingest_reply : Reply → RouteReply
    totals : List (RecordingAggregate f) → RouteReply

  -- a request, and what the dispatch looks at
  pub record RoutedRequest : Type 0 where
    pub path : RoutePath
    pub method : RequestMethod
    -- `isAuthorized`
    pub authorized : Bool
    pub if_none_match : Option String
    pub request : Request Num
    pub at : ℕ
    -- whether the log can be written
    pub written : Written

  abbrev pub is_allowed : RoutePath → RequestMethod → Bool
  is_allowed aggregates_path get_method = true
  is_allowed aggregates_path head_method = true
  is_allowed events_path post_method = true
  is_allowed _ _ = false

  -- `before` is `<` on texts, and `etag` the tag of a body.
  module _ (before : String → String → Bool) (etag : List (RecordingAggregate f) → String)
      (burst refill_per_second max_batch_events max_body_bytes : ℕ) where
    unfoldable pub insert_by_url :
        RecordingAggregate f → List (RecordingAggregate f) → List (RecordingAggregate f)
    insert_by_url a [] = a ∷ []
    insert_by_url a (b ∷ bs) =
        if before b.recording_url a.recording_url then b ∷ insert_by_url a bs else a ∷ b ∷ bs

    unfoldable pub sort_by_url : List (RecordingAggregate f) → List (RecordingAggregate f)
    unfolding insert_by_url
    sort_by_url [] = []
    sort_by_url (a ∷ as_) = insert_by_url a (sort_by_url as_)

    -- `handleAggregates`
    unfoldable pub handle_aggregates : Option String → Host f → RouteReply
    unfolding sort_by_url
    handle_aggregates if_none_match h =
        let sorted = sort_by_url (all_aggregates f h.aggregates.rollup) in
        elim if_none_match [
          | none ↦ totals sorted
          | some tag ↦ if tag == etag sorted then status_only 304 else totals sorted
        ]

    -- the requests that have paid for a token
    unfoldable pub serve : RoutedRequest → Host f → Host f × RouteReply
    unfolding handle_aggregates
    serve r h = elim r.path [
      | aggregates_path ↦ (h, handle_aggregates r.if_none_match h)
      | _ ↦
          let (after, reply) =
            handle_ingest f is_date is_known max_batch_events max_body_bytes h r.request r.at
              r.written in
          (after, ingest_reply reply)
    ]

    abbrev is_elsewhere : RoutePath → Bool
    is_elsewhere path = elim path [ elsewhere ↦ true | _ ↦ false ]

    abbrev is_options : RequestMethod → Bool
    is_options method = elim method [ options_method ↦ true | _ ↦ false ]

    unfoldable pub handle_event_request : RoutedRequest → Server → Server × RouteReply
    unfolding serve
    handle_event_request r server =
        if is_elsewhere r.path
        then (server, passed_on)
        else if is_options r.method
        then (server, status_only 204)
        else if not r.authorized
        then (server, status_only 401)
        else if not (is_allowed r.path r.method)
        then (server, status_only 405)
        else let (bucket, allowed) = take burst refill_per_second server.bucket r.at in
          let (host, reply) = serve r server.host in
          if not allowed
          then (record server { bucket = some bucket }, status_only 429)
          else (record { host = host; bucket = some bucket }, reply)

    -- A request changes the host's log or counts only if it carries the token, is a post of events,
    -- and its connection has a token of its budget left.
    pub handle_event_request-guards :
        (r : RoutedRequest) (server : Server)
        → (handle_event_request r server).0.host ≢ server.host
        → (r.authorized ≡ true)
          × (r.path ≡ events_path)
          × (r.method ≡ post_method)
          × ((take burst refill_per_second server.bucket r.at).1 ≡ true)
    unfolding handle_event_request
    handle_event_request-guards r server changed = (
      ground (arith, changed),
      ground (arith, changed),
      ground (arith, changed),
      ground (arith, changed),
    )
