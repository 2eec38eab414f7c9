-- ===== src/EventHttp.antt =====
-- The `/events` routes of the host (apps/electron-client/src/eventHttp.ts).
pub mod Limiter
pub mod Routes
use Prim.Native.Char.{code}
use Prim.Native.String.{[] as nil_text, ◌∷◌ as cons_text}
use tapes_monorepo.Base.{
  ℕ, ◌+◌, ◌*◌, String, Bool, true, false, not, ◌&&◌, ◌||◌, List, [], ◌∷◌, Option, none, some,
  if◌then◌else◌, ltb, leb, ◌==◌, nat_eq, text_eq, length, all, Float,
}
use tapes_monorepo.Json.{Json, member, as_text, as_num, as_items, is_obj, non_empty, arr}
use tapes_monorepo.EventStore.{Written, PlaybackEvent, StoredEvent, append}
use tapes_monorepo.Aggregates.{record_events, Host}

pub data RejectionReason : Type 0 where
  malformed unknown_recording : RejectionReason

pub record Rejection : Type 0 where
  pub index : ℕ
  pub id : Option String
  pub reason : RejectionReason
  pub retryable : Bool

pub record IngestResponse : Type 0 where
  pub accepted : List String
  pub duplicates : List String
  pub rejected : List Rejection

abbrev pub default_max_batch_events : ℕ
default_max_batch_events = 500

abbrev pub default_max_body_bytes : ℕ
default_max_body_bytes = 1024 * 1024

-- `readBody`, over the sizes of the chunks: true when it throws `BodyTooLargeError`
unfoldable pub is_too_large : ℕ → List ℕ → ℕ → Bool
is_too_large max_bytes [] size = false
is_too_large max_bytes (chunk ∷ chunks) size =
    ltb max_bytes (size + chunk) || is_too_large max_bytes chunks (size + chunk)

abbrev between : ℕ → ℕ → ℕ → Bool
between lo hi c = leb lo c && leb c hi

-- `[1-9A-HJ-NP-Za-km-z]`
unfoldable pub is_base58 : ℕ → Bool
is_base58 c =
    between b'1' b'9' c
    || between b'A' b'H' c
    || between b'J' b'N' c
    || between b'P' b'Z' c
    || between b'a' b'k' c
    || between b'm' b'z' c

unfoldable pub codes : String → List ℕ
codes nil_text = []
codes (cons_text c s) = code c ∷ codes s

-- The rest of a text behind a prefix.
unfoldable pub strip_prefix : List ℕ → List ℕ → Option (List ℕ)
strip_prefix [] s = some s
strip_prefix (p ∷ ps) [] = none
strip_prefix (p ∷ ps) (c ∷ s) = if p == c then strip_prefix ps s else none

-- `RECORDING_URL_PATTERN.test(url)`
unfoldable pub is_recording_url : String → Bool
unfolding is_base58 codes strip_prefix
is_recording_url url = elim (strip_prefix (codes "automerge:") (codes url)) [
  | none ↦ false
  | some rest ↦ leb 16 (length rest) && all is_base58 rest
]

pub data Validated (N : Type 0) : Type 0 where
  valid : PlaybackEvent N → Validated N
  invalid : Option String → RejectionReason → Validated N

abbrev pub event_ids : {N : Type 0} → List (StoredEvent N) → List String
event_ids [] = []
event_ids (e ∷ es) = e.id ∷ event_ids es

pub record Request (N : Type 0) : Type 0 where
  -- lower case, without parameters
  pub media_type : String
  -- the sizes of the chunks, and what `JSON.parse` makes of them
  pub chunks : List ℕ
  pub parsed : Option (Json N)

pub data Reply : Type 0 where
  status : ℕ → Reply
  answer : IngestResponse → Reply

-- `is_date s` is `!Number.isNaN(Date.parse(s))`.
module _ (f : Float) (is_date : String → Bool) where
  open f use {Num, clamp_unit, is_finite}

  -- the checks of `validate` behind the id, each with its early return
  unfoldable pub validate_fields : String → Json Num → Validated Num
  validate_fields id raw = elim (as_text (member "recordingUrl" raw)) [
    | none ↦ invalid (some id) malformed
    | some url ↦
        if not (is_recording_url url)
        then invalid (some id) malformed
        else elim (as_num (member "completion" raw)) [
          | none ↦ invalid (some id) malformed
          | some completion ↦
              if not (is_finite completion)
              then invalid (some id) malformed
              else elim (as_text (member "occurredAt" raw)) [
                | none ↦ invalid (some id) malformed
                | some occurred_at ↦
                    if not (is_date occurred_at)
                    then invalid (some id) malformed
                    else valid (record {
                      id = id;
                      recording_url = url;
                      completion = clamp_unit completion;
                      occurred_at = occurred_at;
                      device_id = non_empty (as_text (member "deviceId" raw));
                    })
              ]
        ]
  ]

  abbrev is_play : Option String → Bool
  is_play none = false
  is_play (some t) = t == "play"

  unfoldable pub validate : Json Num → Validated Num
  unfolding validate_fields
  validate raw =
      if not (is_obj raw)
      then invalid none malformed
      else elim (non_empty (as_text (member "id" raw))) [
        | none ↦ invalid none malformed
        | some id ↦
            if not (is_play (as_text (member "type" raw)))
            then invalid (some id) malformed
            else validate_fields id raw
      ]

  -- `isKnownRecording` asks the documents that the host holds.
  module _ (is_known : String → Bool) where
    abbrev refuse : ℕ → Option String → RejectionReason → Bool → Rejection
    refuse index id reason retryable = record {
      index = index;
      id = id;
      reason = reason;
      retryable = retryable;
    }

    -- the loop of `handleIngest` over `submitted.entries()`
    unfoldable pub judge : ℕ → List (Json Num) → List (PlaybackEvent Num) × List Rejection
    judge index [] = ([], [])
    judge index (candidate ∷ rest) =
        let (events, rejected) = judge (index + 1) rest in
        elim (validate candidate) [
          | invalid id reason ↦ (events, refuse index id reason false ∷ rejected)
          | valid e ↦
              if is_known e.recording_url
              then (e ∷ events, rejected)
              else (events, refuse index (some e.id) unknown_recording true ∷ rejected)
        ]

    -- The batch as it is stored and answered. There is no answer when the log cannot be written.
    unfoldable pub ingest : Host f → List (Json Num) → ℕ → Written → Host f × Option IngestResponse
    ingest h submitted now written =
        let (events, rejected) = judge 0 submitted in
        let (store, result) = append h.events events now written in
        elim result [
          | none ↦ (record h { events = store }, none)
          | some r ↦ (
            record { events = store; aggregates = record_events f h.aggregates r.accepted },
            some (record {
              accepted = event_ids r.accepted;
              duplicates = r.duplicates;
              rejected = rejected;
            }),
          )
        ]

    -- `{ events: [...] }` or a bare array
    unfoldable pub submitted_events : Json Num → Option (List (Json Num))
    submitted_events (arr vs) = as_items (some (arr vs))
    submitted_events parsed = as_items (member "events" parsed)

    -- An answer is sent with 200. A log that cannot be written is the 500 of the caller's `catch`.
    abbrev pub reply_with : Host f × Option IngestResponse → Host f × Reply
    reply_with (h, none) = (h, status 500)
    reply_with (h, some a) = (h, answer a)

    -- `handleIngest`
    unfoldable pub handle_ingest :
        (max_batch_events max_body_bytes : ℕ) → Host f → Request Num → ℕ → Written → Host f × Reply
    unfolding submitted_events
    handle_ingest max_batch_events max_body_bytes h r now written =
        if not (r.media_type == "application/json")
        then (h, status 415)
        else if is_too_large max_body_bytes r.chunks 0
        then (h, status 413)
        else elim r.parsed [
          | none ↦ (h, status 400)
          | some parsed ↦ elim (submitted_events parsed) [
            | none ↦ (h, status 400)
            | some submitted ↦
                if ltb max_batch_events (length submitted)
                then (h, status 413)
                else reply_with (ingest h submitted now written)
          ]
        ]
