-- ===== src/Sessions.antt =====
-- The host's record of a session (apps/electron-client/src/sessionRecorder.ts). The code keeps each
-- device's spans in an object that it shares with the map of live connections; here the spans are one
-- list, in the order in which they begin, and a span is live while it has no end.
pub mod Spans
pub mod Claims
use tapes_monorepo.Base.{
  ℕ, max, String, Bool, false, not, ◌&&◌, ◌||◌, List, [], ◌∷◌, ◌++◌, map, Option, none, some,
  if◌then◌else◌, text_eq, nat_eq, ◌==◌, is_some, or_else, filter, any, add, Dict, keys, get, set,
  delete,
}
use tapes_monorepo.Connections.{SyncConnection, connections}
use tapes_monorepo.Statements.{SessionSpan, SessionRecord}

abbrev pub default_session_grace_ms : ℕ
default_session_grace_ms = 60_000

pub record Span : Type 0 where
  pub connection : ℕ
  pub span_device : String
  pub joined_at : ℕ
  pub left_at : Option ℕ

pub record Tracked : Type 0 where
  pub session_id : String
  pub opened_at : ℕ
  pub doc_url : String
  -- the proven device keys, with the last label that each gave
  pub labels : Dict String (Option String)
  pub spans : List Span
  pub claims : List String

pub record SessionRecorder : Type 0 where
  pub current : Option Tracked
  -- closed sessions in their grace period, with the time of the close
  pub closing : Dict String (Tracked × ℕ)

abbrev pub is_live : ℕ → List Span → Bool
is_live id = any (λ s. s.connection == id && not (is_some s.left_at))

-- A connection counts by the key that it proved, which is not the empty text.
abbrev pub proven_key : SyncConnection → Option String
proven_key c = elim c.device_key [ none ↦ none | some key ↦ if key == "" then none else some key ]

-- the first loop of `track`, for one connection
unfoldable pub track_connection : SyncConnection → Tracked → Tracked
track_connection c t = elim (proven_key c) [
  | none ↦ t
  | some key ↦
      let known = or_else (get key t.labels) none in
      let label : Option String = elim c.label [ none ↦ known | some l ↦ some l ] in
      record t {
        labels = set key label t.labels;
        spans =
            if is_live c.id t.spans
            then t.spans
            else t.spans
              ++ record {
                connection = c.id;
                span_device = key;
                joined_at = max c.connected_at t.opened_at;
                left_at = none;
              }
                ∷ [];
      }
]

unfoldable pub track_connections : List SyncConnection → Tracked → Tracked
unfolding track_connection
track_connections [] t = t
track_connections (c ∷ cs) t = track_connections cs (track_connection c t)

abbrev pub is_present : List SyncConnection → ℕ → Bool
is_present connections id = any (λ c. c.id == id && is_some (proven_key c)) connections

-- the second loop of `track`: the live spans of connections that have gone end
unfoldable pub end_spans : (ℕ → Bool) → ℕ → List Span → List Span
end_spans stays at [] = []
end_spans stays at (s ∷ spans) =
    (if is_some s.left_at || stays s.connection then s else record s { left_at = some at })
    ∷ end_spans stays at spans

unfoldable pub track : ℕ → List SyncConnection → Tracked → Tracked
unfolding track_connections end_spans
track at connections t =
    let t' = track_connections connections t in
    record t' { spans = end_spans (is_present connections) at t'.spans }

abbrev pub new_session : String → String → ℕ → Tracked
new_session session_id doc_url now = record {
  session_id = session_id;
  opened_at = now;
  doc_url = doc_url;
  labels = [];
  spans = [];
  claims = [];
}

-- `open`; it throws where a session is open, or the same one is still closing
unfoldable pub open_session :
    String → String → ℕ → List SyncConnection → SessionRecorder → Option SessionRecorder
unfolding track
open_session session_id doc_url now connections r =
    if is_some r.current || is_some (get session_id r.closing)
    then none
    else some
        (record r { current = some (track now connections (new_session session_id doc_url now)) })

unfoldable pub connections_changed : ℕ → List SyncConnection → SessionRecorder → SessionRecorder
unfolding track
connections_changed now connections r = elim r.current [
  | none ↦ r
  | some t ↦ record r { current = some (track now connections t) }
]

abbrev add_claim : String → Tracked → Tracked
add_claim address t = record t { claims = add t.claims address }

abbrev add_closing_claim : String → String → Dict String (Tracked × ℕ) → Dict String (Tracked × ℕ)
add_closing_claim session_id address closing = elim (get session_id closing) [
  | none ↦ closing
  | some (t, closed_at) ↦ set session_id (add_claim address t, closed_at) closing
]

-- `claimVerified`
unfoldable pub claim_verified : String → String → SessionRecorder → SessionRecorder
claim_verified session_id address r = elim r.current [
  | none ↦ record r { closing = add_closing_claim session_id address r.closing }
  | some t ↦
      if t.session_id == session_id
      then record r { current = some (add_claim address t) }
      else record r { closing = add_closing_claim session_id address r.closing }
]

-- `close`, up to its grace period
unfoldable pub close_session : ℕ → SessionRecorder → SessionRecorder
unfolding end_spans
close_session now r = elim r.current [
  | none ↦ r
  | some t ↦ record {
    current = none;
    closing =
        set t.session_id (record t { spans = end_spans (λ id. false) now t.spans }, now) r.closing;
  }
]

-- `iso` writes a time.
module _ (iso : ℕ → String) (host_key : String) where
  abbrev pub spans_of : String → ℕ → List Span → List SessionSpan
  spans_of key closed_at spans =
      map (λ s. record { joined_at = iso s.joined_at; left_at = iso (or_else s.left_at closed_at) })
        (filter (λ s. s.span_device == key) spans)

  -- the payload that `sign` signs
  unfoldable pub session_record : Tracked → ℕ → SessionRecord
  session_record t closed_at = record {
    session_id = t.session_id;
    opened_at = iso t.opened_at;
    closed_at = iso closed_at;
    devices =
        map
          (λ (key, label). record {
            device_key = key;
            label = label;
            spans = spans_of key closed_at t.spans;
          })
          t.labels;
    claims = t.claims;
    host_key = host_key;
  }

  -- The end of a grace period: the record, and the session is closing no longer.
  unfoldable pub end_grace : String → SessionRecorder → SessionRecorder × Option SessionRecord
  unfolding session_record
  end_grace session_id r = elim (get session_id r.closing) [
    | none ↦ (r, none)
    | some (t, closed_at) ↦
        (record r { closing = delete session_id r.closing }, some (session_record t closed_at))
  ]
