-- ===== src/HostSession.antt =====
-- The host's session as it is published in root documents (apps/electron-client/src/hostSession.ts),
-- over the recorder of sessions. A method that waits for a document to be found is in two parts, so
-- that others run in between.
pub mod Published
pub mod Cleared
pub mod Always
use tapes_monorepo.Base.{
  ℕ, String, Bool, false, not, ◌&&◌, List, [], ◌∷◌, ◌++◌, Option, none, some, if◌then◌else◌,
  text_eq, nat_eq, ◌==◌, is_some, list_eq, filter, any, Dict, get, set, delete,
}
use tapes_monorepo.Connections.{SyncConnection, connections}
use tapes_monorepo.Sessions.{
  Tracked, SessionRecorder, open_session, connections_changed, claim_verified, close_session,
  end_grace,
}

pub record PublishedSession : Type 0 where
  pub session_id : String
  pub started_at : String

pub record HostSession : Type 0 where
  pub recorder : SessionRecorder
  -- the session that is open, and its document
  pub published_in : Option (String × String)
  -- the `session` field of each root document that has one
  pub fields : Dict String PublishedSession
  -- the sessions that were stopped, with documents that are still to be found to clear the field
  pub clearing : List (String × String)

-- `iso` writes a time.
module _ (iso : ℕ → String) where
  abbrev pub published : Tracked → PublishedSession
  published t = record { session_id = t.session_id; started_at = iso t.opened_at }

  unfoldable pub current : HostSession → Option PublishedSession
  current h = elim h.recorder.current [ none ↦ none | some t ↦ some (published t) ]

  -- The first part of `start` throws where a session is open.
  abbrev pub begin_start : HostSession → Bool
  begin_start h = not (is_some h.recorder.current)

  -- The rest of `start`, with whether the document was found. No result where it throws.
  unfoldable pub finish_start :
      Bool
      → String
      → String
      → ℕ
      → List SyncConnection
      → HostSession
      → HostSession × Option PublishedSession
  unfolding open_session
  finish_start found session_id doc_url now connections h =
      if not found
      then (h, none)
      else elim (open_session session_id doc_url now connections h.recorder) [
        | none ↦ (h, none)
        | some recorder ↦
            let session : PublishedSession = record {
              session_id = session_id;
              started_at = iso now;
            } in
            (
              record h {
                recorder = recorder;
                published_in = some (session_id, doc_url);
                fields = set doc_url session h.fields;
              },
              some session,
            )
      ]

-- `stop`, until it waits for the document
unfoldable pub begin_stop : ℕ → HostSession → HostSession
unfolding close_session
begin_stop now h = elim h.recorder.current [
  | none ↦ h
  | some t ↦
      let waiting : List (String × String) = elim h.published_in [
        | none ↦ []
        | some target ↦ if target.0 == t.session_id then target ∷ [] else []
      ] in
      record h {
        recorder = close_session now h.recorder;
        published_in = none;
        clearing = h.clearing ++ waiting;
      }
]

abbrev pub clear_field : (PublishedSession → Bool) → String → HostSession → HostSession
clear_field test doc_url h = elim (get doc_url h.fields) [
  | none ↦ h
  | some field ↦ if test field then record h { fields = delete doc_url h.fields } else h
]

-- the rest of a `stop`
unfoldable pub finish_stop : Bool → String → String → HostSession → HostSession
finish_stop found session_id doc_url h =
    let waits = any (λ (id, doc). id == session_id && doc == doc_url) h.clearing in
    let h' = record h {
      clearing = filter (λ (id, doc). not (id == session_id && doc == doc_url)) h.clearing;
    } in
    if waits && found then clear_field (λ f. f.session_id == session_id) doc_url h' else h'

-- `clearStale`, once the document is found
unfoldable pub clear_stale : String → HostSession → HostSession
clear_stale doc_url h =
    let names_open : PublishedSession → Bool =
      λ f. elim h.recorder.current [ none ↦ false | some t ↦ f.session_id == t.session_id ] in
    clear_field (λ f. not (names_open f)) doc_url h

-- A crash leaves the documents.
unfoldable pub crash : HostSession → HostSession
crash h = record {
  recorder = record { current = none; closing = [] };
  published_in = none;
  fields = h.fields;
  clearing = [];
}

pub data SessionStep : Type 0 where
  starts : Bool → String → String → ℕ → List SyncConnection → SessionStep
  stops : ℕ → SessionStep
  clears : Bool → String → String → SessionStep
  clears_stale : String → SessionStep
  connects : ℕ → List SyncConnection → SessionStep
  verifies : String → String → SessionStep
  settles : String → SessionStep
  crashes : SessionStep

module _ (iso : ℕ → String) (host_key : String) where
  unfoldable pub take_session_step : SessionStep → HostSession → HostSession
  unfolding finish_start begin_stop finish_stop clear_stale connections_changed claim_verified
      end_grace crash
  take_session_step (starts found session_id doc_url now connections) h =
      (finish_start iso found session_id doc_url now connections h).0
  take_session_step (stops now) h = begin_stop now h
  take_session_step (clears found session_id doc_url) h = finish_stop found session_id doc_url h
  take_session_step (clears_stale doc_url) h = clear_stale doc_url h
  take_session_step (connects now connections) h = record h {
    recorder = connections_changed now connections h.recorder;
  }
  take_session_step (verifies session_id address) h = record h {
    recorder = claim_verified session_id address h.recorder;
  }
  take_session_step (settles session_id) h = record h {
    recorder = (end_grace iso host_key session_id h.recorder).0;
  }
  take_session_step crashes h = crash h

  unfoldable pub take_session_steps : List SessionStep → HostSession → HostSession
  unfolding take_session_step
  take_session_steps [] h = h
  take_session_steps (s ∷ rest) h = take_session_steps rest (take_session_step s h)
