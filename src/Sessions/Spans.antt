-- ===== src/Sessions/Spans.antt =====
-- sessionRecorder.ts: the spans that a session records.
use tapes_monorepo.Base.{
  ℕ, ◌≤◌, max, Bool, true, not, ◌&&◌, ◌||◌, List, [], ◌∷◌, ◌++◌, inl, inr, none, some, ◌≡◌, refl,
  arith, leb, nat_beq_iff, text_eq, nat_eq, ◌==◌, Option-cases, is_some, all, any-append,
}
use tapes_monorepo.Connections.{SyncConnection, connections}
use tapes_monorepo.Statements.{}
use tapes_monorepo.Sessions.{
  Span, Tracked, is_live, proven_key, track_connection, track_connections, is_present, end_spans,
  track,
}

is_live-append :
    (id : ℕ) (xs ys : List Span) → is_live id (xs ++ ys) ≡ (is_live id xs || is_live id ys)
is_live-append id xs ys = any-append (λ s. s.connection == id && not (is_some s.left_at)) xs ys

is_live-track_connection :
    (c : SyncConnection) (t : Tracked) (id : ℕ)
    → is_live id (track_connection c t).spans
      ≡ (is_live id t.spans || c.id == id && is_some (proven_key c))
unfolding track_connection
is_live-track_connection c t id = elim (Option-cases (proven_key c)) [
  | inl unproven ↦ ground (arith, unproven)
  | inr (key, proven) ↦
      let span : Span = record {
        connection = c.id;
        span_device = key;
        joined_at = max c.connected_at t.opened_at;
        left_at = none;
      } in
      ground (arith, proven, is_live-append id t.spans (span ∷ []), nat_beq_iff c.id id)
]

is_live-track_connections :
    (cs : List SyncConnection) (t : Tracked) (id : ℕ)
    → is_live id (track_connections cs t).spans ≡ (is_live id t.spans || is_present cs id)
unfolding track_connections
is_live-track_connections [] t id = ground arith
is_live-track_connections (c ∷ cs) t id =
    ground (
      arith,
      is_live-track_connections cs (track_connection c t) id,
      is_live-track_connection c t id,
    )

is_live-end_spans :
    (stays : ℕ → Bool) (at : ℕ) (spans : List Span) (id : ℕ)
    → is_live id (end_spans stays at spans) ≡ (is_live id spans && stays id)
unfolding end_spans
is_live-end_spans stays at [] id = refl
is_live-end_spans stays at (s ∷ spans) id =
    ground (arith, is_live-end_spans stays at spans id, nat_beq_iff s.connection id)

-- After a change of the connections, those with a live span are just those that are there and have
-- proved a device key.
pub track_lem :
    (at : ℕ) (connections : List SyncConnection) (t : Tracked) (id : ℕ)
    → is_live id (track at connections t).spans ≡ is_present connections id
unfolding track
track_lem at connections t id = ground (
  arith,
  is_live-end_spans (is_present connections) at (track_connections connections t).spans id,
  is_live-track_connections connections t id,
)

-- A span begins by the time given and, if it has an end, ends between its beginning and that time.
abbrev pub is_timely : ℕ → Span → Bool
is_timely now s =
    leb s.joined_at now
    && elim s.left_at [ none ↦ true | some left ↦ leb s.joined_at left && leb left now ]

abbrev pub are_timely : ℕ → Tracked → Bool
are_timely now t = leb t.opened_at now && all (is_timely now) t.spans

all-append : (p : Span → Bool) (xs ys : List Span) → all p (xs ++ ys) ≡ (all p xs && all p ys)
all-append p [] ys = refl
all-append p (x ∷ xs) ys = ground (arith, all-append p xs ys)

timely-later :
    (now at : ℕ) (spans : List Span)
    → now ≤ at
    → all (is_timely now) spans ≡ true
    → all (is_timely at) spans ≡ true
timely-later now at [] later ok = refl
timely-later now at (s ∷ spans) later ok = ground (arith, later, ok, timely-later now at spans)

timely-end_spans :
    (stays : ℕ → Bool) (at : ℕ) (spans : List Span)
    → all (is_timely at) spans ≡ true
    → all (is_timely at) (end_spans stays at spans) ≡ true
unfolding end_spans
timely-end_spans stays at [] ok = refl
timely-end_spans stays at (s ∷ spans) ok = ground (arith, ok, timely-end_spans stays at spans)

timely-track_connection :
    (at : ℕ) (c : SyncConnection) (t : Tracked)
    → leb c.connected_at at ≡ true
    → are_timely at t ≡ true
    → are_timely at (track_connection c t) ≡ true
unfolding track_connection
timely-track_connection at c t early ok = elim (Option-cases (proven_key c)) [
  | inl unproven ↦ ground (arith, unproven, ok)
  | inr (key, proven) ↦
      let span : Span = record {
        connection = c.id;
        span_device = key;
        joined_at = max c.connected_at t.opened_at;
        left_at = none;
      } in
      ground (arith, proven, early, ok, all-append (is_timely at) t.spans (span ∷ []))
]

timely-track_connections :
    (at : ℕ) (cs : List SyncConnection) (t : Tracked)
    → all (λ c. leb c.connected_at at) cs ≡ true
    → are_timely at t ≡ true
    → are_timely at (track_connections cs t) ≡ true
unfolding track_connections
timely-track_connections at [] t early ok = ok
timely-track_connections at (c ∷ cs) t early ok =
    timely-track_connections at cs (track_connection c t) (ground (arith, early))
      (timely-track_connection at c t (ground (arith, early)) ok)

-- Each span of a session ends no earlier than it begins, and not in the future: a change of the
-- connections keeps it so, if none of them connected in the future and the clock does not go back.
pub track-are_timely :
    (now at : ℕ) (connections : List SyncConnection) (t : Tracked)
    → now ≤ at
    → all (λ c. leb c.connected_at at) connections ≡ true
    → are_timely now t ≡ true
    → are_timely at (track at connections t) ≡ true
unfolding track
track-are_timely now at connections t later early ok =
    let moved : are_timely at t ≡ true = ground (arith, later, ok, timely-later now at t.spans) in
    let t' = track_connections connections t in
    ground (
      arith,
      timely-track_connections at connections t early moved,
      timely-end_spans (is_present connections) at t'.spans,
    )
