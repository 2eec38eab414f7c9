-- ===== src/Tests/Published.antt =====
-- hostSession.ts: a stop whose clearing comes after the next start.
use tapes_monorepo.Base.{
  ℕ, String, true, List, [], ◌∷◌, ◌≡◌, refl, if◌then◌else◌, text_eq, nat_eq, ◌==◌, list_eq, get,
  set, delete,
}
use tapes_monorepo.HostSession.{
  SessionStep, take_session_steps, starts, stops, clears, clears_stale,
}
use tapes_monorepo.HostSession.Always.{launched, is_current_published, current_is_published}

abbrev plain_iso : ℕ → String
plain_iso n = if n == 1 then "one" else "later"

abbrev session_steps : List SessionStep
session_steps =
    starts true "first" "doc" 1 []
    ∷ stops 2
    ∷ starts true "second" "doc" 3 []
    ∷ clears true "first" "doc"
    ∷ clears_stale "doc"
    ∷ []

current_is_published_example :
    is_current_published plain_iso "host"
      (take_session_steps plain_iso "host" session_steps (launched []))
    ≡ true
current_is_published_example = current_is_published plain_iso "host" session_steps [] refl

second_is_published :
    (take_session_steps plain_iso "host" session_steps (launched [])).fields
    ≡ ("doc", record { session_id = "second"; started_at = "later" }) ∷ []
unfolding take_session_steps get set delete
second_is_published = refl
