-- ===== src/Challenges.antt =====
-- One-time challenges (apps/electron-client/src/syncChallenges.ts), in the order of their issue.
use tapes_monorepo.Base.{
  ℕ, zero, suc, ◌+◌, ◌≤◌, ◌<◌, String, Bool, false, List, [], ◌∷◌, none, some, ◌≡◌, arith,
  if◌then◌else◌, leb, text_eq, nat_eq, ==_refl, length, Dict, get, set, delete, get-set, get-delete,
  length-set-le, length-delete-le,
}

abbrev pub default_challenge_ttl_ms : ℕ
default_challenge_ttl_ms = 60_000

abbrev pub default_max_challenges : ℕ
default_max_challenges = 256

abbrev pub ChallengeStore : Type 0
ChallengeStore = Dict String ℕ

-- The loop of `issue`: the oldest go while there are too many. The fuel is the size of the store,
-- since each round removes one.
unfoldable pub evict : ℕ → ℕ → ChallengeStore → ChallengeStore
evict zero max_challenges issued_at = issued_at
evict (suc fuel) max_challenges [] = []
evict (suc fuel) max_challenges ((oldest, at) ∷ rest) =
    let evicted = evict fuel max_challenges (delete oldest rest) in
    if leb max_challenges (length ((oldest, at) ∷ rest)) then evicted else (oldest, at) ∷ rest

-- `issue`, with the challenge that is drawn
unfoldable pub issue : ℕ → String → ℕ → ChallengeStore → ChallengeStore
unfolding evict
issue max_challenges challenge now issued_at =
    set challenge now (evict (length issued_at) max_challenges issued_at)

-- `consume`; `now() - at <= ttlMs`, where the clock may have gone back
unfoldable pub consume : ℕ → String → ℕ → ChallengeStore → ChallengeStore × Bool
consume ttl_ms challenge now issued_at = (
  delete challenge issued_at,
  elim (get challenge issued_at) [ none ↦ false | some at ↦ leb now (at + ttl_ms) ],
)

evict-small :
    (fuel max_challenges : ℕ) (issued_at : ChallengeStore)
    → length issued_at ≤ fuel
    → 1 ≤ max_challenges
    → length (evict fuel max_challenges issued_at) < max_challenges
unfolding evict
evict-small zero max_challenges [] enough some_room = omega arith
evict-small zero max_challenges (c ∷ cs) enough some_room = absurd (omega (arith, enough))
evict-small (suc fuel) max_challenges [] enough some_room = omega arith
evict-small (suc fuel) max_challenges ((oldest, at) ∷ rest) enough some_room = ground (
  arith,
  enough,
  some_room,
  length-delete-le oldest rest,
  evict-small fuel max_challenges (delete oldest rest),
)

-- The store never holds more than the cap, and the challenge that was just issued is in it, with
-- the time of its issue. The cap is at least one.
pub issue_lem :
    (max_challenges : ℕ) (challenge : String) (now : ℕ) (issued_at : ChallengeStore)
    → 1 ≤ max_challenges
    → let after = issue max_challenges challenge now issued_at in
      (length after ≤ max_challenges) × (get challenge after ≡ some now)
unfolding issue
issue_lem max_challenges challenge now issued_at some_room =
    let kept = evict (length issued_at) max_challenges issued_at in
    (
      omega (
        arith,
        evict-small (length issued_at) max_challenges issued_at (omega arith) some_room,
        length-set-le challenge now kept,
      ),
      ground (arith, get-set challenge challenge now kept, ==_refl challenge),
    )

-- Uses of challenges, one after another.
unfoldable pub consume_all : ℕ → List (String × ℕ) → ChallengeStore → ChallengeStore × List Bool
unfolding consume
consume_all ttl_ms [] issued_at = (issued_at, [])
consume_all ttl_ms ((challenge, now) ∷ uses) issued_at =
    let (left, fresh) = consume ttl_ms challenge now issued_at in
    let (after, results) = consume_all ttl_ms uses left in (after, fresh ∷ results)

get-consume_all :
    (ttl_ms : ℕ) (uses : List (String × ℕ)) (challenge : String) (issued_at : ChallengeStore)
    → get challenge issued_at ≡ none
    → get challenge (consume_all ttl_ms uses issued_at).0 ≡ none
unfolding consume_all
get-consume_all ttl_ms [] challenge issued_at gone = gone
get-consume_all ttl_ms ((used, now) ∷ uses) challenge issued_at gone =
    get-consume_all ttl_ms uses challenge (delete used issued_at)
      (ground (arith, gone, get-delete used challenge issued_at))

-- A challenge works once: after it was used, whatever came of it and whatever other challenges were
-- used since, it is refused.
pub consume-once :
    (ttl_ms : ℕ) (challenge : String) (now later : ℕ) (uses : List (String × ℕ))
    (issued_at : ChallengeStore)
    → (consume ttl_ms challenge later
        (consume_all ttl_ms uses (consume ttl_ms challenge now issued_at).0).0).1
      ≡ false
unfolding consume
consume-once ttl_ms challenge now later uses issued_at = ground (
  arith,
  ==_refl challenge,
  get-consume_all ttl_ms uses challenge (delete challenge issued_at),
  get-delete challenge challenge issued_at,
)

-- A challenge that was issued is accepted for as long as its time to live, if it is used before
-- any other is issued or used, and refused from then on.
pub consume-issue :
    (max_challenges ttl_ms : ℕ) (challenge : String) (now later : ℕ) (issued_at : ChallengeStore)
    → (consume ttl_ms challenge later (issue max_challenges challenge now issued_at)).1
      ≡ leb later (now + ttl_ms)
unfolding consume issue
consume-issue max_challenges ttl_ms challenge now later issued_at = ground (
  arith,
  ==_refl challenge,
  get-set challenge challenge now (evict (length issued_at) max_challenges issued_at),
)
