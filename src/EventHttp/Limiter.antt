-- ===== src/EventHttp/Limiter.antt =====
-- The token bucket of eventHttp.ts (`createRateLimiter`), for one connection. Tokens are counted in
-- thousandths; the clock does not go back.
use native.Mathlib.Nat.{mul-add, add-mul}
use tapes_monorepo.Base.{
  ℕ, ◌+◌, ◌-◌, ◌*◌, ◌≤◌, min, Bool, true, false, List, [], ◌∷◌, Option, none, some, ◌≡◌, arith,
  if◌then◌else◌, ltb, text_eq, nat_eq, or_else, indicator,
}

abbrev pub default_rate_burst : ℕ
default_rate_burst = 30

abbrev pub default_rate_refill_per_second : ℕ
default_rate_refill_per_second = 1

pub record Bucket : Type 0 where
  pub tokens : ℕ
  pub updated : ℕ

-- `take`; a connection without a bucket gets a full one
unfoldable pub take : ℕ → ℕ → Option Bucket → ℕ → Bucket × Bool
take burst refill_per_second known at =
    let bucket : Bucket = or_else known (record { tokens = 1000 * burst; updated = at }) in
    let filled = min (1000 * burst) (bucket.tokens + (at - bucket.updated) * refill_per_second) in
    if ltb filled 1000
    then (record { tokens = filled; updated = at }, false)
    else (record { tokens = filled - 1000; updated = at }, true)

-- Requests one after another, each with the time that has passed since the one before: how many are
-- let through.
unfoldable pub take_all : ℕ → ℕ → Bucket → List ℕ → ℕ
unfolding take
take_all burst refill_per_second bucket [] = 0
take_all burst refill_per_second bucket (passed ∷ more) =
    let (next, allowed) = take burst refill_per_second (some bucket) (bucket.updated + passed) in
    indicator allowed + take_all burst refill_per_second next more

abbrev pub total : List ℕ → ℕ
total [] = 0
total (n ∷ ns) = n + total ns

take-spends :
    (burst refill_per_second passed : ℕ) (bucket : Bucket)
    → let (next, allowed) = take burst refill_per_second (some bucket) (bucket.updated + passed) in
      1000 * indicator allowed + next.tokens ≤ bucket.tokens + passed * refill_per_second
unfolding take
take-spends burst refill_per_second passed bucket =
    let elapsed : bucket.updated + passed - bucket.updated ≡ passed = omega arith in
    rw elapsed (ground arith)

take_all-spends :
    (burst refill_per_second : ℕ) (bucket : Bucket) (delays : List ℕ)
    → 1000 * take_all burst refill_per_second bucket delays
      ≤ bucket.tokens + total delays * refill_per_second
unfolding take_all
take_all-spends burst refill_per_second bucket [] = omega arith
take_all-spends burst refill_per_second bucket (passed ∷ more) =
    let (next, allowed) = take burst refill_per_second (some bucket) (bucket.updated + passed) in
    omega (
      arith,
      take-spends burst refill_per_second passed bucket,
      take_all-spends burst refill_per_second next more,
      mul-add 1000 (indicator allowed) (take_all burst refill_per_second next more),
      add-mul passed (total more) refill_per_second,
    )

take-first :
    (burst refill_per_second at : ℕ)
    → let (next, allowed) = take burst refill_per_second none at in
      1000 * indicator allowed + next.tokens ≤ 1000 * burst
unfolding take
take-first burst refill_per_second at = ground arith

-- Of the requests that one connection makes, the first at any time and the others with any delays, no
-- more are let through than the burst, and what is refilled over the sum of the delays.
pub take_all-bounded :
    (burst refill_per_second at : ℕ) (delays : List ℕ)
    → let (bucket, allowed) = take burst refill_per_second none at in
      1000 * (indicator allowed + take_all burst refill_per_second bucket delays)
      ≤ 1000 * burst + total delays * refill_per_second
take_all-bounded burst refill_per_second at delays =
    let (bucket, allowed) = take burst refill_per_second none at in
    omega (
      arith,
      take-first burst refill_per_second at,
      take_all-spends burst refill_per_second bucket delays,
      mul-add 1000 (indicator allowed) (take_all burst refill_per_second bucket delays),
    )
