-- ===== src/Retry.antt =====
-- backend/internal/txfail: whether a failed job is delivered again, and when.
-- A `time.Duration` here is the 64-bit word of an int64 of nanoseconds, with its sign bit.
use stablecoin_settlement_en.Common.{
  ℕ, zero, suc, ◌+◌, ◌-◌, ◌*◌, ◌/◌, ◌%◌, ◌^◌, Bool, ◌&&◌, ◌||◌, Option, none, some, u64, ltb, leb,
  if◌then◌else◌, not,
}
pub mod Backoff

-- Less than zero, and less, on int64 words.
unfoldable pub negative : ℕ → Bool
negative d = leb (2 ^ 63) d

unfoldable pub less : ℕ → ℕ → Bool
less a b = ltb ((a + 2 ^ 63) % u64) ((b + 2 ^ 63) % u64)

-- Greater than zero.
unfoldable pub positive : ℕ → Bool
positive d = ltb 0 d && ltb d (2 ^ 63)

pub record Policy : Type 0 where
  pub max_attempts : ℕ
  pub max_backoff : ℕ
  pub jitter : Option (ℕ → ℕ)

-- The loop of `Backoff`, with how often it still runs at most.
unfoldable pub double : ℕ → ℕ → ℕ → ℕ
unfolding positive less
double max zero d = d
double max (suc n) d =
    let further = double max n (d * 2 % u64) in
    if not (positive max) || less d max then further else d

-- What the loop gave, capped.
unfoldable pub capped : ℕ → ℕ → ℕ
unfolding positive less
capped max d = if positive max && less max d then max else d

-- `Policy.Backoff`.
unfoldable pub backoff : Policy → ℕ → ℕ → ℕ
unfolding double capped positive
backoff p base attempt =
    if not (positive base)
    then 0
    else let d = capped p.max_backoff (double p.max_backoff (attempt - 1) base) in
      elim p.jitter [ none ↦ d | some j ↦ j d ]

-- `EqualJitter`, with the number that `rand.N` draws for a bound.
unfoldable pub equal_jitter : (ℕ → ℕ) → ℕ → ℕ
unfolding positive
equal_jitter rand d = if not (positive d) then 0 else d / 2 + rand ((d - d / 2 + 1) % u64)

-- A failure; `poison` says whether its error was declared with `ErrPoison`.
pub record Fault : Type 0 where
  pub poison : Bool
  pub attempt : ℕ
  pub base : ℕ

pub data Verdict : Type 0 where
  retryable : ℕ → Verdict
  poison : Verdict

-- `Policy.Judge`.
unfoldable pub judge : Policy → Fault → Verdict
unfolding backoff
judge p f =
    if f.poison || (ltb 0 p.max_attempts && leb p.max_attempts f.attempt)
    then poison
    else retryable (backoff p f.base f.attempt)
