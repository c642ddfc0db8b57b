-- ===== src/Idempotency/Serve.antt =====
-- backend/internal/idempotency/handler.go: the wrapper that runs a request once per key.
-- The wrapped handler runs between `begin` and `finish`; others may run in between. `Claim` of the
-- memory store has no error. A request's body is `none` when it cannot be read.
use stablecoin_settlement_en.Common.{
  ℕ, ◌-◌, ◌/◌, ◌^◌, Bool, ◌||◌, Option, none, some, ltb, if◌then◌else◌, length, Bytes, str, ◌=?◌,
  Bytes-eq, is_empty, Result, ok, err, ◌>>=◌, ◌>>◌, refuse_if,
}
use stablecoin_settlement_en.Idempotency.{
  Response, Record, Outcome, Policy, Store, fresh, replay, still_running, mismatch, stale_claim,
  validate_key, fingerprint_of, claim, complete,
}

-- The parts of the HTTP request that the wrapper reads, with the scope that `opts.Scope` gives.
pub record Call : Type 0 where
  pub method : Bytes
  pub path : Bytes
  pub scope : Option Bytes
  pub key_header : Bytes
  pub body : Option Bytes

-- The wrapper's own error answers, with `Retry-After` where it is set.
pub data Refusal : Type 0 where
  unauthorized key_required key_invalid body_unreadable body_too_large key_reused : Refusal
  key_in_flight : ℕ → Refusal
  attempt_superseded : Refusal

-- Their HTTP status.
unfoldable pub status_code : Refusal → ℕ
status_code unauthorized = 401
status_code key_required = 400
status_code key_invalid = 400
status_code body_unreadable = 400
status_code body_too_large = 413
status_code key_reused = 422
status_code (key_in_flight n) = 409
status_code attempt_superseded = 409

-- What a call comes to before the wrapped handler runs: it is let through as it is, refused,
-- answered again, or it runs under a key as an attempt.
pub data Start : Type 0 where
  pass : Start
  refused : Refusal → Start
  replayed : Option Response → Start
  run : Bytes → Bytes → ℕ → Start

pub data Reply : Type 0 where
  reply : Response → Reply
  refused : Refusal → Reply

-- `MaxBodyBytes`.
abbrev pub max_body_bytes : ℕ
max_body_bytes = 2 ^ 20

unfoldable pub safe_method : Bytes → Bool
safe_method m = (m =? str "GET") || (m =? str "HEAD") || (m =? str "OPTIONS")

-- `retryAfterSeconds`. The float in between is exact for leases below 2 ^ 22 seconds.
unfoldable pub retry_after : Record → ℕ → ℕ
retry_after r now = let secs = (r.lease_until - now) / 10 ^ 9 in if ltb secs 1 then 1 else secs

-- The scope, the key and the body, or the first refusal.
unfoldable pub admit : Call → Result Refusal (Bytes × Bytes × Bytes)
unfolding validate_key
admit c = elim c.scope [
  | none ↦ err unauthorized
  | some scope ↦ do
    refuse_if (is_empty c.key_header) key_required
    elim (validate_key c.key_header) [ err e ↦ err key_invalid | ok u ↦ ok tt ]
    body ← elim c.body [ none ↦ err body_unreadable | some b ↦ ok b ]
    refuse_if (ltb max_body_bytes (length body)) body_too_large
    ok (scope, c.key_header, body)
]

-- The `switch outcome`.
unfoldable pub on_outcome : ℕ → Bytes → Bytes → Record → Outcome → Start
unfolding retry_after
on_outcome now scope key r mismatch = refused key_reused
on_outcome now scope key r still_running = refused (key_in_flight (retry_after r now))
on_outcome now scope key r replay = replayed r.response
on_outcome now scope key r fresh = run scope key r.attempt

module _ (sha256 : Bytes → Bytes) where
  -- Up to the wrapped handler.
  unfoldable pub begin : Call → ℕ → Policy → Store → Store × Start
  unfolding safe_method admit on_outcome
  begin c now p m = if safe_method c.method then (m, pass) else elim (admit c) [
    | err e ↦ (m, refused e)
    | ok (scope, key, body) ↦
        let (n, r, o) = claim scope key (fingerprint_of sha256 c.method c.path body) now p m in
        (n, on_outcome now scope key r o)
  ]

-- From the wrapped handler's answer on.
unfoldable pub finish : Bytes → Bytes → ℕ → Response → Store → Store × Reply
finish scope key attempt resp m = elim (complete scope key attempt resp m) [
  | ok n ↦ (n, reply resp)
  | err stale_claim ↦ (m, refused attempt_superseded)
  | err _ ↦ (m, reply resp)
]
