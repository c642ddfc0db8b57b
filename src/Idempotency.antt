-- ===== src/Idempotency.antt =====
-- backend/internal/idempotency/key.go and store.go: claims on a key, and the answer stored under it.
use stablecoin_settlement_en.Common.{
  ℕ, ◌+◌, ◌-◌, ◌*◌, ◌%◌, ◌^◌, ◌≡◌, ◌↔◌, Bool, true, false, ◌&&◌, ◌||◌, Option, none, some, List, [],
  ◌∷◌, ◌++◌, arith, u64, ltb, ◌==◌, if◌then◌else◌, not, length, Bytes, Eq, ◌=?◌, bytes_eq_iff,
  Bytes-eq, is_empty, Dict, lookup, insert, delete, Result, ok, err, ◌>>=◌, ◌>>◌, refuse_if,
}
pub mod Serve
pub mod Kept
pub mod Answers

pub data Status : Type 0 where
  in_flight completed : Status

pub record Response : Type 0 where
  pub status : ℕ
  pub header : Dict Bytes (List Bytes)
  pub body : Bytes

pub record Record : Type 0 where
  pub scope : Bytes
  pub key : Bytes
  pub fingerprint : Bytes
  pub status : Status
  pub attempt : ℕ
  pub claimed_at : ℕ
  pub lease_until : ℕ
  pub expires_at : ℕ
  pub response : Option Response

pub data Outcome : Type 0 where
  fresh replay still_running mismatch : Outcome

pub record Policy : Type 0 where
  pub ttl : ℕ
  pub lease : ℕ

-- `DefaultPolicy`, in nanoseconds.
abbrev pub default_policy : Policy
default_policy = record { ttl = 86400 * 10 ^ 9; lease = 30 * 10 ^ 9 }

pub data Error : Type 0 where
  invalid_key not_found stale_claim : Error

-- `MaxKeyLen`.
abbrev pub max_key_len : ℕ
max_key_len = 255

unfoldable pub visible_ascii : Bytes → Bool
visible_ascii [] = true
visible_ascii (c ∷ k) = if ltb c 33 || ltb 126 c then false else visible_ascii k

-- `Key.Validate`.
unfoldable pub validate_key : Bytes → Result Error (Unit {0})
unfolding visible_ascii
validate_key k = do
  refuse_if (is_empty k) invalid_key
  refuse_if (ltb max_key_len (length k)) invalid_key
  refuse_if (not (visible_ascii k)) invalid_key

-- `FingerprintOf`: what is hashed, and its digest.
unfoldable pub fingerprint_of : (Bytes → Bytes) → Bytes → Bytes → Bytes → Bytes
fingerprint_of sha256 method path body = sha256 (method ++ 0 ∷ path ++ 0 ∷ body)

pub record RecordKey : Type 0 where
  pub scope : Bytes
  pub key : Bytes

unfoldable pub key_eq : RecordKey → RecordKey → Bool
key_eq a b = (a.scope =? b.scope) && (a.key =? b.key)

pub key_eq_iff : (a b : RecordKey) → (key_eq a b ≡ true) ↔ (a ≡ b)
unfolding key_eq
key_eq_iff a b = (
  λ h. ground (arith, bytes_eq_iff a.scope b.scope, bytes_eq_iff a.key b.key),
  λ h. ground (arith, bytes_eq_iff a.scope b.scope, bytes_eq_iff a.key b.key),
)

instance abbrev pub RecordKey-eq : Eq RecordKey
RecordKey-eq = record { beq = key_eq; beq_iff = key_eq_iff }

abbrev pub Store : Type 0
Store = Dict RecordKey Record

abbrev pub record_key : Bytes → Bytes → RecordKey
record_key scope key = record { scope = scope; key = key }

-- The record of a key that was not there.
unfoldable pub first_record : Bytes → Bytes → Bytes → ℕ → Policy → Record
first_record scope key fp now p = record {
  scope = scope;
  key = key;
  fingerprint = fp;
  status = in_flight;
  attempt = 1;
  claimed_at = now;
  lease_until = now + p.lease;
  expires_at = now + p.ttl;
  response = none;
}

-- `!cur.ExpiresAt.After(now)`.
unfoldable pub expired : ℕ → Record → Bool
expired now r = not (ltb now r.expires_at)

-- The next attempt, when the lease of the last one is over.
unfoldable pub take_over : ℕ → Policy → Record → Record
take_over now p r = record r {
  attempt = (r.attempt + 1) % u64;
  claimed_at = now;
  lease_until = now + p.lease;
}

-- A key whose record has not expired.
unfoldable pub claim_live :
    RecordKey → Bytes → ℕ → Policy → Record → Store → Store × Record × Outcome
unfolding take_over
claim_live rk fp now p cur m =
    if not (cur.fingerprint =? fp) then (m, cur, mismatch) else elim cur.status [
      | completed ↦ (m, cur, replay)
      | in_flight ↦
          if ltb now cur.lease_until
          then (m, cur, still_running)
          else (insert rk (take_over now p cur) m, take_over now p cur, fresh)
    ]

-- A key with no record, or whose record was just deleted.
unfoldable pub claim_new : Bytes → Bytes → Bytes → ℕ → Policy → Store → Store × Record × Outcome
unfolding first_record
claim_new scope key fp now p m = (
  insert (record_key scope key) (first_record scope key fp now p) m,
  first_record scope key fp now p,
  fresh,
)

-- `Claim`: one atomic step.
unfoldable pub claim : Bytes → Bytes → Bytes → ℕ → Policy → Store → Store × Record × Outcome
unfolding claim_live claim_new expired
claim scope key fp now p m =
    let rk = record_key scope key in
    elim (lookup rk m) [
      | none ↦ claim_new scope key fp now p m
      | some cur ↦
          if expired now cur
          then claim_new scope key fp now p (delete rk m)
          else claim_live rk fp now p cur m
    ]

-- What `Complete` makes of the record of its own attempt: a stored answer stays.
unfoldable pub answer : Response → Record → Record
answer resp r = elim r.status [
  | completed ↦ r
  | in_flight ↦ record r { status = completed; response = some resp }
]

-- `Complete`.
unfoldable pub complete : Bytes → Bytes → ℕ → Response → Store → Result Error Store
unfolding answer
complete scope key attempt resp m = elim (lookup (record_key scope key) m) [
  | none ↦ err not_found
  | some cur ↦ do
    refuse_if (not (cur.attempt == attempt)) stale_claim
    ok (insert (record_key scope key) (answer resp cur) m)
]

-- `Sweep`: what is left, and how many went.
unfoldable pub unexpired : ℕ → Store → Store
unfolding expired
unexpired now [] = []
unexpired now ((k, r) ∷ m) =
    let rest = unexpired now m in if expired now r then rest else (k, r) ∷ rest

unfoldable pub sweep : ℕ → Store → Store × ℕ
unfolding unexpired
sweep now m = (unexpired now m, length m - length (unexpired now m))
