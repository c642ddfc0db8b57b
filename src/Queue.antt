-- ===== src/Queue.antt =====
-- backend/internal/queue: the at-least-once job queue, in memory.
-- Times are nanoseconds; a lease and a delay are not negative. `panicked` is the read through a
-- nil slot, which the laws of the queue exclude.
use stablecoin_settlement_en.Common.{
  ℕ, ◌+◌, ◌%◌, Bool, true, false, ◌&&◌, Option, none, some, List, [], ◌∷◌, ◌++◌, u64, ltb,
  if◌then◌else◌, not, length, Bytes, ◌=?◌, Bytes-eq, is_empty, Dict, lookup, insert, delete, Result,
  ok, err, ◌>>=◌, ◌>>◌, refuse_if,
}
use stablecoin_settlement_en.Common.Encode.{decimal}
use stablecoin_settlement_en.Paymentref.{Ref, is_zero}
pub mod Laws
pub mod Lease
pub mod Exclusive

-- `kind` is a string in the source; `odd` is one that is not `settle`.
pub data Kind : Type 0 where
  settle : Kind
  odd : Bytes → Kind

pub record Job : Type 0 where
  pub id : Bytes
  pub kind : Kind
  pub intent_id : Bytes
  pub ref : Ref

pub data Error : Type 0 where
  invalid_job not_found stale_receipt panicked : Error

unfoldable pub is_settle : Kind → Bool
is_settle settle = true
is_settle (odd k) = false

unfoldable pub validate : Job → Result Error (Unit {0})
unfolding is_settle is_zero
validate j = do
  refuse_if (is_empty j.id) invalid_job
  refuse_if (not (is_settle j.kind)) invalid_job
  refuse_if (is_empty j.intent_id) invalid_job
  refuse_if (is_zero j.ref) invalid_job

pub record Slot : Type 0 where
  pub job : Job
  pub attempt : ℕ
  pub not_before : ℕ
  pub lease_until : ℕ

pub record Queue : Type 0 where
  pub jobs : Dict Bytes Slot
  pub order : List Bytes

pub record Delivery : Type 0 where
  pub job : Job
  pub attempt : ℕ
  pub receipt : Bytes
  pub lease_until : ℕ

unfoldable pub empty : Queue
empty = record { jobs = []; order = [] }

unfoldable pub receipt : Bytes → ℕ → Bytes
receipt id attempt = id ++ b'#' ∷ decimal attempt

unfoldable pub enqueue : Job → ℕ → Queue → Result Error (Queue × Bool)
unfolding validate
enqueue job now q = do
  validate job
  elim (lookup job.id q.jobs) [
    | some s ↦ ok (q, false)
    | none ↦ ok (
      record {
        jobs =
            insert job.id (record { job = job; attempt = 0; not_before = now; lease_until = 0 })
              q.jobs;
        order = q.order ++ job.id ∷ [];
      },
      true,
    )
  ]

-- `!After(now)` of both times.
unfoldable pub visible : ℕ → Slot → Bool
visible now s = not (ltb now s.not_before) && not (ltb now s.lease_until)

unfoldable pub lease_slot : ℕ → ℕ → Slot → Slot
lease_slot now lease s = record s { attempt = (s.attempt + 1) % u64; lease_until = now + lease }

unfoldable pub delivery : Bytes → Slot → Delivery
unfolding receipt
delivery id s = record {
  job = s.job;
  attempt = s.attempt;
  receipt = receipt id s.attempt;
  lease_until = s.lease_until;
}

-- The loop of `Lease` over the order.
unfoldable pub first_visible :
    ℕ → Dict Bytes Slot → List Bytes → Result Error (Option (Bytes × Slot))
unfolding visible
first_visible now jobs [] = ok none
first_visible now jobs (id ∷ ids) =
    let rest = first_visible now jobs ids in
    elim (lookup id jobs) [
      | none ↦ err panicked
      | some s ↦ if visible now s then ok (some (id, s)) else rest
    ]

-- The slot that was found is leased.
unfoldable pub take_slot : ℕ → ℕ → Queue → Option (Bytes × Slot) → Queue × Option Delivery
unfolding lease_slot delivery
take_slot now lease q none = (q, none)
take_slot now lease q (some (id, s)) = (
  record q { jobs = insert id (lease_slot now lease s) q.jobs },
  some (delivery id (lease_slot now lease s)),
)

unfoldable pub lease : ℕ → ℕ → Queue → Result Error (Queue × Option Delivery)
unfolding first_visible take_slot
lease now length_of q = do
  hit ← first_visible now q.jobs q.order
  ok (take_slot now length_of q hit)

-- `current`: the slot of a delivery, if its receipt is the last one.
unfoldable pub current : Delivery → Queue → Result Error Slot
unfolding receipt
current d q = elim (lookup d.job.id q.jobs) [
  | none ↦ err not_found
  | some s ↦ refuse_if (not (d.receipt =? receipt s.job.id s.attempt)) stale_receipt >> ok s
]

-- The first occurrence goes, and the loop breaks.
unfoldable pub remove_first : Bytes → List Bytes → List Bytes
remove_first a [] = []
remove_first a (b ∷ bs) = if b =? a then bs else b ∷ remove_first a bs

unfoldable pub ack : Delivery → Queue → Result Error Queue
unfolding current remove_first
ack d q = do
  s ← current d q
  ok (record { jobs = delete s.job.id q.jobs; order = remove_first s.job.id q.order })

unfoldable pub nack : Delivery → ℕ → ℕ → Queue → Result Error Queue
unfolding current
nack d retry_after now q = do
  s ← current d q
  ok (record q {
    jobs = insert d.job.id (record s { lease_until = 0; not_before = now + retry_after }) q.jobs;
  })

-- `Len`.
unfoldable pub size : Queue → ℕ
size q = length q.jobs
